-- ===== src/Links/Parking/Lossless.antt =====
-- No failure of a move, nor of the moves that undo the earlier ones, loses an endpoint.
use containerlab.Links.Store.{Host, Store, update}
use containerlab.Links.Ownership.{has, remove_first}
use containerlab.Links.Ownership.Invariant.{has-append, has-remove_first}
use containerlab.Links.Ownership.Moving.{moved}
use containerlab.Links.Parking.{capture, restore}
use containerlab.Links.Parking.Stable.{Stable, After-capture, After-restore}
use containerlab.Base.{
  ℕ, ◌≡◌, subst, ◌≢◌, inl, inr, true, some, List, [], ◌∷◌, arith, ◌==◌, Bool-cases,
}

-- Some node has the endpoint in its list.
unfoldable pub Held : {S : Type 0} → ℕ → Store S → Type 0
Held e s = (n : ℕ) × (has e (s.owned n) ≡ true)

module _ {S : Type 0} where
  Held-moved :
      (x : ℕ) (s : Store S) (e src dst : ℕ) (left : List ℕ)
      → src ≢ dst
      → remove_first e (s.owned src) ≡ some left
      → Held x s
      → Held x (moved s e src dst left)
  unfolding Held update
  Held-moved x s e src dst left apart gone (n, held) = elim (Bool-cases (n == dst)) [
    | inl same ↦
        let eq : n ≡ dst = ground (arith, same) in
        (
          dst,
          ground (
            arith,
            has-append x (s.owned dst) (e ∷ []),
            subst (λ k. has x (s.owned k) ≡ true) eq held,
          ),
        )
    | inr other ↦ elim (Bool-cases (n == src)) [
      | inl same ↦
          let eq : n ≡ src = ground (arith, same) in
          let there : has x (s.owned src) ≡ true = subst (λ k. has x (s.owned k) ≡ true) eq held in
          elim (Bool-cases (x == e)) [
            | inl it ↦ (dst, ground (arith, has-append x (s.owned dst) (e ∷ []), it))
            | inr away ↦ (
              n,
              rw (other, same)
                  (ground (arith, there, away, has-remove_first e x (s.owned src) left gone)),
            )
          ]
      | inr away ↦ (n, rw (other, away) held)
    ]
  ]

  Held-Stable : (x : ℕ) → Stable {S = S} (Held x)
  unfolding Held
  Held-Stable x = record {
    hosted = λ s h p. p;
    moving = λ s e src dst left apart gone free p. Held-moved x s e src dst left apart gone p;
  }

-- Parking loses no endpoint: whatever the host answers and whichever moves fail, on the way there
-- or back, an endpoint that some node had is still in the list of some node.
pub capture-Held :
    (H : Host) (p src : ℕ) (es : List ℕ) (s : Store H.State) (e : ℕ)
    → Held e s
    → Held e (capture H p src [] es s).1
capture-Held H p src es s e h = (After-capture H (Held e) (Held-Stable e) p src [] es s h).holds

-- Restoring loses no endpoint either, whatever fails.
pub restore-Held :
    (H : Host) (p dst : ℕ) (es : List ℕ) (s : Store H.State) (e : ℕ)
    → Held e s
    → Held e (restore H p dst [] es s).1
restore-Held H p dst es s e h = (After-restore H (Held e) (Held-Stable e) p dst [] es s h).holds
