-- ===== src/Links/Ownership/Adopting.antt =====
-- Releasing an endpoint, naming another node as its owner and adopting it there keep the agreement
-- of the objects on who owns an endpoint.
use containerlab.Links.Store.{Store, update}
use containerlab.Links.Ownership.{has, remove_first, tracks, set_node, append_endpoint}
use containerlab.Links.Ownership.Invariant.{
  named, Owned, has-append, has-remove_first, Apart-remove_first, Apart-append, Apart-same,
}
use containerlab.Links.Ownership.Moving.{has-left, name-update, some_inj}
use containerlab.Base.{
  ℕ, ◌<◌, ◌≡◌, refl, sym, ◌∙◌, subst, inl, inr, true, false, some, List, [], ◌∷◌, arith, ◌==◌,
  Bool-cases, ok,
}

-- No node has the endpoint in its list.
abbrev pub Unowned : {S : Type 0} → Store S → ℕ → Type 0
Unowned s e = (n : ℕ) → has e (s.owned n) ≡ false

module _ {S : Type 0} where
  has-released :
      (s : Store S) (n e : ℕ) (left : List ℕ) (m x : ℕ)
      → remove_first e (s.owned n) ≡ some left
      → has x (update n left s.owned m) ≡ true
      → has x (s.owned m) ≡ true
  unfolding update
  has-released s n e left m x gone h = elim (Bool-cases (m == n)) [
    | inl same ↦
        let eq : m ≡ n = ground (arith, same) in
        rw eq (ground (arith, h, same, has-remove_first e x (s.owned n) left gone))
    | inr other ↦ ground (arith, h, other)
  ]

  pub Owned-released :
      (s : Store S) (n e : ℕ) (left : List ℕ)
      → Owned s
      → remove_first e (s.owned n) ≡ some left
      → Owned (record s { owned = update n left s.owned })
  unfolding update
  Owned-released s n e left i gone = record {
    owner = λ m x h. i.owner m x (has-released s n e left m x gone h);
    apart = λ m. elim (Bool-cases (m == n)) [
      | inl same ↦
          let (a, _) = Apart-remove_first s.endpoint e (s.owned n) left (i.apart n) gone in
          rw same a
      | inr other ↦ rw other (i.apart m)
    ];
    allocated = λ m x h. i.allocated m x (has-released s n e left m x gone h);
  }

  pub Unowned-released :
      (s : Store S) (n e : ℕ) (left : List ℕ)
      → Owned s
      → remove_first e (s.owned n) ≡ some left
      → Unowned (record s { owned = update n left s.owned }) e
  unfolding update
  Unowned-released s n e left i gone m = elim (Bool-cases (m == n)) [
    | inl same ↦ rw same (has-left s.endpoint e (s.owned n) left (i.apart n) gone)
    | inr other ↦ rw other (elim (Bool-cases (has e (s.owned m))) [
      | inl held ↦
          let there : has e (s.owned n) ≡ true =
            ground (arith, has-remove_first e e (s.owned n) left gone) in
          let eq : m ≡ n = some_inj m n (sym (i.owner m e held) ∙ i.owner n e there) in
          absurd (ground (arith, other, eq))
      | inr free ↦ free
    ])
  ]

  pub Owned-set_node : (s : Store S) (e n : ℕ) → Owned s → Unowned s e → Owned (set_node e n s).1
  unfolding set_node update
  Owned-set_node s e n i free = record {
    owner = λ m x h. elim (Bool-cases (x == e)) [
      | inl same ↦
          let eq : x ≡ e = ground (arith, same) in
          absurd (ground (arith, free m, subst (λ k. has k (s.owned m) ≡ true) eq h))
      | inr other ↦ rw other (i.owner m x h)
    ];
    apart = λ m.
        Apart-same s.endpoint (update e (record (s.endpoint e) { node = some n }) s.endpoint)
          (s.owned m) (λ k _. sym (name-update s.endpoint e k (some n))) (i.apart m);
    allocated = i.allocated;
  }

  pub Owned-append :
      (s : Store S) (e n : ℕ)
      → Owned s
      → (s.endpoint e).node ≡ some n
      → e < s.next_endpoint
      → named s.endpoint (s.endpoint e).iface_name (s.owned n) ≡ false
      → Owned (append_endpoint n e s).1
  unfolding append_endpoint update
  Owned-append s e n i owner old free = record {
    owner = λ m x h. elim (Bool-cases (m == n)) [
      | inl same ↦
          let eq : m ≡ n = ground (arith, same) in
          elim (Bool-cases (x == e)) [
            | inl last ↦ let it : x ≡ e = ground (arith, last) in rw (eq, it) owner
            | inr other ↦
                i.owner m x
                  (rw eq (ground (arith, h, same, other, has-append x (s.owned n) (e ∷ []))))
          ]
      | inr other ↦ i.owner m x (ground (arith, h, other))
    ];
    apart = λ m. elim (Bool-cases (m == n)) [
      | inl same ↦ rw same (Apart-append s.endpoint e (s.owned n) (i.apart n) free)
      | inr other ↦ rw other (i.apart m)
    ];
    allocated = λ m x h. elim (Bool-cases (m == n)) [
      | inl same ↦ elim (Bool-cases (x == e)) [
        | inl last ↦ let it : x ≡ e = ground (arith, last) in rw it old
        | inr other ↦
            i.allocated n x (ground (arith, h, same, other, has-append x (s.owned n) (e ∷ [])))
      ]
      | inr other ↦ i.allocated m x (ground (arith, h, other))
    ];
  }

  pub tracks-eq-ok-false :
      (s : Store S) (e : ℕ) (es : List ℕ)
      → tracks s.endpoint e es ≡ ok false
      → named s.endpoint (s.endpoint e).iface_name es ≡ false
  unfolding tracks
  tracks-eq-ok-false s e [] h = refl
  tracks-eq-ok-false s e (o ∷ es) h = ground (arith, h, tracks-eq-ok-false s e es)
