-- ===== src/Links/Parking/Emptied.antt =====
-- A capture or a restoration that returns no error has moved every endpoint.
use containerlab.Links.Store.{Host, update, M, raise, ◌>>◌, ignoring, and_then, handled, Store}
use containerlab.Links.Ownership.Moving.{Owned-moved}
use mathlib.Core.List.{append_assoc}
use containerlab.Links.Ownership.{has, remove_first, move_endpoint, activate_endpoint}
use containerlab.Links.Parking.{capture, restore, give_back, park_again}
use containerlab.Links.Ownership.Atomic.{IsMove, stays, moves, move_endpoint-IsMove}
use containerlab.Links.Ownership.HostOnly.{Kept-activate_endpoint}
use containerlab.Links.Ownership.Invariant.{Owned}
use containerlab.Base.{
  ℕ, ◌≡◌, refl, sym, ap, ◌∙◌, subst, ◌≢◌, inl, inr, true, some, List, [], ◌∷◌, ◌++◌, arith, ◌==◌,
  Bool-cases, Outcome, ok, fail, panic, is_ok,
}

removed_head :
    (e : ℕ) (es os left : List ℕ) → os ≡ e ∷ es → remove_first e os ≡ some left → left ≡ es
unfolding remove_first
removed_head e es os left shape gone =
    let found : remove_first e (e ∷ es) ≡ some left =
      subst (λ l. remove_first e l ≡ some left) shape gone in
    ground (arith, found)

module _ {S : Type 0} where
  pub and_then-eq-ok :
      {A B : Type 0} (r : Outcome A × Store S) (f : A → M S B) {b : B} {u : Store S}
      → and_then r f ≡ (ok b, u)
      → (a : A) × (t : Store S) × (r ≡ (ok a, t)) × (f a t ≡ (ok b, u))
  unfolding and_then
  and_then-eq-ok (ok a, t) f h = (a, t, refl, h)
  and_then-eq-ok (fail e, t) f h =
      absurd (ground (arith, ap (λ (r : Outcome _ × Store S). is_ok r.0) h))
  and_then-eq-ok (panic, t) f h =
      absurd (ground (arith, ap (λ (r : Outcome _ × Store S). is_ok r.0) h))

  -- A call that recovers from an error and then returns it went well if it returns no error.
  pub recovered-eq-ok :
      {A : Type 0} (r : Outcome A × Store S) (cleanup : M S (Unit {0})) {a : A} {u : Store S}
      → handled r (λ e. ignoring cleanup >> raise e) ≡ (ok a, u)
      → r ≡ (ok a, u)
  unfolding handled
  recovered-eq-ok (ok a, t) cleanup h = h
  recovered-eq-ok (fail e, t) cleanup h =
      let (_, v, went, raised) = and_then-eq-ok (ignoring cleanup t) (λ _. raise e) h in
      absurd (ground (arith, ap (λ (r : Outcome _ × Store S). is_ok r.0) raised))
  recovered-eq-ok (panic, t) cleanup h =
      absurd (ground (arith, ap (λ (r : Outcome _ × Store S). is_ok r.0) h))

  -- The head of the list of a node has moved, last in the list of the other one.
  pub IsMove-head :
      (s : Store S) (e src dst : ℕ) (es : List ℕ) (u : Store S) (r : Outcome (Unit {0}) × Store S)
      → Owned s
      → src ≢ dst
      → s.owned src ≡ e ∷ es
      → IsMove s e src dst r
      → r ≡ (ok tt, u)
      → Owned u × (u.owned src ≡ es) × (u.owned dst ≡ s.owned dst ++ (e ∷ []))
  unfolding update
  IsMove-head s e src dst es u r i apart shape (stays h failed same) went =
      absurd (ground (arith, failed, ap (λ (r : Outcome (Unit {0}) × Store S). is_ok r.0) went))
  IsMove-head s e src dst es u r i apart shape (moves h left gone free same) went =
      let kept : left ≡ es = removed_head e es (s.owned src) left shape gone in
      subst
        (λ (t : Store S). Owned t × (t.owned src ≡ es) × (t.owned dst ≡ s.owned dst ++ (e ∷ [])))
        (ap (λ (r : Outcome (Unit {0}) × Store S). r.1) (sym same ∙ went))
        (
          Owned-moved (record s { host = h }) e src dst left
              (record { owner = i.owner; apart = i.apart; allocated = i.allocated }) apart gone
              free,
          elim (Bool-cases (src == dst)) [
            | inl equal ↦ absurd (apart (ground (arith, equal)))
            | inr other ↦ rw other (ground (arith, kept))
          ],
          ground arith,
        )

pub append_nil : (es : List ℕ) → es ++ [] ≡ es
append_nil [] = refl
append_nil (e ∷ es) = ap (λ l. e ∷ l) (append_nil es)

module _ (H : Host) where
  move_head :
      (s u : Store H.State) (e src dst : ℕ) (es : List ℕ)
      → Owned s
      → src ≢ dst
      → s.owned src ≡ e ∷ es
      → move_endpoint H e (some dst) s ≡ (ok tt, u)
      → Owned u × (u.owned src ≡ es) × (u.owned dst ≡ s.owned dst ++ (e ∷ []))
  move_head s u e src dst es i apart shape went =
      let held : has e (s.owned src) ≡ true = rw shape (ground arith) in
      IsMove-head s e src dst es u _ i apart shape
        (move_endpoint-IsMove H s e src dst (i.owner src e held) apart) went

  -- The loop of CaptureFrom, if it returns no error, has moved all of the node's endpoints, in the
  -- order of its list.
  pub capture-eq-ok :
      (p src : ℕ) (gone es : List ℕ) (s u : Store H.State)
      → Owned s
      → src ≢ p
      → s.owned src ≡ es
      → capture H p src gone es s ≡ (ok tt, u)
      → (u.owned src ≡ []) × (u.owned p ≡ s.owned p ++ es)
  unfolding capture
  capture-eq-ok p src gone [] s u i apart shape h =
      let same : s ≡ u = ap (λ (r : Outcome (Unit {0}) × Store H.State). r.1) h in
      subst (λ (t : Store H.State). (t.owned src ≡ []) × (t.owned p ≡ s.owned p ++ [])) same
        (shape, sym (append_nil (s.owned p)))
  capture-eq-ok p src gone (e ∷ es) s u i apart shape h =
      let (_, t, recovered, rest) =
        and_then-eq-ok (handled (move_endpoint H e (some p) s) _)
          (λ _. capture H p src (e ∷ gone) es) h in
      let went = recovered-eq-ok (move_endpoint H e (some p) s) (give_back H gone src) recovered in
      let (j, shorter, longer) = move_head s t e src p es i apart shape went in
      let (empty, all) = capture-eq-ok p src (e ∷ gone) es t u j apart shorter rest in
      (empty, all ∙ ap (λ l. l ++ es) longer ∙ append_assoc (s.owned p) (e ∷ []) es)

  -- And so has the loop of RestoreTo.
  pub restore-eq-ok :
      (p dst : ℕ) (gone es : List ℕ) (s u : Store H.State)
      → Owned s
      → p ≢ dst
      → s.owned p ≡ es
      → restore H p dst gone es s ≡ (ok tt, u)
      → (u.owned p ≡ []) × (u.owned dst ≡ s.owned dst ++ es)
  unfolding restore
  restore-eq-ok p dst gone [] s u i apart shape h =
      let same : s ≡ u = ap (λ (r : Outcome (Unit {0}) × Store H.State). r.1) h in
      subst (λ (t : Store H.State). (t.owned p ≡ []) × (t.owned dst ≡ s.owned dst ++ [])) same
        (shape, sym (append_nil (s.owned dst)))
  restore-eq-ok p dst gone (e ∷ es) s u i apart shape h =
      let (_, t, recovered, rest) =
        and_then-eq-ok (handled (move_endpoint H e (some dst) s) _)
          (λ _ t. and_then (handled (activate_endpoint H e t) _) λ _. restore H p dst (e ∷ gone) es)
          h in
      let went = recovered-eq-ok (move_endpoint H e (some dst) s) (park_again H gone p) recovered in
      let (j, shorter, longer) = move_head s t e p dst es i apart shape went in
      let (_, v, activated, last) =
        and_then-eq-ok (handled (activate_endpoint H e t) _) (λ _. restore H p dst (e ∷ gone) es)
          rest in
      let up = recovered-eq-ok (activate_endpoint H e t) (park_again H (e ∷ gone) p) activated in
      let kept = Kept-activate_endpoint H e t in
      let same : v ≡ record t { host = kept.host } =
        sym (ap (λ (r : Outcome (Unit {0}) × Store H.State). r.1) up) ∙ kept.same in
      let (empty, all) =
        restore-eq-ok p dst (e ∷ gone) es v u
          (rw same (record { owner = j.owner; apart = j.apart; allocated = j.allocated })) apart
          (rw same shorter) last in
      (
        empty,
        all
            ∙ ap (λ (w : Store H.State). w.owned dst ++ es) same
            ∙ ap (λ l. l ++ es) longer
            ∙ append_assoc (s.owned dst) (e ∷ []) es,
      )
