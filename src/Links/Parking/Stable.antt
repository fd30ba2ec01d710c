-- ===== src/Links/Parking/Stable.antt =====
-- What holds of the objects whatever the host answers: a property that is stable under a change of
-- the host and under a move of one endpoint is kept by the loops that park and restore endpoints.
use containerlab.Links.Store.{
  ◌>>◌, pure, raise, handled, ignoring, Host, Store, M, and_then, caught,
}
use containerlab.Links.Ownership.{remove_first, move_between, move_endpoint}
use containerlab.Links.Ownership.HostOnly.{Kept, Kept-activate_endpoint}
use containerlab.Links.Ownership.Invariant.{named}
use containerlab.Links.Ownership.Moving.{moved}
use containerlab.Links.Ownership.Atomic.{IsMove, stays, moves, move_endpoint-IsMove}
use containerlab.Links.Parking.{give_back, capture, park_again, restore}
use containerlab.Base.{
  ℕ, ◌≡◌, refl, sym, subst, ◌≢◌, inl, inr, Bool, true, false, Option, none, some, List, [], ◌∷◌,
  arith, ◌==◌, if◌then◌else◌, Bool-cases, Error, Outcome, ok, fail, panic,
}

-- A property of the objects of a lab that a change of the host or one move cannot break.
pub record Stable {S : Type 0} (P : Store S → Type 0) : Type 0 where
  pub hosted : (s : Store S) (h : S) → P s → P (record s { host = h })
  pub moving :
      (s : Store S) (e src dst : ℕ) (left : List ℕ)
      → src ≢ dst
      → remove_first e (s.owned src) ≡ some left
      → named s.endpoint (s.endpoint e).iface_name (s.owned dst) ≡ false
      → P s
      → P (moved s e src dst left)

-- The property holds of the objects that a call leaves behind.
pub record After {S : Type 0} {A : Type 0} (P : Store S → Type 0) (r : Outcome A × Store S)
    : Type 0 where
  pub holds : P r.1

module _ {S : Type 0} {A : Type 0} {P : Store S → Type 0} where
  pub After-here : (o : Outcome A) (s : Store S) → P s → After P (o, s)
  After-here o s p = record { holds = p }

  pub After-and_then :
      {B : Type 0} {r : Outcome A × Store S} {f : A → M S B}
      → After P r
      → ((a : A) (t : Store S) → P t → After P (f a t))
      → After P (and_then r f)
  unfolding and_then
  After-and_then {r = (ok a, t)} p next = next a t p.holds
  After-and_then {r = (fail e, t)} p next = record { holds = p.holds }
  After-and_then {r = (panic, t)} p next = record { holds = p.holds }

  pub After-handled :
      {r : Outcome A × Store S} {f : Error → M S A}
      → After P r
      → ((e : Error) (t : Store S) → P t → After P (f e t))
      → After P (handled r f)
  unfolding handled
  After-handled {r = (ok a, t)} p next = p
  After-handled {r = (fail e, t)} p next = next e t p.holds
  After-handled {r = (panic, t)} p next = p

  pub After-caught : {r : Outcome A × Store S} → After P r → After P (caught r)
  unfolding caught
  After-caught {r = (ok a, t)} p = record { holds = p.holds }
  After-caught {r = (fail e, t)} p = record { holds = p.holds }
  After-caught {r = (panic, t)} p = record { holds = p.holds }

  -- A call whose error is dropped.
  pub After-ignored :
      {r : Outcome A × Store S} → After P r → After P (and_then (caught r) λ _. pure tt)
  unfolding and_then caught
  After-ignored {r = (ok a, t)} p = record { holds = p.holds }
  After-ignored {r = (fail e, t)} p = record { holds = p.holds }
  After-ignored {r = (panic, t)} p = record { holds = p.holds }

  pub After-Kept : {s : Store S} {r : Outcome A × Store S} → Stable P → Kept s r → P s → After P r
  After-Kept {s = s} st kept p = record {
    holds = subst P (sym kept.same) (st.hosted s kept.host p);
  }

  pub After-choice :
      {s : Store S} (b : Bool) (m n : M S A)
      → After P (m s)
      → After P (n s)
      → After P ((if b then m else n) s)
  After-choice true m n p q = p
  After-choice false m n p q = q

  pub After-if :
      (b : Bool) {r q : Outcome A × Store S} → After P r → After P q → After P (if b then r else q)
  After-if true p q = p
  After-if false p q = q

module _ {S : Type 0} {P : Store S → Type 0} where
  -- A call whose error is returned after a cleanup.
  pub After-recovered :
      {A : Type 0} {r : Outcome A × Store S} {cleanup : M S (Unit {0})}
      → After P r
      → ((t : Store S) → P t → After P (cleanup t))
      → After P (handled r λ e. ignoring cleanup >> raise e)
  After-recovered p next = After-handled p λ e t q. record {
    holds = (After-and_then (After-ignored (next t q)) λ _ u v. After-here (fail e) u v).holds;
  }

module _ (H : Host) (P : Store H.State → Type 0) (st : Stable P) where
  After-IsMove :
      (s : Store H.State) (e src dst : ℕ) (r : Outcome (Unit {0}) × Store H.State)
      → src ≢ dst
      → IsMove s e src dst r
      → P s
      → After P r
  After-IsMove s e src dst r apart (stays h failed same) p = record {
    holds = subst P (sym same) (st.hosted s h p);
  }
  After-IsMove s e src dst r apart (moves h left gone free same) p = record {
    holds =
        rw same
          (st.moving (record s { host = h }) e src dst left apart gone free (st.hosted s h p));
  }

  After-owner :
      (s : Store H.State) (e dst : ℕ) (o : Option ℕ)
      → (s.endpoint e).node ≡ o
      → P s
      → After P (move_endpoint H e (some dst) s)
  unfolding move_endpoint move_between
  After-owner s e dst none owner p = rw (owner, move_endpoint) (After-here _ s p)
  After-owner s e dst (some src) owner p = elim (Bool-cases (src == dst)) [
    | inl same ↦ rw (owner, move_endpoint, same) (After-here _ s p)
    | inr other ↦
        let apart : src ≢ dst = λ eq. ground (arith, other, eq) in
        After-IsMove s e src dst _ apart (move_endpoint-IsMove H s e src dst owner apart) p
  ]

  pub After-move_endpoint :
      (s : Store H.State) (e dst : ℕ) → P s → After P (move_endpoint H e (some dst) s)
  After-move_endpoint s e dst p = After-owner s e dst (s.endpoint e).node refl p

  pub After-give_back :
      (es : List ℕ) (src : ℕ) (s : Store H.State) → P s → After P (give_back H es src s)
  unfolding give_back
  After-give_back [] src s p = After-here _ s p
  After-give_back (e ∷ es) src s p =
      After-and_then
        (After-ignored (
          After-and_then (After-move_endpoint s e src p)
            λ _ t q. After-Kept st (Kept-activate_endpoint H e t) q))
        λ _ t q. After-give_back es src t q

  pub After-park_again :
      (es : List ℕ) (p : ℕ) (s : Store H.State) → P s → After P (park_again H es p s)
  unfolding park_again
  After-park_again [] p s q = After-here _ s q
  After-park_again (e ∷ es) p s q =
      After-and_then (After-ignored (After-move_endpoint s e p q))
        λ _ t r. After-park_again es p t r

  -- A stable property holds after CaptureFrom moved the endpoints, or failed to.
  pub After-capture :
      (p src : ℕ) (gone es : List ℕ) (s : Store H.State) → P s → After P (capture H p src gone es s)
  unfolding capture
  After-capture p src gone [] s q = After-here _ s q
  After-capture p src gone (e ∷ es) s q =
      After-and_then
        (After-recovered (After-move_endpoint s e p q) λ t r. After-give_back gone src t r)
        λ _ t r. After-capture p src (e ∷ gone) es t r

  -- And after the loop of RestoreTo.
  pub After-restore :
      (p dst : ℕ) (gone es : List ℕ) (s : Store H.State) → P s → After P (restore H p dst gone es s)
  unfolding restore
  After-restore p dst gone [] s q = After-here _ s q
  After-restore p dst gone (e ∷ es) s q =
      After-and_then
        (After-recovered (After-move_endpoint s e dst q) λ t r. After-park_again gone p t r)
        λ _ t r.
          After-and_then
            (After-recovered (After-Kept st (Kept-activate_endpoint H e t) r)
              λ u v. After-park_again (e ∷ gone) p u v)
            λ _ u v. After-restore p dst (e ∷ gone) es u v
