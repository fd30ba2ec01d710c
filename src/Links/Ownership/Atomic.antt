-- ===== src/Links/Ownership/Atomic.antt =====
-- A move of an endpoint either gives it to the other node, as its last endpoint, or returns an
-- error and leaves every object as it was.
use containerlab.Links.Store.{Host, Store, M, and_then}
use containerlab.Links.Ownership.{
  has, remove_first, clashes, check_move, transfer_ownership, ensure_ownership_alt_name, move_link,
  move_between, move_endpoint,
}
use containerlab.Links.Ownership.HostOnly.{Kept, Kept-move_link, Kept-ensure_ownership_alt_name}
use containerlab.Links.Ownership.Invariant.{named, remove_first-some, clashes-eq-ok}
use containerlab.Links.Ownership.Moving.{moved, transfer_ownership_lem}
use containerlab.Base.{
  ℕ, ◌≡◌, refl, sym, subst, ◌≢◌, inl, inr, true, false, some, List, arith, ◌==◌, Bool-cases,
  Outcome, ok, fail, panic, is_ok,
}

-- What a call that moves the endpoint `e` from `src` to `dst` may return.
pub data IsMove {S : Type 0} (s : Store S) (e src dst : ℕ) (r : Outcome (Unit {0}) × Store S)
    : Type 0 where
  stays : (h : S) → is_ok r.0 ≡ false → r.1 ≡ record s { host = h } → IsMove s e src dst r
  moves :
      (h : S) (left : List ℕ)
      → remove_first e (s.owned src) ≡ some left
      → named s.endpoint (s.endpoint e).iface_name (s.owned dst) ≡ false
      → r ≡ (ok tt, moved (record s { host = h }) e src dst left)
      → IsMove s e src dst r

module _ {S : Type 0} where
  IsMove-and_then :
      {A : Type 0} (s : Store S) (e src dst : ℕ) (r : Outcome A × Store S) (f : A → M S (Unit {0}))
      → Kept s r
      → ((a : A) (h : S) → IsMove s e src dst (f a (record s { host = h })))
      → IsMove s e src dst (and_then r f)
  unfolding and_then
  IsMove-and_then s e src dst (ok a, t) f kept next =
      subst (λ (t : Store S). IsMove s e src dst (f a t)) (sym kept.same) (next a kept.host)
  IsMove-and_then s e src dst (fail error, t) f kept next = stays kept.host refl kept.same
  IsMove-and_then s e src dst (panic, t) f kept next = stays kept.host refl kept.same

  pub check_move-eq-ok :
      (s : Store S) (e src dst : ℕ)
      → check_move s e src dst ≡ ok tt
      → (has e (s.owned src) ≡ true) × (clashes s.endpoint e (s.owned dst) ≡ ok tt)
  unfolding check_move
  check_move-eq-ok s e src dst h = elim (Bool-cases (has e (s.owned src))) [
    | inl held ↦ (held, ground (arith, h, held))
    | inr away ↦ absurd (ground (arith, h, away))
  ]

  -- The moves of the host are tried once the checks are passed.
  checked :
      (s : Store S) (e src dst : ℕ) (f : Unit {0} → M S (Unit {0})) (o : Outcome (Unit {0}))
      → check_move s e src dst ≡ o
      → (check_move s e src dst ≡ ok tt → IsMove s e src dst (f tt s))
      → IsMove s e src dst (and_then (o, s) f)
  unfolding and_then
  checked s e src dst f (ok tt) h next = next h
  checked s e src dst f (fail error) h next = stays s.host refl refl
  checked s e src dst f panic h next = stays s.host refl refl

  IsMove-transfer :
      (s : Store S) (e src dst : ℕ) (h : S)
      → src ≢ dst
      → check_move s e src dst ≡ ok tt
      → IsMove s e src dst (transfer_ownership e src dst (record s { host = h }))
  IsMove-transfer s e src dst h apart passed =
      let (held, free) = check_move-eq-ok s e src dst passed in
      let (left, gone) = remove_first-some e (s.owned src) held in
      let unnamed = clashes-eq-ok s.endpoint e (s.owned dst) free in
      moves h left gone unnamed
        (transfer_ownership_lem (record s { host = h }) e src dst left apart gone unnamed)

IsMove-move_between :
    (H : Host) (s : Store H.State) (e src dst : ℕ)
    → src ≢ dst
    → IsMove s e src dst (move_between H e src dst s)
unfolding move_between
IsMove-move_between H s e src dst apart = elim (Bool-cases (src == dst)) [
  | inl same ↦ absurd (apart (ground (arith, same)))
  | inr other ↦ rw other (
      checked s e src dst _ (check_move s e src dst) refl λ passed.
        IsMove-and_then s e src dst (ensure_ownership_alt_name H e s) _
          (Kept-ensure_ownership_alt_name H e s)
          λ _ h.
            IsMove-and_then s e src dst
              (move_link H src (s.endpoint e).iface_name dst (record s { host = h })) _
              (record {
                host =
                    (Kept-move_link H src (s.endpoint e).iface_name dst
                      (record s { host = h })).host;
                same =
                    (Kept-move_link H src (s.endpoint e).iface_name dst
                      (record s { host = h })).same;
              })
              λ _ k. IsMove-transfer s e src dst k apart passed)
]

-- A move of an endpoint between two nodes is all or nothing: if it returns no error, the endpoint
-- is at the other node and last in its list, and otherwise only the host may have changed.
pub move_endpoint-IsMove :
    (H : Host) (s : Store H.State) (e src dst : ℕ)
    → (s.endpoint e).node ≡ some src
    → src ≢ dst
    → IsMove s e src dst (move_endpoint H e (some dst) s)
unfolding move_endpoint
move_endpoint-IsMove H s e src dst owner apart =
    rw (owner, move_endpoint) (IsMove-move_between H s e src dst apart)
