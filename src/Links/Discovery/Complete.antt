-- ===== src/Links/Discovery/Complete.antt =====
-- CaptureFrom and RestoreTo, if they return no error, leave no endpoint behind.
use containerlab.Links.Parking.{
  capture, restore, list_owned_interface_names, capture_from, capture_candidates, check_candidates,
  new_runtime_endpoint, adopt_runtime_endpoint, discover_candidates,
}
use containerlab.Links.Parking.Emptied.{capture-eq-ok, restore-eq-ok, and_then-eq-ok, append_nil}
use containerlab.Links.Discovery.Agreement.{
  Kept-list_owned_interface_names, After-discover_owned_endpoints, After-new_runtime_endpoint,
}
use containerlab.Links.Store.{Host, M, Endpoint, Store, update, pure, and_then}
use containerlab.Base.{
  ℕ, String, ◌≡◌, refl, sym, ap, ◌∙◌, subst, ◌≢◌, inl, inr, Bool, true, false, some, List, [], ◌∷◌,
  ◌++◌, arith, eq_refl, if◌then◌else◌, Bool-cases, Outcome, ok, fail, panic, is_ok,
}
use containerlab.Base.Lists.{elem}
use mathlib.Core.List.{append_assoc}
use containerlab.Links.Ownership.{has, tracks, adopt_endpoint, append_endpoint}
use containerlab.Links.Ownership.Invariant.{Owned}
use containerlab.Links.Discovery.{restore_to, discover_owned_endpoints}

tracks-ok-true :
    (endpoint : ℕ → Endpoint) (e : ℕ) (es : List ℕ)
    → tracks endpoint e es ≡ ok true
    → has e es ≡ true
unfolding tracks
tracks-ok-true endpoint e [] h = absurd (ground (arith, h))
tracks-ok-true endpoint e (o ∷ es) h = ground (arith, h, tracks-ok-true endpoint e es)

list_inj : (es os : List ℕ) → Outcome.ok es ≡ ok os → es ≡ os
list_inj es os h = cc

pub ok_inj : (a b : ℕ) → Outcome.ok a ≡ ok b → a ≡ b
ok_inj a b h = cc

module _ {S : Type 0} where
  pub after_ok :
      {A : Type 0} (r : Outcome A × Store S) {a : A} {u : Store S}
      → r ≡ (ok a, u)
      → (r.0 ≡ ok a) × (r.1 ≡ u)
  after_ok r h = (ap (λ (q : Outcome _ × Store S). q.0) h, ap (λ (q : Outcome _ × Store S). q.1) h)

  -- AdoptEndpoint, if it returns no error, has appended an endpoint that the node did not have.
  adopt_endpoint-eq-ok :
      (s : Store S) (n e : ℕ) (found : Outcome Bool)
      → (s.endpoint e).node ≡ some n
      → has e (s.owned n) ≡ false
      → tracks s.endpoint e (s.owned n) ≡ found
      → (u : Store S) → adopt_endpoint n e s ≡ (ok tt, u)
      → u.owned n ≡ s.owned n ++ (e ∷ [])
  unfolding adopt_endpoint append_endpoint update
  adopt_endpoint-eq-ok s n e (ok true) owner new looked =
      absurd (ground (arith, new, tracks-ok-true s.endpoint e (s.owned n) looked))
  adopt_endpoint-eq-ok s n e (ok false) owner new looked =
      rw (owner, adopt_endpoint, eq_refl (s.node n).short_name, looked)
        λ u h.
          let (_, same) = after_ok _ h in
          subst (λ (t : Store S). t.owned n ≡ s.owned n ++ (e ∷ [])) same (ground arith)
  adopt_endpoint-eq-ok s n e (fail error) owner new looked =
      rw (owner, adopt_endpoint, eq_refl (s.node n).short_name, looked)
        λ u h. let (failed, _) = after_ok _ h in absurd (ground (arith, ap is_ok failed))
  adopt_endpoint-eq-ok s n e panic owner new looked =
      rw (owner, adopt_endpoint, eq_refl (s.node n).short_name, looked)
        λ u h. let (failed, _) = after_ok _ h in absurd (ground (arith, ap is_ok failed))

  choice_true :
      {A : Type 0} (b : Bool) (m n : M S A) (s : Store S) {r : Outcome A × Store S}
      → b ≡ true
      → (if b then m else n) s ≡ r
      → m s ≡ r
  choice_true true m n s t h = h
  choice_true false m n s t h = cc

  choice_false :
      {A : Type 0} (b : Bool) (m n : M S A) (s : Store S) {r : Outcome A × Store S}
      → b ≡ false
      → (if b then m else n) s ≡ r
      → n s ≡ r
  choice_false true m n s t h = cc
  choice_false false m n s t h = h

  newest : (s : Store S) (n : ℕ) → Owned s → has s.next_endpoint (s.owned n) ≡ false
  newest s n i = elim (Bool-cases (has s.next_endpoint (s.owned n))) [
    | inl held ↦ let old = i.allocated n s.next_endpoint held in absurd (omega (arith, old))
    | inr free ↦ free
  ]

  adopt_runtime_endpoint-eq-ok :
      (s : Store S) (n : ℕ) (iface_name : String) (e : ℕ) (u : Store S)
      → Owned s
      → adopt_runtime_endpoint n iface_name s ≡ (ok e, u)
      → Owned u × (u.owned n ≡ s.owned n ++ (e ∷ []))
  unfolding adopt_runtime_endpoint new_runtime_endpoint update and_then
  adopt_runtime_endpoint-eq-ok s n iface_name e u i h =
      let (_, t, adopted, returned) =
        and_then-eq-ok (adopt_endpoint n s.next_endpoint (new_runtime_endpoint n iface_name s).1)
          (λ _. pure s.next_endpoint) h in
      let (value, same) = after_ok (ok s.next_endpoint, t) returned in
      let it : s.next_endpoint ≡ e = ok_inj s.next_endpoint e value in
      let longer =
        adopt_endpoint-eq-ok (new_runtime_endpoint n iface_name s).1 n s.next_endpoint _
          (ground arith) (newest s n i) refl t adopted in
      (
        subst Owned (ap (λ (r : Outcome ℕ × Store S). r.1) h)
            (After-new_runtime_endpoint s n iface_name i).holds,
        rw (← same, ← it) longer,
      )

  -- The candidates are the endpoints of the node, those that were discovered just now included.
  discover_candidates-eq-ok :
      (n : ℕ) (iface_names seen : List String) (es os : List ℕ) (s u : Store S)
      → Owned s
      → s.owned n ≡ es
      → discover_candidates n iface_names seen es s ≡ (ok os, u)
      → Owned u × (u.owned n ≡ os) × (new : List ℕ) × (os ≡ es ++ new)
  unfolding discover_candidates
  discover_candidates-eq-ok n [] seen es os s u i shape h =
      let (value, same) = after_ok (pure es s) h in
      let it : es ≡ os = list_inj es os value in
      (subst Owned same i, rw (← same, ← it) shape, [], sym it ∙ sym (append_nil es))
  discover_candidates-eq-ok n (iface_name ∷ iface_names) seen es os s u i shape h =
      elim (Bool-cases (elem iface_name seen)) [
        | inl old ↦ discover_candidates-eq-ok n iface_names seen es os s u i shape (
            choice_true (elem iface_name seen) (discover_candidates n iface_names seen es) _ s old
              h)
        | inr fresh ↦
            let (e, t, adopted, rest) =
              and_then-eq-ok (adopt_runtime_endpoint n iface_name s)
                (λ e. discover_candidates n iface_names (iface_name ∷ seen) (es ++ (e ∷ [])))
                (choice_false (elem iface_name seen) (discover_candidates n iface_names seen es) _ s
                  fresh h) in
            let (j, longer) = adopt_runtime_endpoint-eq-ok s n iface_name e t i adopted in
            let (k, all, new, parts) =
              discover_candidates-eq-ok n iface_names (iface_name ∷ seen) (es ++ (e ∷ [])) os t u j
                (longer ∙ ap (λ l. l ++ (e ∷ [])) shape) rest in
            (k, all, e ∷ new, parts ∙ append_assoc es (e ∷ []) new)
      ]

module _ (H : Host) where
  -- CaptureFrom, if it returns no error, has moved all endpoints of the node to the parking node:
  -- the node has none left, and those it had follow each other in the list of the parking node, in
  -- their order.
  pub capture_from-eq-ok :
      (p src : ℕ) (s u : Store H.State)
      → Owned s
      → src ≢ p
      → capture_from H p src s ≡ (ok tt, u)
      → (u.owned src ≡ [])
        × (before : List ℕ) × (new : List ℕ) × (u.owned p ≡ before ++ (s.owned src ++ new))
  unfolding capture_from capture_candidates
  capture_from-eq-ok p src s u i apart h =
      let (es, t, found, captured) =
        and_then-eq-ok (capture_candidates H src s) (λ es. capture H p src [] es) h in
      let (_, v, checked, rest) =
        and_then-eq-ok (check_candidates s.endpoint (s.owned src), s) _ found in
      let (names, w, listed, discovered) =
        and_then-eq-ok (list_owned_interface_names H src [] v) _ rest in
      let (_, same) = after_ok (check_candidates s.endpoint (s.owned src), s) checked in
      let kept = Kept-list_owned_interface_names H src [] v in
      let (_, hosted) = after_ok (list_owned_interface_names H src [] v) listed in
      let here : w ≡ record s { host = kept.host } =
        sym hosted
        ∙ kept.same
        ∙ ap (λ (x : Store H.State). record x { host = kept.host }) (sym same) in
      let (j, shape, new, parts) =
        discover_candidates-eq-ok src names _ (s.owned src) es w t
          (rw here (record { owner = i.owner; apart = i.apart; allocated = i.allocated }))
          (ap (λ (x : Store H.State). x.owned src) here) discovered in
      let (empty, all) = capture-eq-ok H p src [] es t u j apart shape captured in
      (empty, t.owned p, new, all ∙ ap (λ l. t.owned p ++ l) parts)

  -- RestoreTo, if it returns no error, has moved all endpoints of the parking node to the other
  -- node, behind those that the node had after the discovery.
  pub restore_to-eq-ok :
      (p dst : ℕ) (s u : Store H.State)
      → Owned s
      → p ≢ dst
      → restore_to H p dst s ≡ (ok tt, u)
      → (u.owned p ≡ [])
        × (t : Store H.State) × (discover_owned_endpoints H p dst s ≡ (ok tt, t))
        × (u.owned dst ≡ t.owned dst ++ t.owned p)
  unfolding restore_to
  restore_to-eq-ok p dst s u i apart h =
      let (_, t, found, restored) =
        and_then-eq-ok (discover_owned_endpoints H p dst s)
          (λ _ s. restore H p dst [] (s.owned p) s) h in
      let j : Owned t =
        subst Owned (ap (λ (r : Outcome (Unit {0}) × Store H.State). r.1) found)
          (After-discover_owned_endpoints H p dst s i).holds in
      let (empty, all) = restore-eq-ok H p dst [] (t.owned p) t u j apart refl restored in
      (empty, t, found, all)
