-- ===== src/Nodes/Lifecycle/Parked.antt =====
-- A node that was stopped has parked its endpoints.
use containerlab.Links.Store.{
  update, ContainerStatus, not_found, running, stopped, paused, created, restarting, removing,
  handled, returning, container_has_joinable_netns, Host, Store,
}
use containerlab.Base.{
  ℕ, ◌<◌, String, ◌≡◌, sym, ap, ◌∙◌, subst, ◌≢◌, Bool, true, false, List, [], ◌++◌, arith,
  if◌then◌else◌, Error, Outcome, ok,
}
use containerlab.Nodes.Lifecycle.{
  stop_container, stop_by_status, stop, should_skip_lifecycle, lifecycle_stop_containers,
  park_endpoints, parking_node_of, netns_path, parking_netns_name, get_named_net_ns,
  existing_named_net_ns, create_named_net_ns, create_or_get_named_net_ns, link_container_ns,
}
use containerlab.Links.Ownership.HostOnly.{
  Kept, Kept-here, Kept-returning, Kept-and_then, Kept-handled, Kept-if,
}
use containerlab.Links.Ownership.Invariant.{Owned}
use containerlab.Links.Parking.{new_parking_node, capture_from}
use containerlab.Links.Parking.Emptied.{and_then-eq-ok, recovered-eq-ok}
use containerlab.Links.Discovery.Complete.{ok_inj, capture_from-eq-ok}
use containerlab.Links.Discovery.Agreement.{After-new_parking_node}

-- Is the container in a state in which Stop stops it?
abbrev pub stoppable : ContainerStatus → Bool
stoppable stopped = false
stoppable created = false
stoppable not_found = false
stoppable _ = true

-- The node has no endpoint left, and those that it had stand, in their order, in the list of the node
-- that was allocated next: its parking node.
abbrev pub AreParked : {S : Type 0} → ℕ → Store S → Store S → Type 0
AreParked n s u =
    (u.owned n ≡ [])
    × (before : List ℕ) × (new : List ℕ) × (u.owned s.next_node ≡ before ++ (s.owned n ++ new))

module _ (H : Host) where
  Kept-existing_named_net_ns :
      (name : String) (e : Error) (s : Store H.State) → Kept s (existing_named_net_ns H name e s)
  unfolding existing_named_net_ns
  Kept-existing_named_net_ns name e s = elim e as (λ e. Kept s (existing_named_net_ns H name e s)) [
    | Error.already_exists ↦
        Kept-if (H.file_or_dir_exists (netns_path name) s.host) (Kept-here _ s) (Kept-here _ s)
    | _ ↦ Kept-here _ s
  ]

  Kept-create_or_get_named_net_ns :
      (name : String) (s : Store H.State) → Kept s (create_or_get_named_net_ns H name s)
  unfolding create_or_get_named_net_ns create_named_net_ns get_named_net_ns
  Kept-create_or_get_named_net_ns name s =
      Kept-handled
        (Kept-if (H.file_or_dir_exists (netns_path name) s.host) (Kept-here _ s) (Kept-here _ s))
        λ _ t. Kept-and_then (Kept-here _ t) λ _ u.
          Kept-handled (Kept-and_then (Kept-returning u _) λ _ v. Kept-here _ v)
            λ e v. Kept-existing_named_net_ns name e v

  Kept-link_container_ns :
      (nspath container_name : String) (s : Store H.State)
      → Kept s (link_container_ns H nspath container_name s)
  unfolding link_container_ns
  Kept-link_container_ns nspath container_name s =
      Kept-and_then (Kept-returning s _)
        λ _ t. Kept-and_then (Kept-returning t _) λ _ u. Kept-returning u _

  Kept-lifecycle_stop_containers :
      (n : ℕ) (s : Store H.State) → Kept s (lifecycle_stop_containers H n s)
  unfolding lifecycle_stop_containers
  Kept-lifecycle_stop_containers n s =
      Kept-if
        (container_has_joinable_netns (H.get_container_status (s.node n).container_name s.host))
        (Kept-handled (Kept-returning s _) λ e t.
          Kept-if
            (container_has_joinable_netns (H.get_container_status (s.node n).container_name t.host))
            (Kept-here _ t) (Kept-here _ t))
        (Kept-here _ s)

  -- The store after a call that left the objects alone.
  hosted :
      {A : Type 0} {s u : Store H.State} {r : Outcome A × Store H.State} {a : A}
      → Kept s r
      → r ≡ (ok a, u)
      → (h : H.State) × (u ≡ record s { host = h })
  hosted {r = r} kept went =
      (kept.host, sym (ap (λ (q : Outcome _ × Store H.State). q.1) went) ∙ kept.same)

  -- The node that ParkEndpoints makes is not the one whose endpoints are parked.
  apart_new : (n next p : ℕ) → n < next → next ≡ p → n ≢ p
  apart_new n next p old new same = omega (arith, old, new, same)

  update_other : (n m : ℕ) (f : ℕ → List ℕ) → n < m → update m [] f n ≡ f n
  unfolding update
  update_other n m f below = ground (arith, below)

  parking_node_of-eq-ok :
      (n : ℕ) (park_path : String) (s u : Store H.State) (p : ℕ)
      → Owned s
      → n < s.next_node
      → parking_node_of H n park_path s ≡ (ok p, u)
      → (s.next_node ≡ p) × Owned u × (u.owned n ≡ s.owned n)
  unfolding parking_node_of new_parking_node
  parking_node_of-eq-ok n park_path s u p i old h = (
    ok_inj s.next_node p (ap (λ (q : Outcome ℕ × Store H.State). q.0) h),
    subst Owned (ap (λ (q : Outcome ℕ × Store H.State). q.1) h)
        (After-new_parking_node (parking_netns_name H (s.node n).long_name) (s.node n).long_name
          park_path s i).holds,
    sym (ap (λ (q : Outcome ℕ × Store H.State). q.1.owned n) h)
        ∙ update_other n s.next_node s.owned old,
  )

  park_endpoints-eq-ok :
      (n : ℕ) (s u : Store H.State)
      → Owned s
      → n < s.next_node
      → park_endpoints H n s ≡ (ok tt, u)
      → AreParked n s u
  unfolding park_endpoints
  park_endpoints-eq-ok n s u i old h =
      let (park_path, t, made, rest) = and_then-eq-ok (create_or_get_named_net_ns H _ s) _ h in
      let (p, v, parking, later) = and_then-eq-ok (parking_node_of H n park_path t) _ rest in
      let (_, w, captured, last) = and_then-eq-ok (handled (capture_from H p n v) _) _ later in
      let went = recovered-eq-ok (capture_from H p n v) _ captured in
      let linked = recovered-eq-ok (link_container_ns H park_path _ w) _ last in
      let (_, here) = hosted (Kept-create_or_get_named_net_ns _ s) made in
      let (_, there) = hosted (Kept-link_container_ns park_path _ w) linked in
      let j : Owned t =
        rw here (record { owner = i.owner; apart = i.apart; allocated = i.allocated }) in
      let next : s.next_node ≡ t.next_node = sym (ap (λ (x : Store H.State). x.next_node) here) in
      let (fresh, k, same_list) =
        parking_node_of-eq-ok n park_path t v p j (subst (λ k. n < k) next old) parking in
      let (empty, before, new, parked) =
        capture_from-eq-ok H p n v w k (apart_new n s.next_node p old (next ∙ fresh)) went in
      let list : v.owned n ≡ s.owned n = same_list ∙ ap (λ (x : Store H.State). x.owned n) here in
      rw there (
        empty,
        before,
        new,
        subst (λ k. w.owned k ≡ before ++ (s.owned n ++ new)) (sym (next ∙ fresh))
            (parked ∙ ap (λ l. before ++ (l ++ new)) list),
      )

  stop_container-eq-ok :
      (n : ℕ) (s u : Store H.State)
      → Owned s
      → n < s.next_node
      → stop_container H n s ≡ (ok tt, u)
      → AreParked n s u
  unfolding stop_container
  stop_container-eq-ok n s u i old h =
      let (_, t, hooked, rest) = and_then-eq-ok (returning (H.pre_stop _ s.host) s) _ h in
      let (_, v, parked, last) = and_then-eq-ok (park_endpoints H n t) _ rest in
      let went = recovered-eq-ok (lifecycle_stop_containers H n v) _ last in
      let (_, here) = hosted (Kept-returning s (H.pre_stop _ s.host)) hooked in
      let (_, there) = hosted (Kept-lifecycle_stop_containers n v) went in
      let all =
        park_endpoints-eq-ok n t v
          (rw here (record { owner = i.owner; apart = i.apart; allocated = i.allocated }))
          (rw here old) parked in
      rw there (subst (λ (x : Store H.State). AreParked n x v) here all)

  by_status :
      (n : ℕ) (status : ContainerStatus) (s u : Store H.State)
      → Owned s
      → n < s.next_node
      → stoppable status ≡ true
      → stop_by_status H n status s ≡ (ok tt, u)
      → AreParked n s u
  unfolding stop_by_status
  by_status n stopped s u i old active h = cc
  by_status n created s u i old active h = cc
  by_status n not_found s u i old active h = cc
  by_status n running s u i old active h = stop_container-eq-ok n s u i old h
  by_status n paused s u i old active h = stop_container-eq-ok n s u i old h
  by_status n restarting s u i old active h = stop_container-eq-ok n s u i old h
  by_status n removing s u i old active h = stop_container-eq-ok n s u i old h

  -- In a lab whose objects agree on who owns an endpoint: if Stop returns no error, for a node of the
  -- lab that takes part in the lifecycle and whose
  -- container is there and is neither stopped nor only created, the node has no endpoint left, and
  -- all endpoints that it had are parked: they stand, in their order, in the list of the parking
  -- node that was allocated.
  pub stop-eq-ok :
      (n : ℕ) (s u : Store H.State)
      → Owned s
      → n < s.next_node
      → should_skip_lifecycle (s.node n) ≡ false
      → stoppable (H.get_container_status (s.node n).container_name s.host) ≡ true
      → stop H n s ≡ (ok tt, u)
      → AreParked n s u
  unfolding stop
  stop-eq-ok n s u i old takes_part active h =
      by_status n (H.get_container_status (s.node n).container_name s.host) s u i old active (
        rw
          (← ap
            (λ b.
              if b
              then (Outcome.ok (tt {0}), s)
              else stop_by_status H n (H.get_container_status (s.node n).container_name s.host) s)
            takes_part)
          h)
