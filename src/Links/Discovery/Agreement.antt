-- ===== src/Links/Discovery/Agreement.antt =====
-- Discovery, capture and restoration keep the agreement of the objects on who owns an endpoint.
use containerlab.Links.Store.{Endpoint, Host, Store, update, M, pure, and_then, ◌>>=◌}
use containerlab.Links.Ownership.{
  has, remove_first, tracks, set_node, adopt_endpoint, release_endpoint,
}
use containerlab.Links.Ownership.HostOnly.{Kept, Kept-here, Kept-and_then, Kept-exec_function}
use containerlab.Links.Ownership.Invariant.{Apart-same, Owned, has-remove_first}
use containerlab.Links.Ownership.Moving.{Owned-moved, release_endpoint-held}
use containerlab.Links.Ownership.Adopting.{
  Unowned, Owned-released, Unowned-released, Owned-set_node, Owned-append, tracks-eq-ok-false,
}
use containerlab.Links.Parking.{
  list_owned_interface_names, new_runtime_endpoint, adopt_runtime_endpoint, new_parking_node,
  discover_candidates, capture_candidates, capture_from,
}
use containerlab.Links.Parking.Stable.{
  Stable, After, After-here, After-and_then, After-Kept, After-if, After-choice, After-capture,
  After-restore,
}
use containerlab.Links.Discovery.{
  drop_missing, known, take_over, claim, reconcile, discover_owned_endpoints, restore_to,
}
use containerlab.Base.{
  ℕ, suc, ◌<◌, String, ◌≡◌, refl, inl, inr, Bool, true, false, Option, none, some, List, [], ◌∷◌,
  ◌++◌, arith, eq_refl, ◌==◌, Bool-cases, Outcome, ok, fail, panic,
}
use containerlab.Base.Lists.{elem}

module _ {S : Type 0} where
  pub Owned-Stable : Stable {S = S} Owned
  Owned-Stable = record {
    hosted = λ s h i. record { owner = i.owner; apart = i.apart; allocated = i.allocated };
    moving = λ s e src dst left apart gone free i. Owned-moved s e src dst left i apart gone free;
  }

  adopts :
      (s : Store S) (n e : ℕ) (o : Outcome Bool)
      → Owned s
      → (s.endpoint e).node ≡ some n
      → e < s.next_endpoint
      → tracks s.endpoint e (s.owned n) ≡ o
      → After Owned (adopt_endpoint n e s)
  unfolding adopt_endpoint
  adopts s n e (ok true) i owner old found =
      rw (owner, adopt_endpoint, eq_refl (s.node n).short_name, found) (After-here _ s i)
  adopts s n e (ok false) i owner old found =
      rw (owner, adopt_endpoint, eq_refl (s.node n).short_name, found)
        (record {
          holds = Owned-append s e n i owner old (tracks-eq-ok-false s e (s.owned n) found);
        })
  adopts s n e (fail error) i owner old found =
      rw (owner, adopt_endpoint, eq_refl (s.node n).short_name, found) (After-here _ s i)
  adopts s n e panic i owner old found =
      rw (owner, adopt_endpoint, eq_refl (s.node n).short_name, found) (After-here _ s i)

  -- SetNode and AdoptEndpoint, for an endpoint that no node has.
  pub After-adopted :
      (s : Store S) (n e : ℕ)
      → Owned s
      → Unowned s e
      → e < s.next_endpoint
      → After Owned (and_then (set_node e n s) λ _. adopt_endpoint n e)
  unfolding set_node update and_then
  After-adopted s n e i free old =
      adopts (set_node e n s).1 n e _ (Owned-set_node s e n i free) (ground arith) old refl

  -- ReleaseEndpoint, followed by a call that may rely on the endpoint having no node.
  pub After-release :
      {A : Type 0} (s : Store S) (n e : ℕ) (f : Unit {0} → M S A)
      → Owned s
      → ((t : Store S) → Owned t → Unowned t e → e < t.next_endpoint → After Owned (f tt t))
      → After Owned (and_then (release_endpoint n e s) f)
  unfolding release_endpoint and_then
  After-release s n e f i next = found (remove_first e (s.owned n)) refl
    where
      found :
          (o : Option (List ℕ))
          → remove_first e (s.owned n) ≡ o
          → After Owned (and_then (release_endpoint n e s) f)
      found none gone = rw (gone, release_endpoint) (After-here _ s i)
      found (some left) gone = rw (release_endpoint-held s n e left gone) (
          next (record s { owned = update n left s.owned }) (Owned-released s n e left i gone)
            (Unowned-released s n e left i gone)
            (i.allocated n e (ground (arith, has-remove_first e e (s.owned n) left gone))))

  -- An endpoint that is there is not the one that is allocated next.
  older :
      (s : Store S) (m x : ℕ) → Owned s → has x (s.owned m) ≡ true → (x == s.next_endpoint) ≡ false
  older s m x i h = let old = i.allocated m x h in ground (arith, old)

  pub Owned-allocated :
      (s : Store S) (fresh : Endpoint)
      → Owned s
      → Owned (record s {
        endpoint = update s.next_endpoint fresh s.endpoint;
        next_endpoint = suc s.next_endpoint;
      })
  unfolding update
  Owned-allocated s fresh i = record {
    owner = λ m x h. rw (older s m x i h) (i.owner m x h);
    apart = λ m.
        Apart-same s.endpoint (update s.next_endpoint fresh s.endpoint) (s.owned m)
          (λ k held. rw (older s m k i held) refl) (i.apart m);
    allocated = λ m x h. let old = i.allocated m x h in omega (arith, old);
  }

  pub After-new_runtime_endpoint :
      (s : Store S) (n : ℕ) (iface_name : String)
      → Owned s
      → After Owned (adopt_runtime_endpoint n iface_name s)
  unfolding adopt_runtime_endpoint new_runtime_endpoint update and_then
  After-new_runtime_endpoint s n iface_name i =
      After-and_then
        (adopts (new_runtime_endpoint n iface_name s).1 n s.next_endpoint _ (Owned-allocated s _ i)
          (ground arith) (omega arith) refl)
        λ _ t j. After-here _ t j

  After-take_over : (s : Store S) (p e : ℕ) → Owned s → After Owned (take_over p e s)
  unfolding take_over
  After-take_over s p e i = owned_by (s.endpoint e).node refl
    where
      owned_by : (o : Option ℕ) → (s.endpoint e).node ≡ o → After Owned (take_over p e s)
      owned_by none owner = rw (owner, take_over) (After-here _ s i)
      owned_by (some n) owner =
          rw (owner, take_over)
            (After-if (n == p) (After-here _ s i) (
              After-if (s.node n).is_endpoint_owner
                (After-release s n e _ i λ t j free old. After-adopted t p e j free old)
                (After-here _ s i)))

  After-drop_missing :
      (p original : ℕ) (discovered : List String) (es : List ℕ) (s : Store S)
      → Owned s
      → After Owned (drop_missing p original discovered es s)
  unfolding drop_missing
  After-drop_missing p original discovered [] s i = After-here _ s i
  After-drop_missing p original discovered (e ∷ es) s i =
      After-if (elem (s.endpoint e).iface_name discovered)
        (After-drop_missing p original discovered es s i)
        (After-release s p e _ i λ t j free old.
          After-and_then
            (After-choice (s.endpoint e).is_runtime_discovered _ _ (After-here _ t j)
              (After-adopted t original e j free old))
            λ _ u k. After-drop_missing p original discovered es u k)

  After-claim :
      (p : ℕ) (endpoints : List ℕ) (iface_names : List String) (s : Store S)
      → Owned s
      → After Owned (claim p endpoints iface_names s)
  unfolding claim
  After-claim p endpoints [] s i = After-here _ s i
  After-claim p endpoints (iface_name ∷ iface_names) s i =
      After-and_then (one (known s.endpoint iface_name endpoints))
        λ _ t j. After-claim p endpoints iface_names t j
    where
      one :
          (o : Option ℕ)
          → After Owned (
              (elim o as (λ _. M S (Unit {0})) [
                | some e ↦ take_over p e
                | none ↦ do _ ← adopt_runtime_endpoint p iface_name; pure tt
              ])
                s)
      one none =
          After-and_then (After-new_runtime_endpoint s p iface_name i) λ _ t j. After-here _ t j
      one (some e) = After-take_over s p e i

  pub After-reconcile :
      (p original : ℕ) (iface_names : List String) (s : Store S)
      → Owned s
      → After Owned (reconcile p original iface_names s)
  unfolding reconcile
  After-reconcile p original iface_names s i =
      After-and_then (After-drop_missing p original iface_names (s.owned p) s i)
        λ _ t j. After-claim p (t.owned original ++ t.owned p) iface_names t j

  After-discover_candidates :
      (n : ℕ) (iface_names : List String) (seen : List String) (es : List ℕ) (s : Store S)
      → Owned s
      → After Owned (discover_candidates n iface_names seen es s)
  unfolding discover_candidates
  After-discover_candidates n [] seen es s i = After-here _ s i
  After-discover_candidates n (iface_name ∷ iface_names) seen es s i =
      After-choice (elem iface_name seen) _ _ (After-discover_candidates n iface_names seen es s i)
        (After-and_then (After-new_runtime_endpoint s n iface_name i)
          λ e t j. After-discover_candidates n iface_names (iface_name ∷ seen) (es ++ (e ∷ [])) t j)

  pub After-new_parking_node :
      (short_name container_name ns_path : String) (s : Store S)
      → Owned s
      → After Owned (new_parking_node short_name container_name ns_path s)
  unfolding new_parking_node update
  After-new_parking_node short_name container_name ns_path s i = record {
    holds = record {
      owner = λ m x h. i.owner m x (ground (arith, h));
      apart = λ m. elim (Bool-cases (m == s.next_node)) [
        | inl same ↦ rw same tt
        | inr other ↦ rw other (i.apart m)
      ];
      allocated = λ m x h. i.allocated m x (ground (arith, h));
    };
  }

module _ (H : Host) where
  pub Kept-list_owned_interface_names :
      (n : ℕ) (names : List String) (s : Store H.State)
      → Kept s (list_owned_interface_names H n names s)
  unfolding list_owned_interface_names
  Kept-list_owned_interface_names n names s =
      Kept-and_then
        (Kept-exec_function H n _ s λ nspath t. Kept-and_then (Kept-here _ t) λ _ u. Kept-here _ u)
        λ _ t. Kept-here _ t

  pub After-capture_from :
      (p src : ℕ) (s : Store H.State) → Owned s → After Owned (capture_from H p src s)
  unfolding capture_from capture_candidates
  After-capture_from p src s i =
      After-and_then
        (After-and_then (After-here _ s i) λ _ t j.
          After-and_then (After-Kept Owned-Stable (Kept-list_owned_interface_names src [] t) j)
            λ names u k. After-discover_candidates src names _ (s.owned src) u k)
        λ es t j. After-capture H Owned Owned-Stable p src [] es t j

  pub After-discover_owned_endpoints :
      (p dst : ℕ) (s : Store H.State) → Owned s → After Owned (discover_owned_endpoints H p dst s)
  unfolding discover_owned_endpoints
  After-discover_owned_endpoints p dst s i =
      After-and_then (After-Kept Owned-Stable (Kept-list_owned_interface_names p _ s) i)
        λ names t j. After-reconcile p dst names t j

  pub After-restore_to :
      (p dst : ℕ) (s : Store H.State) → Owned s → After Owned (restore_to H p dst s)
  unfolding restore_to
  After-restore_to p dst s i =
      After-and_then (After-discover_owned_endpoints p dst s i)
        λ _ t j. After-restore H Owned Owned-Stable p dst [] (t.owned p) t j
