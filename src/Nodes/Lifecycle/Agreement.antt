-- ===== src/Nodes/Lifecycle/Agreement.antt =====
-- Stopping and starting a node keeps the agreement of the objects on who owns an endpoint, whatever
-- the host and the runtime answer, and whichever of their calls fail.
use containerlab.Links.Store.{
  Host, and_then, ContainerStatus, not_found, running, stopped, paused, created, restarting,
  removing, container_has_joinable_netns, Store, returning,
}
use containerlab.Nodes.Lifecycle.{
  default_run_exec, should_skip_lifecycle, stop_container, stop_by_status, start_by_status, stop,
  start, parking_netns_name, netns_path, get_named_net_ns, existing_named_net_ns,
  create_named_net_ns, create_or_get_named_net_ns, link_container_ns, cleanup_parking_net_ns,
  link_container_net_ns_symlink, parking_node_of, park_endpoints, restore_endpoints,
  lifecycle_start_containers, lifecycle_stop_containers, run_exec, run_commands,
  run_exec_from_config, start_restoring, start_started, parsed_command,
}
use containerlab.Links.Ownership.HostOnly.{Kept-returning}
use containerlab.Links.Ownership.Invariant.{Owned}
use containerlab.Links.Parking.Stable.{
  After-caught, After, After-here, After-and_then, After-handled, After-ignored, After-recovered,
  After-Kept, After-if, After-choice,
}
use containerlab.Links.Discovery.Agreement.{
  Owned-Stable, After-new_parking_node, After-capture_from, After-restore_to,
}
use containerlab.Base.{
  ℕ, String, Bool, Option, none, some, List, [], ◌∷◌, Error, Outcome, ok, fail, panic,
}

module _ (H : Host) where
  -- A call of the host.
  After-calls :
      {A : Type 0} (r : Outcome A × H.State) (s : Store H.State)
      → Owned s
      → After Owned (returning r s)
  After-calls r s i = After-Kept Owned-Stable (Kept-returning s r) i

  After-get_named_net_ns :
      (name : String) (s : Store H.State) → Owned s → After Owned (get_named_net_ns H name s)
  unfolding get_named_net_ns
  After-get_named_net_ns name s i =
      After-if (H.file_or_dir_exists (netns_path name) s.host) (After-here _ s i) (After-here _ s i)

  After-existing_named_net_ns :
      (name : String) (e : Error) (s : Store H.State)
      → Owned s
      → After Owned (existing_named_net_ns H name e s)
  unfolding existing_named_net_ns
  After-existing_named_net_ns name e s i =
      elim e as (λ e. After Owned (existing_named_net_ns H name e s)) [
        | Error.already_exists ↦
            After-if (H.file_or_dir_exists (netns_path name) s.host) (After-here _ s i)
              (After-here _ s i)
        | _ ↦ After-here _ s i
      ]

  After-create_or_get_named_net_ns :
      (name : String) (s : Store H.State)
      → Owned s
      → After Owned (create_or_get_named_net_ns H name s)
  unfolding create_or_get_named_net_ns create_named_net_ns
  After-create_or_get_named_net_ns name s i =
      After-handled (After-get_named_net_ns name s i) λ _ t j.
        After-and_then (After-here _ t j) λ _ u k.
          After-handled (After-and_then (After-calls _ u k) λ _ v l. After-here _ v l)
            λ e v l. After-existing_named_net_ns name e v l

  After-link_container_ns :
      (nspath container_name : String) (s : Store H.State)
      → Owned s
      → After Owned (link_container_ns H nspath container_name s)
  unfolding link_container_ns
  After-link_container_ns nspath container_name s i =
      After-and_then (After-calls _ s i)
        λ _ t j. After-and_then (After-calls _ t j) λ _ u k. After-calls _ u k

  After-cleanup_parking_net_ns :
      (n : ℕ) (s : Store H.State) → Owned s → After Owned (cleanup_parking_net_ns H n s)
  unfolding cleanup_parking_net_ns
  After-cleanup_parking_net_ns n s i =
      After-if
        (H.file_or_dir_exists (netns_path (parking_netns_name H (s.node n).long_name)) s.host)
        (After-calls _ s i) (After-here _ s i)

  After-link_container_net_ns_symlink :
      (n : ℕ) (s : Store H.State) → Owned s → After Owned (link_container_net_ns_symlink H n s)
  unfolding link_container_net_ns_symlink
  After-link_container_net_ns_symlink n s i =
      After-and_then (After-here _ s i) λ nspath t j. After-link_container_ns nspath _ t j

  After-park_endpoints : (n : ℕ) (s : Store H.State) → Owned s → After Owned (park_endpoints H n s)
  unfolding park_endpoints parking_node_of
  After-park_endpoints n s i =
      After-and_then (After-create_or_get_named_net_ns _ s i) λ park_path t j.
        After-and_then (After-new_parking_node _ _ park_path t j) λ p u k.
          After-and_then
            (After-recovered (After-capture_from H p n u k)
              λ v l. After-cleanup_parking_net_ns n v l)
            λ _ v l. After-recovered (After-link_container_ns park_path _ v l) λ w m.
              After-and_then (After-ignored (After-restore_to H p n w m))
                λ _ x o. After-ignored (After-cleanup_parking_net_ns n x o)

  After-restore_endpoints :
      (n : ℕ) (s : Store H.State) → Owned s → After Owned (restore_endpoints H n s)
  unfolding restore_endpoints parking_node_of
  After-restore_endpoints n s i = After-and_then (After-get_named_net_ns _ s i) λ park_path t j.
      After-and_then (After-new_parking_node _ _ park_path t j) λ p u k.
        After-and_then (After-restore_to H p n u k) λ _ v l. After-cleanup_parking_net_ns n v l

  After-lifecycle_start_containers :
      (n : ℕ) (s : Store H.State) → Owned s → After Owned (lifecycle_start_containers H n s)
  unfolding lifecycle_start_containers
  After-lifecycle_start_containers n s i =
      After-if
        (container_has_joinable_netns (H.get_container_status (s.node n).container_name s.host))
        (After-here _ s i) (After-and_then (After-calls _ s i) λ _ t j. After-here _ t j)

  After-lifecycle_stop_containers :
      (n : ℕ) (s : Store H.State) → Owned s → After Owned (lifecycle_stop_containers H n s)
  unfolding lifecycle_stop_containers
  After-lifecycle_stop_containers n s i =
      After-if
        (container_has_joinable_netns (H.get_container_status (s.node n).container_name s.host))
        (After-handled (After-calls _ s i) λ _ t j.
          After-if
            (container_has_joinable_netns (H.get_container_status (s.node n).container_name t.host))
            (After-here _ t j) (After-here _ t j))
        (After-here _ s i)

  After-default_run_exec :
      (n : ℕ) (cmd : Option (List String)) (s : Store H.State)
      → Owned s
      → After Owned (default_run_exec H n cmd s)
  unfolding default_run_exec
  After-default_run_exec n none s i = After-here _ s i
  After-default_run_exec n (some cmd) s i = After-calls _ s i

  After-run_exec :
      (n : ℕ) (cmd : Option (List String)) (s : Store H.State)
      → Owned s
      → After Owned (run_exec H n cmd s)
  unfolding run_exec
  After-run_exec n cmd s i =
      After-if (s.node n).refuses_exec (After-here _ s i) (After-default_run_exec n cmd s i)

  After-run_commands :
      (n : ℕ) (es : List String) (s : Store H.State) → Owned s → After Owned (run_commands H n es s)
  unfolding run_commands
  After-run_commands n [] s i = After-here _ s i
  After-run_commands n (e ∷ es) s i =
      After-and_then (After-ignored (After-run_exec n (parsed_command H e) s i))
        λ _ t j. After-run_commands n es t j

  After-start_started :
      (n : ℕ) (park_path : Outcome String) (b : Bool) (s : Store H.State)
      → Owned s
      → After Owned (start_started H n park_path b s)
  unfolding start_started start_restoring run_exec_from_config
  After-start_started n (ok park_path) b s i =
      After-and_then
        (After-and_then
          (After-recovered (After-restore_endpoints n s i) λ t j.
            After-and_then
              (After-ignored
                (After-choice b _ _ (After-lifecycle_stop_containers n t j) (After-here _ t j)))
              λ _ u k. After-ignored (After-link_container_ns park_path _ u k))
          λ _ t j. After-link_container_net_ns_symlink n t j)
        λ _ t j. After-run_commands n _ t j
  After-start_started n (fail e) b s i =
      After-choice b _ _ (After-run_commands n _ s i) (After-here _ s i)
  After-start_started n panic b s i =
      After-choice b _ _ (After-run_commands n _ s i) (After-here _ s i)

  After-stop_container : (n : ℕ) (s : Store H.State) → Owned s → After Owned (stop_container H n s)
  unfolding stop_container
  After-stop_container n s i = After-and_then (After-calls _ s i) λ _ t j.
      After-and_then (After-park_endpoints n t j) λ _ u k.
        After-recovered (After-lifecycle_stop_containers n u k) λ v l.
          After-and_then (After-ignored (After-restore_endpoints n v l))
            λ _ w m. After-ignored (After-link_container_net_ns_symlink n w m)

  After-stop_by_status :
      (n : ℕ) (status : ContainerStatus) (s : Store H.State)
      → Owned s
      → After Owned (stop_by_status H n status s)
  unfolding stop_by_status
  After-stop_by_status n stopped s i = After-here _ s i
  After-stop_by_status n created s i = After-here _ s i
  After-stop_by_status n not_found s i = After-here _ s i
  After-stop_by_status n running s i = After-stop_container n s i
  After-stop_by_status n paused s i = After-stop_container n s i
  After-stop_by_status n restarting s i = After-stop_container n s i
  After-stop_by_status n removing s i = After-stop_container n s i

  started :
      (n : ℕ) (park_path : Outcome String) (s : Store H.State)
      → Owned s
      → After Owned (and_then (lifecycle_start_containers H n s) λ b. start_started H n park_path b)
  started n park_path s i =
      After-and_then (After-lifecycle_start_containers n s i)
        λ b t j. After-start_started n park_path b t j

  After-start_by_status :
      (n : ℕ) (park_path : Outcome String) (status : ContainerStatus) (s : Store H.State)
      → Owned s
      → After Owned (start_by_status H n park_path status s)
  unfolding start_by_status
  After-start_by_status n path not_found s i = After-here _ s i
  After-start_by_status n path running s i = started n path s i
  After-start_by_status n path stopped s i = started n path s i
  After-start_by_status n path paused s i = started n path s i
  After-start_by_status n path created s i = started n path s i
  After-start_by_status n path restarting s i = started n path s i
  After-start_by_status n path removing s i = started n path s i

  -- Stop keeps the agreement of the objects on who owns an endpoint, whatever the host and the
  -- runtime answer: after it, an endpoint in the list of a node names that node as its own, and no
  -- node has two endpoints with one interface name.
  pub stop-Owned : (n : ℕ) (s : Store H.State) → Owned s → Owned (stop H n s).1
  unfolding stop
  stop-Owned n s i =
      (After-if (should_skip_lifecycle (s.node n)) (After-here (ok tt) s i) (
        After-stop_by_status n (H.get_container_status (s.node n).container_name s.host) s i)).holds

  -- Start keeps the agreement of the objects on who owns an endpoint, whatever the host and the
  -- runtime answer.
  pub start-Owned : (n : ℕ) (s : Store H.State) → Owned s → Owned (start H n s).1
  unfolding start
  start-Owned n s i =
      (After-if (should_skip_lifecycle (s.node n)) (After-here (ok tt) s i) (
        After-and_then (After-caught (After-get_named_net_ns _ s i))
          λ path t j. After-start_by_status n path _ t j)).holds
