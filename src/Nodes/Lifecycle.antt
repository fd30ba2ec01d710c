-- ===== src/Nodes/Lifecycle.antt =====
-- nodes/default_node.go and utils/netlink.go: a container is stopped and started again, and its
-- interfaces wait in a named namespace in between.
pub mod Agreement
pub mod Parked
pub mod Commands
use containerlab.Links.Store.{
  ContainerStatus, handling, ignoring, recovering, LinkNode, not_found, stopped, created,
  container_has_joinable_netns, Host, M, pure, raise, ◌>>=◌, ◌>>◌, attempt, asks, calls,
}
use Prim.Native.String.{◌++◌ as ◌++s◌, slice as text_slice, len}
use containerlab.Links.Parking.{new_parking_node, capture_from}
use containerlab.Links.Discovery.{restore_to}
use containerlab.Base.{
  ℕ, zero, suc, ◌+◌, ◌-◌, ◌*◌, ◌/◌, ◌%◌, ◌^◌, ◌≤◌, ◌<◌, String, ◌≡◌, refl, sym, ap, ◌∙◌, subst, ◌≢◌,
  ◌↔◌, ◌⊎◌, inl, inr, Bool, true, false, not, ◌&&◌, ◌||◌, Option, none, some, List, [], ◌∷◌, ◌++◌,
  map, arith, str_eq, eq_iff, eq_refl, ltb, leb, ◌==◌, if◌then◌else◌, Bool-cases, is_some, is_empty,
  Error, Outcome, ok, fail, panic, deref, deref-eq-ok, is_ok, eq-ok_of_is_ok,
}
use containerlab.Base.Lists.{length, length-append, elem, Distinct, elem-append, slice}
use containerlab.Base.GoMap.{
  GoMap, lookup, insert, keys, lookup-insert, elem-keys-insert, lookup-eq-none,
}

abbrev parking_netns_prefix : String
parking_netns_prefix = "clab-park-"

abbrev max_parking_netns_name_len : ℕ
max_parking_netns_name_len = 200

-- ParkingNetnsName. The names of containers are ASCII texts, so a slice ends between characters.
unfoldable pub parking_netns_name : (H : Host) → String → String
parking_netns_name H container_name =
    if leb (len (parking_netns_prefix ++s container_name)) max_parking_netns_name_len
    then parking_netns_prefix ++s container_name
    else if ltb (max_parking_netns_name_len - 1 - len suffix) 1
    then suffix
    else (text_slice (parking_netns_prefix ++s container_name) 0
          (max_parking_netns_name_len - 1 - len suffix)
        ++s "-")
      ++s suffix
  where
    suffix : String
    suffix = text_slice (H.hex_sha1 container_name) 0 10

-- filepath.Join("/run/netns", name), for a name without slashes.
unfoldable pub netns_path : String → String
netns_path name = "/run/netns/" ++s name

-- GetNamedNetNS
unfoldable pub get_named_net_ns : (H : Host) → String → M H.State String
get_named_net_ns H name s =
    if H.file_or_dir_exists (netns_path name) s.host
    then pure (netns_path name) s
    else raise Error.named_netns_missing s

-- CreateNamedNetNS, where netns.NewNamed fails.
unfoldable pub existing_named_net_ns : (H : Host) → String → Error → M H.State String
existing_named_net_ns H name Error.already_exists s =
    if H.file_or_dir_exists (netns_path name) s.host
    then pure (netns_path name) s
    else raise Error.already_exists s
existing_named_net_ns H name error s = raise error s

-- CreateNamedNetNS
unfoldable pub create_named_net_ns : (H : Host) → String → M H.State String
create_named_net_ns H name = do
  asks H.netns_get
  handling (calls (H.netns_new_named name) >> pure (netns_path name)) (existing_named_net_ns H name)

-- CreateOrGetNamedNetNS
unfoldable pub create_or_get_named_net_ns : (H : Host) → String → M H.State String
create_or_get_named_net_ns H name =
    handling (get_named_net_ns H name) λ _. create_named_net_ns H name

-- LinkContainerNS
unfoldable pub link_container_ns : (H : Host) → String → String → M H.State (Unit {0})
link_container_ns H nspath container_name = do
  calls λ host. (ok tt, H.mkdir_all "/run/netns/" host)
  calls λ host. (
    ok tt,
    if H.lstat (netns_path container_name) host
        then H.remove (netns_path container_name) host
        else host,
  )
  calls (H.symlink nspath (netns_path container_name))

-- cleanupParkingNetNS. GetNamedNetNS fails where the namespace is not there.
unfoldable pub cleanup_parking_net_ns : (H : Host) → ℕ → M H.State (Unit {0})
cleanup_parking_net_ns H n s =
    if H.file_or_dir_exists (netns_path (parking_netns_name H (s.node n).long_name)) s.host
    then calls (H.netns_delete_named (parking_netns_name H (s.node n).long_name)) s
    else pure tt s

-- linkContainerNetNSSymlink
unfoldable pub link_container_net_ns_symlink : (H : Host) → ℕ → M H.State (Unit {0})
link_container_net_ns_symlink H n s =
    (do
      nspath ← asks (H.get_ns_path (s.node n).container_name)
      link_container_ns H nspath (s.node n).long_name)
      s

-- NewParkingNode for a node of the lab.
unfoldable pub parking_node_of : (H : Host) → ℕ → String → M H.State ℕ
parking_node_of H n park_path s =
    new_parking_node (parking_netns_name H (s.node n).long_name) (s.node n).long_name park_path s

-- ParkEndpoints
unfoldable pub park_endpoints : (H : Host) → ℕ → M H.State (Unit {0})
park_endpoints H n s =
    (do
      park_path ← create_or_get_named_net_ns H (parking_netns_name H (s.node n).long_name)
      parking_node ← parking_node_of H n park_path
      recovering (capture_from H parking_node n) (cleanup_parking_net_ns H n)
      recovering (link_container_ns H park_path (s.node n).long_name)
          (do ignoring (restore_to H parking_node n); ignoring (cleanup_parking_net_ns H n)))
      s

-- RestoreEndpoints
unfoldable pub restore_endpoints : (H : Host) → ℕ → M H.State (Unit {0})
restore_endpoints H n s =
    (do
      park_path ← get_named_net_ns H (parking_netns_name H (s.node n).long_name)
      parking_node ← parking_node_of H n park_path
      restore_to H parking_node n
      cleanup_parking_net_ns H n)
      s

-- LifecycleStartContainers
unfoldable pub lifecycle_start_containers : (H : Host) → ℕ → M H.State Bool
lifecycle_start_containers H n s =
    if container_has_joinable_netns (H.get_container_status (s.node n).container_name s.host)
    then pure false s
    else (do calls (H.start_container (s.node n).container_name); pure true) s

-- LifecycleStopContainers
unfoldable pub lifecycle_stop_containers : (H : Host) → ℕ → M H.State (Unit {0})
lifecycle_stop_containers H n s =
    if container_has_joinable_netns (H.get_container_status (s.node n).container_name s.host)
    then handling (calls (H.stop_container (s.node n).container_name))
        (λ error t.
          if container_has_joinable_netns (H.get_container_status (s.node n).container_name t.host)
          then raise error t
          else pure tt t)
        s
    else pure tt s

-- RunExec of the default node. The methods of a command that is nil panic: the runtime reads the
-- command, and where the runtime fails RunExec logs it.
unfoldable pub default_run_exec : (H : Host) → ℕ → Option (List String) → M H.State (Unit {0})
default_run_exec H n none s = (panic, s)
default_run_exec H n (some cmd) s = calls (H.exec (s.node n).container_name cmd) s

-- d.OverwriteNode.RunExec: bridge, ovs-bridge and k8s-kind return an error and never look at the
-- command.
unfoldable pub run_exec : (H : Host) → ℕ → Option (List String) → M H.State (Unit {0})
unfolding default_run_exec
run_exec H n cmd s =
    if (s.node n).refuses_exec then raise Error.exec_not_supported s else default_run_exec H n cmd s

-- NewExecCmdFromString, as RunExecFromConfig uses its result: a command that cannot be split is
-- logged, and is nil from there on.
unfoldable pub parsed_command : (H : Host) → String → Option (List String)
parsed_command H e = elim (H.shlex_split e) [ ok cmd ↦ some cmd | _ ↦ none ]

-- The loop of RunExecFromConfig.
unfoldable pub run_commands : (H : Host) → ℕ → List String → M H.State (Unit {0})
run_commands H n [] = pure tt
run_commands H n (e ∷ es) = do ignoring (run_exec H n (parsed_command H e)); run_commands H n es

-- RunExecFromConfig
unfoldable pub run_exec_from_config : (H : Host) → ℕ → M H.State (Unit {0})
run_exec_from_config H n s = run_commands H n (s.node n).exec s

-- ShouldSkipLifecycle
unfoldable pub should_skip_lifecycle : LinkNode → Bool
should_skip_lifecycle node = node.is_root_namespace_based || node.auto_remove

-- The part of Stop behind its guards.
unfoldable pub stop_container : (H : Host) → ℕ → M H.State (Unit {0})
stop_container H n s =
    (do
      calls (H.pre_stop (s.node n).container_name)
      park_endpoints H n
      recovering (lifecycle_stop_containers H n)
          (do ignoring (restore_endpoints H n); ignoring (link_container_net_ns_symlink H n)))
      s

-- The switch of Stop over the status of the container.
unfoldable pub stop_by_status : (H : Host) → ℕ → ContainerStatus → M H.State (Unit {0})
stop_by_status H n stopped = pure tt
stop_by_status H n created = pure tt
stop_by_status H n not_found = raise Error.container_not_found
stop_by_status H n _ = stop_container H n

-- Stop
unfoldable pub stop : (H : Host) → ℕ → M H.State (Unit {0})
stop H n s =
    if should_skip_lifecycle (s.node n)
    then pure tt s
    else stop_by_status H n (H.get_container_status (s.node n).container_name s.host) s

-- The part of Start that restores the endpoints, where there is a parking namespace.
unfoldable pub start_restoring : (H : Host) → ℕ → String → Bool → M H.State (Unit {0})
start_restoring H n park_path started_containers s =
    (do
      recovering (restore_endpoints H n) (do
        ignoring (if started_containers then lifecycle_stop_containers H n else pure tt)
        ignoring (link_container_ns H park_path (s.node n).long_name))
      link_container_net_ns_symlink H n)
      s

-- The part of Start behind the guard that the node is not running already.
unfoldable pub start_started : (H : Host) → ℕ → Outcome String → Bool → M H.State (Unit {0})
start_started H n (ok park_path) started_containers = do
  start_restoring H n park_path started_containers
  run_exec_from_config H n
start_started H n _ started_containers =
    if started_containers then run_exec_from_config H n else pure tt

-- Start, from its test of the status of the container on.
unfoldable pub start_by_status :
    (H : Host) → ℕ → Outcome String → ContainerStatus → M H.State (Unit {0})
start_by_status H n park_path not_found = raise Error.container_not_found
start_by_status H n park_path _ = do
  started_containers ← lifecycle_start_containers H n
  start_started H n park_path started_containers

-- Start
unfoldable pub start : (H : Host) → ℕ → M H.State (Unit {0})
start H n s =
    if should_skip_lifecycle (s.node n)
    then pure tt s
    else (do
      park_path ← attempt (get_named_net_ns H (parking_netns_name H (s.node n).long_name))
      λ t.
          start_by_status H n park_path (H.get_container_status (s.node n).container_name t.host) t)
        s
