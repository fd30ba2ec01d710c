-- ===== src/Types/Topology/Getters.antt =====
-- The getters of types/topology.go: each names its field on every level, and the test for "set".
use containerlab.Types.Number.{Float64, float_ne_zero}
use containerlab.Types.NodeDefinition.{
  Extras, DnsConfig, new_dns_config, HealthcheckConfig, Component, PullPolicyValue,
  parse_pull_policy_value,
}
use containerlab.Types.Topology.{
  Topology, get_field, get_field_ptr, merge_string_slice_fields, merge_string_map_fields,
  is_set_text,
}
use containerlab.Base.{
  ℕ, String, Bool, false, not, Option, none, some, List, ◌==◌, is_some, is_empty, Outcome, ok,
  ◌>>=◌,
}
use containerlab.Base.Lists.{slice}
use containerlab.Base.GoMap.{GoMap}

-- GetNodeStartupDelay
unfoldable pub get_node_startup_delay : Topology → String → Outcome ℕ
unfolding get_field
get_node_startup_delay t node_name =
    get_field t node_name (λ node. node.startup_delay) (λ group. group.startup_delay)
      (λ kind. kind.startup_delay) (λ defaults. defaults.startup_delay) (λ v. not (v == 0))

-- GetNodeCPU
unfoldable pub get_node_cpu : Topology → String → Outcome Float64
unfolding get_field
get_node_cpu t node_name =
    get_field t node_name (λ node. node.cpu) (λ group. group.cpu) (λ kind. kind.cpu)
      (λ defaults. defaults.cpu) float_ne_zero

-- GetComponents
unfoldable pub get_components : Topology → String → Outcome (Option (List Component))
unfolding get_field
get_components t node_name =
    get_field t node_name (λ node. node.components) (λ group. group.components)
      (λ kind. kind.components) (λ defaults. defaults.components) is_some

-- GetNodeExtras
unfoldable pub get_node_extras : Topology → String → Outcome (Option Extras)
unfolding get_field
get_node_extras t node_name =
    get_field t node_name (λ node. node.extras) (λ group. group.extras) (λ kind. kind.extras)
      (λ defaults. defaults.extras) is_some

-- GetHealthCheckConfig
unfoldable pub get_health_check_config : Topology → String → Outcome (Option HealthcheckConfig)
unfolding get_field
get_health_check_config t node_name =
    get_field t node_name (λ node. node.health_check) (λ group. group.health_check)
      (λ kind. kind.health_check) (λ defaults. defaults.health_check) is_some

abbrev or_new_dns : Option DnsConfig → Option DnsConfig
or_new_dns none = some new_dns_config
or_new_dns (some dns) = some dns

-- GetNodeDns: the defaults always give a configuration.
unfoldable pub get_node_dns : Topology → String → Outcome (Option DnsConfig)
unfolding get_field or_new_dns
get_node_dns t node_name =
    get_field t node_name (λ node. node.dns) (λ group. group.dns) (λ kind. kind.dns)
      (λ defaults. or_new_dns defaults.dns) is_some

-- GetNodeImagePullPolicy
unfoldable pub get_node_image_pull_policy : Topology → String → Outcome PullPolicyValue
unfolding get_field parse_pull_policy_value
get_node_image_pull_policy t node_name = do
  v ←
      (get_field t node_name (λ node. node.image_pull_policy) (λ group. group.image_pull_policy)
        (λ kind. kind.image_pull_policy) (λ defaults. defaults.image_pull_policy) is_set_text)
  ok (parse_pull_policy_value v)

-- GetNodePorts. `parse_port_specs` is nat.ParsePortSpecs of the docker library: the set of ports and
-- the port map, or an error. `no_ports` is the pair of nil maps.
unfoldable pub get_node_ports {ℓ} :
    {P : Type ℓ} → (List String → Outcome P) → P → Topology → String → Outcome P
unfolding get_field
get_node_ports parse_port_specs no_ports t node_name = do
  ports ←
      (get_field t node_name (λ node. node.ports) (λ group. group.ports) (λ kind. kind.ports)
        (λ defaults. defaults.ports) (λ v. not (is_empty (slice v))))
  elim ports [ none ↦ ok no_ports | some specs ↦ parse_port_specs specs ]

-- GetNodeEnforceStartupConfig
unfoldable pub get_node_enforce_startup_config : Topology → String → Outcome Bool
unfolding get_field_ptr
get_node_enforce_startup_config t node_name =
    get_field_ptr t node_name (λ node. node.enforce_startup_config)
      (λ group. group.enforce_startup_config) (λ kind. kind.enforce_startup_config)
      (λ defaults. defaults.enforce_startup_config) is_some false

-- GetNodeSuppressStartupConfig
unfoldable pub get_node_suppress_startup_config : Topology → String → Outcome Bool
unfolding get_field_ptr
get_node_suppress_startup_config t node_name =
    get_field_ptr t node_name (λ node. node.suppress_startup_config)
      (λ group. group.suppress_startup_config) (λ kind. kind.suppress_startup_config)
      (λ defaults. defaults.suppress_startup_config) is_some false

-- GetNodeAutoRemove
unfoldable pub get_node_auto_remove : Topology → String → Outcome Bool
unfolding get_field_ptr
get_node_auto_remove t node_name =
    get_field_ptr t node_name (λ node. node.auto_remove) (λ group. group.auto_remove)
      (λ kind. kind.auto_remove) (λ defaults. defaults.auto_remove) is_some false

-- GetNodeEnvFiles
unfoldable pub get_node_env_files : Topology → String → Outcome (Option (List String))
unfolding merge_string_slice_fields
get_node_env_files t node_name =
    merge_string_slice_fields t node_name (λ node. node.env_files) (λ group. group.env_files)
      (λ kind. kind.env_files) (λ defaults. defaults.env_files)

-- GetNodeDevices
unfoldable pub get_node_devices : Topology → String → Outcome (Option (List String))
unfolding merge_string_slice_fields
get_node_devices t node_name =
    merge_string_slice_fields t node_name (λ node. node.devices) (λ group. group.devices)
      (λ kind. kind.devices) (λ defaults. defaults.devices)

-- GetNodeCapAdd
unfoldable pub get_node_cap_add : Topology → String → Outcome (Option (List String))
unfolding merge_string_slice_fields
get_node_cap_add t node_name =
    merge_string_slice_fields t node_name (λ node. node.cap_add) (λ group. group.cap_add)
      (λ kind. kind.cap_add) (λ defaults. defaults.cap_add)

-- GetNodeExec
unfoldable pub get_node_exec : Topology → String → Outcome (Option (List String))
unfolding merge_string_slice_fields
get_node_exec t node_name =
    merge_string_slice_fields t node_name (λ node. node.exec) (λ group. group.exec)
      (λ kind. kind.exec) (λ defaults. defaults.exec)

-- GetNodeEnv
unfoldable pub get_node_env : Topology → String → Outcome (GoMap String)
unfolding merge_string_map_fields
get_node_env t node_name =
    merge_string_map_fields t node_name (λ node. node.env) (λ group. group.env) (λ kind. kind.env)
      (λ defaults. defaults.env)

-- GetNodeLabels
unfoldable pub get_node_labels : Topology → String → Outcome (GoMap String)
unfolding merge_string_map_fields
get_node_labels t node_name =
    merge_string_map_fields t node_name (λ node. node.labels) (λ group. group.labels)
      (λ kind. kind.labels) (λ defaults. defaults.labels)

-- GetSysCtl
unfoldable pub get_sys_ctl : Topology → String → Outcome (GoMap String)
unfolding merge_string_map_fields
get_sys_ctl t node_name =
    merge_string_map_fields t node_name (λ node. node.sysctls) (λ group. group.sysctls)
      (λ kind. kind.sysctls) (λ defaults. defaults.sysctls)
