-- ===== src/Types/Topology/Texts.antt =====
-- The getters of types/topology.go: those of text fields.
use containerlab.Types.Topology.{Topology, get_field, is_set_text}
use containerlab.Base.{String, Outcome}

-- GetNodeShmSize
unfoldable pub get_node_shm_size : Topology → String → Outcome String
unfolding get_field
get_node_shm_size t node_name =
    get_field t node_name (λ node. node.shm_size) (λ group. group.shm_size) (λ kind. kind.shm_size)
      (λ defaults. defaults.shm_size) is_set_text

-- GetNodeStartupConfig
unfoldable pub get_node_startup_config : Topology → String → Outcome String
unfolding get_field
get_node_startup_config t node_name =
    get_field t node_name (λ node. node.startup_config) (λ group. group.startup_config)
      (λ kind. kind.startup_config) (λ defaults. defaults.startup_config) is_set_text

-- GetRestartPolicy
unfoldable pub get_restart_policy : Topology → String → Outcome String
unfolding get_field
get_restart_policy t node_name =
    get_field t node_name (λ node. node.restart_policy) (λ group. group.restart_policy)
      (λ kind. kind.restart_policy) (λ defaults. defaults.restart_policy) is_set_text

-- GetNodeLicense
unfoldable pub get_node_license : Topology → String → Outcome String
unfolding get_field
get_node_license t node_name =
    get_field t node_name (λ node. node.license) (λ group. group.license) (λ kind. kind.license)
      (λ defaults. defaults.license) is_set_text

-- GetNodeImage
unfoldable pub get_node_image : Topology → String → Outcome String
unfolding get_field
get_node_image t node_name =
    get_field t node_name (λ node. node.image) (λ group. group.image) (λ kind. kind.image)
      (λ defaults. defaults.image) is_set_text

-- GetNodePosition
unfoldable pub get_node_position : Topology → String → Outcome String
unfolding get_field
get_node_position t node_name =
    get_field t node_name (λ node. node.position) (λ group. group.position) (λ kind. kind.position)
      (λ defaults. defaults.position) is_set_text

-- GetNodeEntrypoint
unfoldable pub get_node_entrypoint : Topology → String → Outcome String
unfolding get_field
get_node_entrypoint t node_name =
    get_field t node_name (λ node. node.entrypoint) (λ group. group.entrypoint)
      (λ kind. kind.entrypoint) (λ defaults. defaults.entrypoint) is_set_text

-- GetNodeCmd
unfoldable pub get_node_cmd : Topology → String → Outcome String
unfolding get_field
get_node_cmd t node_name =
    get_field t node_name (λ node. node.cmd) (λ group. group.cmd) (λ kind. kind.cmd)
      (λ defaults. defaults.cmd) is_set_text

-- GetNodeUser
unfoldable pub get_node_user : Topology → String → Outcome String
unfolding get_field
get_node_user t node_name =
    get_field t node_name (λ node. node.user) (λ group. group.user) (λ kind. kind.user)
      (λ defaults. defaults.user) is_set_text

-- GetNodeNetworkMode
unfoldable pub get_node_network_mode : Topology → String → Outcome String
unfolding get_field
get_node_network_mode t node_name =
    get_field t node_name (λ node. node.network_mode) (λ group. group.network_mode)
      (λ kind. kind.network_mode) (λ defaults. defaults.network_mode) is_set_text

-- GetNodeRuntime
unfoldable pub get_node_runtime : Topology → String → Outcome String
unfolding get_field
get_node_runtime t node_name =
    get_field t node_name (λ node. node.runtime) (λ group. group.runtime) (λ kind. kind.runtime)
      (λ defaults. defaults.runtime) is_set_text

-- GetNodeCPUSet
unfoldable pub get_node_cpu_set : Topology → String → Outcome String
unfolding get_field
get_node_cpu_set t node_name =
    get_field t node_name (λ node. node.cpu_set) (λ group. group.cpu_set) (λ kind. kind.cpu_set)
      (λ defaults. defaults.cpu_set) is_set_text

-- GetNodeMemory
unfoldable pub get_node_memory : Topology → String → Outcome String
unfolding get_field
get_node_memory t node_name =
    get_field t node_name (λ node. node.memory) (λ group. group.memory) (λ kind. kind.memory)
      (λ defaults. defaults.memory) is_set_text
