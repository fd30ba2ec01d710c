-- ===== src/Types/NodeDefinition.antt =====
-- types/node_definition.go and the types of its fields (types/types.go, types/component.go).
-- A string is "" where it is not set. A slice, a map or a pointer that may be nil is an Option.
use containerlab.Base.{
  ◌||◌, ◌&&◌, str_eq, false, ℕ, String, Bool, Option, none, some, List, [], ◌∷◌, if◌then◌else◌,
  is_some, is_empty,
}
use containerlab.Types.Number.{ℤ, Float64, is_positive}
use containerlab.Types.Stages.{Stages}
use containerlab.Types.Text.{split_n2, folds_to}
use containerlab.Base.Lists.{slice}
use containerlab.Base.GoMap.{GoMap, lookup, insert}

pub record NodeCredentials : Type 0 where
  pub username : String
  pub password : String

pub record K8sKindDeployExtras : Type 0 where
  pub kubeconfig_path : Option String
  pub wait : Option String

pub record K8sKindExtras : Type 0 where
  pub deploy : Option K8sKindDeployExtras

pub record Extras : Type 0 where
  pub srl_agents : Option (List String)
  pub mysocket_proxy : String
  pub ceos_copy_to_flash : Option (List String)
  pub k8s_kind : Option K8sKindExtras

pub record DnsConfig : Type 0 where
  pub servers : Option (List String)
  pub options : Option (List String)
  pub search : Option (List String)

abbrev pub new_dns_config : DnsConfig
new_dns_config = record { servers = none; options = none; search = none }

pub record CertificateConfig : Type 0 where
  pub issue : Option Bool
  pub key_size : ℤ
  pub validity_duration : ℤ
  pub sans : Option (List String)

-- CertificateConfig.Merge
unfoldable pub merge_certificate : CertificateConfig → Option CertificateConfig → CertificateConfig
merge_certificate c none = c
merge_certificate c (some x) = record {
  issue = if is_some x.issue then x.issue else c.issue;
  key_size = if is_positive x.key_size then x.key_size else c.key_size;
  validity_duration =
      if is_positive x.validity_duration then x.validity_duration else c.validity_duration;
  sans = if is_empty (slice x.sans) then c.sans else x.sans;
}

pub record HealthcheckConfig : Type 0 where
  pub test : Option (List String)
  pub interval : ℤ
  pub timeout : ℤ
  pub retries : ℤ
  pub start_period : ℤ

pub record Mda : Type 0 where
  pub slot : ℤ
  pub type : String

pub record Xiom : Type 0 where
  pub slot : ℤ
  pub type : String
  pub mda : List Mda

pub record Component : Type 0 where
  pub slot : String
  pub type : String
  pub env : Option (GoMap String)
  pub sfm : String
  pub xiom : List Xiom
  pub mda : List Mda

-- PullPolicyValue
pub data PullPolicyValue : Type 0 where
  always never if_not_present : PullPolicyValue

unfoldable pub parse_pull_policy_value : String → PullPolicyValue
parse_pull_policy_value s =
    if folds_to s "always"
    then always
    else if folds_to s "never"
    then never
    else if folds_to s "ifnotpresent"
    then if_not_present
    else if_not_present

-- The values of `vars` maps: `any`, told apart as far as the merging of maps does.
mutual
  pub data Value : Type 0 where
    scalar : String → Value
    dict : Vars → Value

  pub data Vars : Type 0 where
    end : Vars
    entry : String → Value → Vars → Vars

pub record ConfigDispatcher : Type 0 where
  pub vars : Option Vars

-- ConfigDispatcher.GetVars, on a receiver that may be nil.
abbrev pub get_vars : Option ConfigDispatcher → Option Vars
get_vars none = none
get_vars (some cd) = cd.vars

pub record NodeDefinition : Type 0 where
  pub kind : String
  pub group : String
  pub type : String
  pub startup_config : String
  pub startup_delay : ℕ
  pub enforce_startup_config : Option Bool
  pub suppress_startup_config : Option Bool
  pub auto_remove : Option Bool
  pub restart_policy : String
  pub config : Option ConfigDispatcher
  pub image : String
  pub image_pull_policy : String
  pub license : String
  pub position : String
  pub entrypoint : String
  pub cmd : String
  pub exec : Option (List String)
  pub binds : Option (List String)
  pub devices : Option (List String)
  pub cap_add : Option (List String)
  pub shm_size : String
  pub ports : Option (List String)
  pub mgmt_ipv4 : String
  pub mgmt_ipv6 : String
  pub env : Option (GoMap String)
  pub env_files : Option (List String)
  pub user : String
  pub labels : Option (GoMap String)
  pub network_mode : String
  pub runtime : String
  pub cpu : Float64
  pub cpu_set : String
  pub memory : String
  pub sysctls : Option (GoMap String)
  pub extras : Option Extras
  pub stages : Option Stages
  pub dns : Option DnsConfig
  pub certificate : Option CertificateConfig
  pub health_check : Option HealthcheckConfig
  pub credentials : NodeCredentials
  pub aliases : Option (List String)
  pub components : Option (List Component)

-- new(NodeDefinition): the zero value.
abbrev pub new_node_definition : NodeDefinition
new_node_definition = record {
  kind = "";
  group = "";
  type = "";
  startup_config = "";
  startup_delay = 0;
  enforce_startup_config = none;
  suppress_startup_config = none;
  auto_remove = none;
  restart_policy = "";
  config = none;
  image = "";
  image_pull_policy = "";
  license = "";
  position = "";
  entrypoint = "";
  cmd = "";
  exec = none;
  binds = none;
  devices = none;
  cap_add = none;
  shm_size = "";
  ports = none;
  mgmt_ipv4 = "";
  mgmt_ipv6 = "";
  env = none;
  env_files = none;
  user = "";
  labels = none;
  network_mode = "";
  runtime = "";
  cpu = 0;
  cpu_set = "";
  memory = "";
  sysctls = none;
  extras = none;
  stages = none;
  dns = none;
  certificate = none;
  health_check = none;
  credentials = record { username = ""; password = "" };
  aliases = none;
  components = none;
}

-- One round of the loop of ImportEnvs: a text without "=" and a variable that the map has already
-- are passed over.
import_one : String × Option String → GoMap String → GoMap String
import_one (k, none) env = env
import_one (k, some v) env = if is_some (lookup k env) then env else insert k v env

-- The loop of ImportEnvs over os.Environ().
unfoldable pub import_environ : List String → GoMap String → GoMap String
unfolding import_one
import_environ [] env = env
import_environ (e ∷ environ) env = import_environ environ (import_one (split_n2 b'=' e) env)

-- The search of ImportEnvs for the variable that asks for the import.
unfoldable pub wants_import : GoMap String → Bool
wants_import [] = false
wants_import ((k, v) ∷ env) = (str_eq k "__IMPORT_ENVS" && str_eq v "true") || wants_import env

-- NodeDefinition.ImportEnvs, on a receiver that may be nil.
unfoldable pub import_envs : List String → Option NodeDefinition → Option NodeDefinition
unfolding import_environ wants_import
import_envs environ none = none
import_envs environ (some n) = some (elim n.env [
  | none ↦ n
  | some env ↦ if wants_import env then record n { env = some (import_environ environ env) } else n
])
