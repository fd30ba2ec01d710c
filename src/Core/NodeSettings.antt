-- ===== src/Core/NodeSettings.antt =====
-- core/config.go, core/clab.go and core/deploy.go: names, labels and credentials of a node, the
-- entries for /etc/hosts, the management network, and the snapshots that nodes are restored from.
pub mod Laws
pub mod Samples
use Prim.Native.String.{◌++◌ as ◌++s◌}
use containerlab.Types.Text.{split_n2}
use containerlab.Types.Bind.{colon_join}
use containerlab.Base.{
  ℕ, zero, suc, ◌+◌, ◌-◌, ◌*◌, ◌/◌, ◌%◌, ◌^◌, ◌≤◌, ◌<◌, String, ◌≡◌, refl, sym, ap, ◌∙◌, subst, ◌≢◌,
  ◌↔◌, ◌⊎◌, inl, inr, Bool, true, false, not, ◌&&◌, ◌||◌, Option, none, some, List, [], ◌∷◌, ◌++◌,
  map, arith, str_eq, eq_iff, eq_refl, ltb, leb, ◌==◌, if◌then◌else◌, Bool-cases, is_some, is_empty,
  Error, Outcome, ok, fail, panic, ◌>>=◌, deref, >>=-eq-ok, deref-eq-ok, is_ok, eq-ok_of_is_ok,
}
use containerlab.Base.Lists.{length, length-append, elem, Distinct, elem-append, slice}
use containerlab.Base.GoMap.{
  GoMap, lookup, insert, keys, lookup-insert, elem-keys-insert, lookup-eq-none,
}

-- fmt.Sprintf("%s-%s", a, b)
abbrev pub dash_join : String → String → String
dash_join a b = ◌++s◌ a (◌++s◌ "-" b)

-- The longName of createNodeCfg.
unfoldable pub long_name : String → String → String → String
long_name prefix lab_name node_name =
    if str_eq prefix ""
    then node_name
    else if str_eq prefix "__lab-name"
    then dash_join lab_name node_name
    else dash_join prefix (dash_join lab_name node_name)

pub record Credentials : Type 0 where
  pub username : String
  pub password : String

-- The credentials of createNodeCfg: those of the topology, with those that the registry holds for
-- the kind, if it knows the kind, in place of missing ones.
unfoldable pub node_credentials : Credentials → Option Credentials → Credentials
node_credentials topology none = topology
node_credentials topology (some creds) = record {
  username = if str_eq topology.username "" then creds.username else topology.username;
  password = if str_eq topology.password "" then creds.password else topology.password;
}

-- What addDefaultLabels reads of a lab and a node.
pub record LabelSource : Type 0 where
  pub lab_name : String
  pub topology_file : String
  pub custom_owner : String
  pub sudo_user : String
  pub user : String
  pub git_branch : String
  pub git_hash : String
  pub short_name : String
  pub node_long_name : String
  pub kind : String
  pub node_type : String
  pub group : String
  pub lab_dir : String

unfoldable pub owner : LabelSource → String
owner c =
    if str_eq c.custom_owner ""
    then if str_eq c.sudo_user "" then c.user else c.sudo_user
    else c.custom_owner

unfoldable pub git_labels : LabelSource → GoMap String → GoMap String
git_labels c labels =
    if str_eq c.git_branch "none"
    then labels
    else if str_eq c.git_hash "none"
    then insert "clab-git-branch" c.git_branch labels
    else insert "clab-git-hash" c.git_hash (insert "clab-git-branch" c.git_branch labels)

abbrev pub or_empty : Option (GoMap String) → GoMap String
or_empty none = []
or_empty (some labels) = labels

-- addDefaultLabels: nil labels are an empty map.
unfoldable pub add_default_labels : LabelSource → Option (GoMap String) → GoMap String
unfolding owner git_labels
add_default_labels c labels = git_labels c (
    insert "clab-owner" (owner c) (
      insert "clab-topo-file" c.topology_file (
        insert "clab-node-lab-dir" c.lab_dir (
          insert "clab-node-group" c.group (
            insert "clab-node-type" c.node_type (
              insert "clab-node-kind" c.kind (
                insert "clab-node-longname" c.node_long_name (
                  insert "clab-node-name" c.short_name
                    (insert "containerlab" c.lab_name (or_empty labels))))))))))

-- A node's name and static addresses, as the entries for /etc/hosts read them.
pub record HostNode : Type 0 where
  pub short_name : String
  pub mgmt_ipv4_address : String
  pub mgmt_ipv6_address : String

abbrev pub host_entry : String → String → List String
host_entry short_name address = if str_eq address "" then [] else colon_join short_name address ∷ []

-- The loop over the nodes in Deploy that fills extraHosts.
unfoldable pub extra_hosts : GoMap HostNode → List String
extra_hosts [] = []
extra_hosts ((name, n) ∷ nodes) =
    host_entry n.short_name n.mgmt_ipv4_address
    ++ host_entry n.short_name n.mgmt_ipv6_address
    ++ extra_hosts nodes

-- The part of the management network that initMgmtNetwork sets.
pub record MgmtNet : Type 0 where
  pub network : String
  pub ipv4_subnet : String
  pub ipv6_subnet : String
  pub external_access : Option Bool

unfoldable pub init_mgmt_network : MgmtNet → MgmtNet
init_mgmt_network mgmt =
    let no_subnet = str_eq mgmt.ipv4_subnet "" && str_eq mgmt.ipv6_subnet "" in
    record {
      network = if str_eq mgmt.network "" then "clab" else mgmt.network;
      ipv4_subnet = if no_subnet then "172.20.20.0/24" else mgmt.ipv4_subnet;
      ipv6_subnet = if no_subnet then "3fff:172:20:20::/64" else mgmt.ipv6_subnet;
      external_access = elim mgmt.external_access [ none ↦ some true | some b ↦ some b ];
    }

-- The loop of configureSnapshotRestore over the specifications node=path.
unfoldable pub restore_loop : GoMap String → List String → Outcome (GoMap String)
unfolding split_n2
restore_loop restore_map [] = ok restore_map
restore_loop restore_map (mapping ∷ mappings) =
    let (node, path) = split_n2 b'=' mapping in
    deref_path path >>= λ p. restore_loop (insert node p restore_map) mappings
  where
    deref_path : Option String → Outcome String
    deref_path none = fail Error.invalid_restore
    deref_path (some p) = ok p

-- resolveNodeSnapshot. Whether a file is there is for the file system to say, and filepath.Join
-- makes the path of the file in the directory.
unfoldable pub resolve_node_snapshot :
    (exists : String → Bool) (join : String → String → String) (node_name : String)
    → GoMap String
    → String
    → Option String
resolve_node_snapshot exists join node_name restore_map restore_all =
    elim (lookup node_name restore_map) [
      | some snapshot_path ↦ some snapshot_path
      | none ↦
          let snapshot_path = join restore_all (◌++s◌ node_name ".tar") in
          if str_eq restore_all ""
          then none
          else if exists snapshot_path
          then some snapshot_path
          else none
    ]
