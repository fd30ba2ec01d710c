-- ===== src/Core/NodeSettings/Samples.antt =====
-- Settings of some nodes, and the theorems about them at these.
use Prim.Native.String.{◌++◌ as ◌++s◌}
use containerlab.Types.Text.{split_n2}
use containerlab.Core.NodeSettings.{
  LabelSource, or_empty, add_default_labels, init_mgmt_network, node_credentials, extra_hosts,
}
use containerlab.Core.NodeSettings.Laws.{
  long_name_injective, reserved, known_state, add_default_labels_lem, last_path,
}
use containerlab.Base.{
  String, ◌≡◌, refl, Bool, true, Option, none, some, List, [], ◌∷◌, ◌++◌, str_eq,
}
use containerlab.Base.GoMap.{GoMap, lookup, insert}

abbrev srl : String
srl = "srl"

long_name_injective_example : srl ≡ srl
long_name_injective_example = long_name_injective "clab" "lab" srl srl refl

abbrev source : LabelSource
source = record {
  lab_name = "lab";
  topology_file = "/labs/lab.clab.yml";
  custom_owner = "";
  sudo_user = "";
  user = "op";
  git_branch = "main";
  git_hash = "none";
  short_name = "srl";
  node_long_name = "clab-lab-srl";
  kind = "nokia_srlinux";
  node_type = "";
  group = "";
  lab_dir = "/labs/clab-lab/srl";
}

-- A user who sets a reserved label.
abbrev user_labels : Option (GoMap String)
user_labels = some (("clab-owner", "me") ∷ ("site", "a") ∷ [])

add_default_labels_lem_example :
    lookup "clab-owner" (add_default_labels source user_labels)
    ≡ lookup "clab-owner" (known_state source ++ (reserved source ++ or_empty user_labels))
add_default_labels_lem_example = add_default_labels_lem source user_labels "clab-owner"

owner_is_reserved : lookup "clab-owner" (add_default_labels source user_labels) ≡ some "op"
unfolding add_default_labels lookup insert
owner_is_reserved = refl

abbrev mappings : List String
mappings = "a=/tmp/a.tar" ∷ "b=/tmp/b.tar" ∷ "a=/tmp/c.tar" ∷ []

-- One file is there, and a path is joined with a slash.
abbrev exists : String → Bool
exists path = str_eq path "/snapshots/c.tar"

abbrev join : String → String → String
join dir file = ◌++s◌ dir (◌++s◌ "/" file)

last_wins : last_path "a" mappings ≡ some "/tmp/c.tar"
unfolding split_n2
last_wins = refl

-- A network with one subnet keeps it alone.
one_subnet :
    init_mgmt_network (record {
      network = "";
      ipv4_subnet = "";
      ipv6_subnet = "2001:db8::/64";
      external_access = none;
    })
    ≡ record {
      network = "clab";
      ipv4_subnet = "";
      ipv6_subnet = "2001:db8::/64";
      external_access = some true;
    }
unfolding init_mgmt_network
one_subnet = refl

missing_password :
    node_credentials
      (record { username = "me"; password = "" })
      (some (record { username = "admin"; password = "admin" }))
    ≡ record { username = "me"; password = "admin" }
unfolding node_credentials
missing_password = refl

both_addresses :
    extra_hosts (
      (
        "a",
        record {
          short_name = "a";
          mgmt_ipv4_address = "10.0.0.2";
          mgmt_ipv6_address = "2001:db8::2";
        },
      )
      ∷ [])
    ≡ "a:10.0.0.2" ∷ "a:2001:db8::2" ∷ []
unfolding extra_hosts
both_addresses = refl
