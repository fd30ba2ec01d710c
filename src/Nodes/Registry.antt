-- ===== src/Nodes/Registry.antt =====
-- nodes/node_registry.go: the registry of the kinds of nodes. N stands for the nodes that the
-- initializers make.
pub mod Laws
use containerlab.Base.{
  ℕ, zero, suc, ◌+◌, ◌-◌, ◌*◌, ◌/◌, ◌%◌, ◌^◌, ◌≤◌, ◌<◌, String, ◌≡◌, refl, sym, ap, ◌∙◌, subst, ◌≢◌,
  ◌↔◌, ◌⊎◌, inl, inr, Bool, true, false, not, ◌&&◌, ◌||◌, Option, none, some, List, [], ◌∷◌, ◌++◌,
  map, arith, str_eq, eq_iff, eq_refl, ltb, leb, ◌==◌, if◌then◌else◌, Bool-cases, is_some, is_empty,
  Error, Outcome, ok, fail, panic, ◌>>=◌, deref, >>=-eq-ok, deref-eq-ok, is_ok, eq-ok_of_is_ok,
}
use containerlab.Base.Lists.{length, length-append, elem, Distinct, elem-append, slice}
use containerlab.Base.GoMap.{
  GoMap, lookup, insert, keys, lookup-insert, elem-keys-insert, lookup-eq-none,
}
use containerlab.Core.NodeSettings.{Credentials}

pub record GenerateNodeAttributes : Type 0 where
  pub generateable : Bool
  pub interface_format : String

pub record PlatformAttrs : Type 0 where
  pub scrapli_platform_name : String
  pub napalm_platform_name : String

pub record NodeRegistryEntryAttributes : Type 0 where
  pub credentials : Option Credentials
  pub generate_attributes : Option GenerateNodeAttributes
  pub platform_attrs : Option PlatformAttrs

-- NewGenerateNodeAttributes
unfoldable pub new_generate_node_attributes : Bool → String → GenerateNodeAttributes
new_generate_node_attributes generateable if_format = record {
  generateable = generateable;
  interface_format = if_format;
}

-- NewNodeRegistryEntryAttributes: without attributes for the generation, a kind is not generateable.
unfoldable pub new_node_registry_entry_attributes :
    Option Credentials
    → Option GenerateNodeAttributes
    → Option PlatformAttrs
    → NodeRegistryEntryAttributes
unfolding new_generate_node_attributes
new_node_registry_entry_attributes c none pa = record {
  credentials = c;
  generate_attributes = some (new_generate_node_attributes false "");
  platform_attrs = pa;
}
new_node_registry_entry_attributes c (some ga) pa = record {
  credentials = c;
  generate_attributes = some ga;
  platform_attrs = pa;
}

pub record NodeRegistryEntry (N : Type 0) : Type 0 where
  pub node_kind_names : List String
  pub init_function : N
  pub attributes : Option NodeRegistryEntryAttributes

-- The registry is its index.
abbrev pub NodeRegistry : Type 0 → Type 0
NodeRegistry N = GoMap (NodeRegistryEntry N)

module _ {N : Type 0} where
  -- The loop of addEntry. The names before one that is registered already stay registered.
  unfoldable pub add_names :
      NodeRegistry N → NodeRegistryEntry N → List String → Outcome (Unit {0}) × NodeRegistry N
  add_names r entry [] = (ok tt, r)
  add_names r entry (name ∷ names) = elim (lookup name r) [
    | some _ ↦ (fail Error.kind_already_registered, r)
    | none ↦ add_names (insert name entry r) entry names
  ]

  -- addEntry
  unfoldable pub add_entry :
      NodeRegistry N → NodeRegistryEntry N → Outcome (Unit {0}) × NodeRegistry N
  add_entry r entry = add_names r entry entry.node_kind_names

  -- Register
  unfoldable pub register :
      NodeRegistry N
      → List String
      → N
      → Option NodeRegistryEntryAttributes
      → Outcome (Unit {0}) × NodeRegistry N
  register r names initf attributes =
      add_entry r
        (record { node_kind_names = names; init_function = initf; attributes = attributes })

  -- NewNodeOfKind
  unfoldable pub new_node_of_kind : NodeRegistry N → String → Outcome N
  new_node_of_kind r node_kind_name = elim (lookup node_kind_name r) [
    | none ↦ fail Error.kind_not_supported
    | some node_kind_entry ↦ ok node_kind_entry.init_function
  ]

  -- GetCredentials of an entry.
  unfoldable pub get_credentials : NodeRegistryEntry N → Option Credentials
  get_credentials nre = elim nre.attributes [
    | none ↦ none
    | some attributes ↦ attributes.credentials
  ]
