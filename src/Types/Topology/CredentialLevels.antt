-- ===== src/Types/Topology/CredentialLevels.antt =====
-- Credentials come from one level.
use native.Mathlib.Decide.{dec_le}
use containerlab.Types.NodeDefinition.{NodeDefinition, NodeCredentials}
use containerlab.Types.Topology.{
  Topology, get_defaults, get_group, get_kind, get_node_group, get_node_kind,
}
use containerlab.Types.Topology.Credentials.{
  CredentialTopologySource, unset, from_defaults, from_kind, from_group, from_node,
  ResolvedCredentials, credentials_present, credentials_level, no_credentials,
  resolve_topology_credentials,
}
use containerlab.Base.{
  ℕ, suc, ◌≤◌, ◌<◌, String, ◌≡◌, refl, ◌∙◌, subst, ◌⊎◌, inl, inr, true, false, Option, none, some,
  arith, eq_refl, Bool-cases, Outcome, ok,
}
use containerlab.Base.GoMap.{lookup}

-- The definition that a source names.
abbrev pub definition_at :
    Topology
    → Option NodeDefinition
    → String
    → String
    → CredentialTopologySource
    → Option NodeDefinition
definition_at t d k g unset = none
definition_at t d k g from_defaults = some (get_defaults t)
definition_at t d k g from_kind = get_kind t k
definition_at t d k g from_group = get_group t g
definition_at t d k g from_node = d

abbrev pub credentials_of : Option NodeDefinition → NodeCredentials
credentials_of none = record { username = ""; password = "" }
credentials_of (some d) = d.credentials

-- How specific a source is.
abbrev pub rank : CredentialTopologySource → ℕ
rank unset = 0
rank from_defaults = 1
rank from_kind = 2
rank from_group = 3
rank from_node = 4

-- Both fields are those of the source's definition, which sets one of them, unless there is no source;
-- and no more specific level sets either field.
pub record AreFrom (t : Topology) (d : Option NodeDefinition) (k g : String)
    (r : ResolvedCredentials) : Type 0 where
  pub username_from : r.username ≡ (credentials_of (definition_at t d k g r.source)).username
  pub password_from : r.password ≡ (credentials_of (definition_at t d k g r.source)).password
  pub sets_one :
      (r.source ≡ unset)
      ⊎ (credentials_present (credentials_of (definition_at t d k g r.source)) ≡ true)
  pub most_specific :
      (s : CredentialTopologySource)
      → rank r.source < rank s
      → credentials_present (credentials_of (definition_at t d k g s)) ≡ false

level_cases :
    (o : Option NodeDefinition) (s : CredentialTopologySource) (rest : Outcome ResolvedCredentials)
    → ((credentials_level o s rest
          ≡ ok (record {
            username = (credentials_of o).username;
            password = (credentials_of o).password;
            source = s;
          }))
        × (credentials_present (credentials_of o) ≡ true))
      ⊎ ((credentials_level o s rest ≡ rest) × (credentials_present (credentials_of o) ≡ false))
level_cases none s rest = inr (refl, ground (arith, eq_refl ""))
level_cases (some d) s rest = elim (Bool-cases (credentials_present d.credentials)) [
  | inl e ↦ inl (rw e, e)
  | inr e ↦ inr (rw e, e)
]

rank_le : (s : CredentialTopologySource) → rank s ≤ 4
rank_le s = ground arith

rank_injective : (s s' : CredentialTopologySource) → rank s ≡ rank s' → s ≡ s'
rank_injective s s' e = ground arith

module _ (t : Topology) (d : Option NodeDefinition) (k g : String) where
  -- The credentials of the levels up to a rank.
  record UpTo (b : ℕ) (r : ResolvedCredentials) : Type 0 where
    username_from : r.username ≡ (credentials_of (definition_at t d k g r.source)).username
    password_from : r.password ≡ (credentials_of (definition_at t d k g r.source)).password
    sets_one :
        (r.source ≡ unset)
        ⊎ (credentials_present (credentials_of (definition_at t d k g r.source)) ≡ true)
    most_specific :
        (s : CredentialTopologySource)
        → rank r.source < rank s
        → rank s ≤ b
        → credentials_present (credentials_of (definition_at t d k g s)) ≡ false

  Found : ℕ → Outcome ResolvedCredentials → Type 0
  Found b m = (r : ResolvedCredentials) × (m ≡ ok r) × UpTo b r

  Found-none : Found 0 (ok no_credentials)
  unfolding Found
  Found-none = (
    no_credentials,
    refl,
    record {
      username_from = refl;
      password_from = refl;
      sets_one = inl refl;
      most_specific = λ s h h'. absurd (omega arith);
    },
  )

  Found-level :
      (s : CredentialTopologySource) (b : ℕ) (rest : Outcome ResolvedCredentials)
      → rank s ≡ suc b
      → Found b rest
      → Found (suc b) (credentials_level (definition_at t d k g s) s rest)
  unfolding Found
  Found-level s b rest e (r, er, u) = elim (level_cases (definition_at t d k g s) s rest) [
    | inl (here, present) ↦ (
      _,
      here,
      record {
        username_from = refl;
        password_from = refl;
        sets_one = inr present;
        most_specific = λ s' h h'. absurd (omega arith);
      },
    )
    | inr (same, absent) ↦ (
      r,
      same ∙ er,
      record {
        username_from = u.username_from;
        password_from = u.password_from;
        sets_one = u.sets_one;
        most_specific = λ s' h h'. elim (dec_le (rank s') b) [
          | yes low ↦ u.most_specific s' h low
          | no high ↦
              subst (λ x. credentials_present (credentials_of (definition_at t d k g x)) ≡ false)
                (rank_injective s s' (omega arith)) absent
        ];
      },
    )
  ]

-- Where the kind and the group of a node of the topology resolve, its credentials are both taken from the most
-- specific level that sets one of them: node, group, kind or defaults; they are empty where none
-- does.
pub resolve_topology_credentials_lem :
    (t : Topology) (n k g : String) (d : Option NodeDefinition)
    → lookup n t.nodes ≡ some d
    → get_node_kind t n ≡ ok k
    → get_node_group t n ≡ ok g
    → (r : ResolvedCredentials) × (resolve_topology_credentials t n ≡ ok r) × AreFrom t d k g r
unfolding resolve_topology_credentials Found
resolve_topology_credentials_lem t n k g d l ek eg =
    let (r, e, u) = Found-level t d k g from_node 3 _ refl (
      Found-level t d k g from_group 2 _ refl (
        Found-level t d k g from_kind 1 _ refl
          (Found-level t d k g from_defaults 0 _ refl (Found-none t d k g)))) in
    (
      r,
      rw (l, resolve_topology_credentials)
          (rw (eg, resolve_topology_credentials) (rw (ek, resolve_topology_credentials) e)),
      record {
        username_from = u.username_from;
        password_from = u.password_from;
        sets_one = u.sets_one;
        most_specific = λ s h. u.most_specific s h (rank_le s);
      },
    )
