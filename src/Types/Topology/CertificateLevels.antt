-- ===== src/Types/Topology/CertificateLevels.antt =====
-- A certificate is merged setting by setting.
use containerlab.Types.Number.{ℤ, is_positive}
use containerlab.Types.NodeDefinition.{NodeDefinition, CertificateConfig, merge_certificate}
use containerlab.Types.Topology.{
  Topology, get_defaults, get_group, get_kind, get_node_group, get_node_kind, field_of,
}
use containerlab.Types.Topology.Resolution.{pick}
use containerlab.Types.Topology.Layers.{node_entry, default_certificate, get_certificate_config}
use containerlab.Base.{
  String, ◌≡◌, refl, ap, Bool, false, not, Option, none, some, List, [], ◌∷◌, map, arith,
  if◌then◌else◌, is_some, is_empty, ok,
}
use containerlab.Base.Lists.{slice}
use containerlab.Base.GoMap.{lookup}

-- The settings of a level, those that mean "not set" where it has no certificate.
abbrev pub issue_of : Option CertificateConfig → Option Bool
issue_of none = none
issue_of (some c) = c.issue

abbrev pub key_size_of : Option CertificateConfig → ℤ
key_size_of none = ℤ.pos 0
key_size_of (some c) = c.key_size

abbrev pub validity_of : Option CertificateConfig → ℤ
validity_of none = ℤ.pos 0
validity_of (some c) = c.validity_duration

abbrev pub sans_of : Option CertificateConfig → Option (List String)
sans_of none = none
sans_of (some c) = c.sans

abbrev pub has_names : Option (List String) → Bool
has_names sans = not (is_empty (slice sans))

-- Each setting is the first that is set, and otherwise that of the start.
record AreFirst (levels : List (Option CertificateConfig)) (start c : CertificateConfig)
    : Type 0 where
  issue_first : c.issue ≡ pick is_some (map issue_of levels) start.issue
  key_size_first : c.key_size ≡ pick is_positive (map key_size_of levels) start.key_size
  validity_first :
      c.validity_duration ≡ pick is_positive (map validity_of levels) start.validity_duration
  sans_first : c.sans ≡ pick has_names (map sans_of levels) start.sans

AreFirst-merge :
    (levels : List (Option CertificateConfig)) (start c : CertificateConfig)
    (o : Option CertificateConfig)
    → AreFirst levels start c
    → AreFirst (o ∷ levels) start (merge_certificate c o)
unfolding merge_certificate
AreFirst-merge levels start c none h = record {
  issue_first = h.issue_first;
  key_size_first = h.key_size_first;
  validity_first = h.validity_first;
  sans_first = h.sans_first;
}
AreFirst-merge levels start c (some x) h = record {
  issue_first = ap (λ (r : Option Bool). if is_some x.issue then x.issue else r) h.issue_first;
  key_size_first =
      ap (λ (r : ℤ). if is_positive x.key_size then x.key_size else r) h.key_size_first;
  validity_first =
      ap (λ (r : ℤ). if is_positive x.validity_duration then x.validity_duration else r)
        h.validity_first;
  sans_first = ground (arith, h.sans_first);
}

abbrev pub certificate_of : Option NodeDefinition → Option CertificateConfig
certificate_of = field_of (λ d. d.certificate)

-- The certificates of the levels of a node, the most specific first.
abbrev pub certificate_levels :
    Topology → String → String → String → List (Option CertificateConfig)
certificate_levels t n k g =
    certificate_of (node_entry (lookup n t.nodes))
    ∷ certificate_of (get_group t g)
    ∷ certificate_of (get_kind t k)
    ∷ (get_defaults t).certificate
    ∷ []

-- Where the kind and the group of a node resolve, each setting of its certificate is that of the
-- most specific level that sets it; otherwise nothing is issued, and the sizes are zero and the names
-- absent.
pub get_certificate_config_lem :
    (t : Topology) (n k g : String)
    → get_node_kind t n ≡ ok k
    → get_node_group t n ≡ ok g
    → (c : CertificateConfig) × (get_certificate_config t n ≡ ok c)
      × (c.issue ≡ pick is_some (map issue_of (certificate_levels t n k g)) (some false))
      × (c.key_size ≡ pick is_positive (map key_size_of (certificate_levels t n k g)) (ℤ.pos 0))
      × (c.validity_duration
          ≡ pick is_positive (map validity_of (certificate_levels t n k g)) (ℤ.pos 0))
      × (c.sans ≡ pick has_names (map sans_of (certificate_levels t n k g)) none)
unfolding get_certificate_config
get_certificate_config_lem t n k g ek eg =
    let h₀ : AreFirst [] default_certificate default_certificate = record {
      issue_first = refl;
      key_size_first = refl;
      validity_first = refl;
      sans_first = refl;
    } in
    let h₁ =
      AreFirst-merge [] default_certificate default_certificate (get_defaults t).certificate h₀ in
    let h₂ = AreFirst-merge _ default_certificate _ (certificate_of (get_kind t k)) h₁ in
    let h₃ = AreFirst-merge _ default_certificate _ (certificate_of (get_group t g)) h₂ in
    let h₄ =
      AreFirst-merge _ default_certificate _ (certificate_of (node_entry (lookup n t.nodes))) h₃ in
    (
      _,
      rw (ek, get_certificate_config) (rw (eg, get_certificate_config)),
      h₄.issue_first,
      h₄.key_size_first,
      h₄.validity_first,
      h₄.sans_first,
    )
