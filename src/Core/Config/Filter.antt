-- ===== src/Core/Config/Filter.antt =====
-- filterClabNodes keeps the nodes that the filter names.
use containerlab.Core.Config.{first_unknown, excluding, filter_clab_nodes}
use containerlab.Base.{
  String, ◌≡◌, refl, ap, ◌⊎◌, inl, inr, Bool, true, false, not, ◌&&◌, none, List, [], ◌∷◌, arith,
  str_eq, eq_iff, if◌then◌else◌, Bool-cases, is_some, Error, ok, fail,
}
use containerlab.Base.Lists.{elem}
use containerlab.Base.GoMap.{GoMap, lookup}

lookup-excluding {ℓ} :
    {V : Type ℓ} (n : String) (node_filter : List String) (nodes : GoMap V)
    → lookup n (excluding node_filter nodes) ≡ (if elem n node_filter then lookup n nodes else none)
unfolding lookup excluding
lookup-excluding n node_filter [] = ground arith
lookup-excluding n node_filter ((name, node) ∷ nodes) =
    let rest = lookup-excluding n node_filter nodes in
    elim (Bool-cases (str_eq name n)) [
      | inl same ↦
          let e : elem name node_filter ≡ elem n node_filter =
            ap (λ x. elem x node_filter) ((eq_iff name n).0 same) in
          ground (arith, rest, same, e)
      | inr other ↦ ground (arith, rest, other)
    ]

-- Are all names of the list names of nodes?
abbrev pub all_known {ℓ} : {V : Type ℓ} → List String → GoMap V → Bool
all_known [] nodes = true
all_known (n ∷ l) nodes = is_some (lookup n nodes) && all_known l nodes

first_unknown-all_known {ℓ} :
    {V : Type ℓ} (l : List String) (nodes : GoMap V)
    → first_unknown l nodes ≡ not (all_known l nodes)
unfolding first_unknown
first_unknown-all_known [] nodes = refl
first_unknown-all_known (n ∷ l) nodes = ground (arith, first_unknown-all_known l nodes)

-- An empty filter keeps all nodes. Another filter is refused when it names a node that is not in the
-- topology; if it does not, exactly the nodes that it names are kept, with their definitions.
pub filter_clab_nodes_lem {ℓ} :
    {V : Type ℓ} (node_filter : List String) (nodes : GoMap V)
    → ((node_filter ≡ []) × (filter_clab_nodes node_filter nodes ≡ ok nodes))
      ⊎ ((all_known node_filter nodes ≡ false)
          × (filter_clab_nodes node_filter nodes ≡ fail Error.node_not_in_topology))
      ⊎ ((all_known node_filter nodes ≡ true)
          × (kept : GoMap V) × (filter_clab_nodes node_filter nodes ≡ ok kept)
          × ((n : String) → lookup n kept ≡ (if elem n node_filter then lookup n nodes else none)))
unfolding filter_clab_nodes
filter_clab_nodes_lem [] nodes = inl (refl, refl)
filter_clab_nodes_lem (x ∷ l) nodes = elim (Bool-cases (all_known (x ∷ l) nodes)) [
  | inl known ↦ inr (
      inr (
        known,
        excluding (x ∷ l) nodes,
        rw (first_unknown-all_known (x ∷ l) nodes) (rw known refl),
        λ n. lookup-excluding n (x ∷ l) nodes,
      ))
  | inr unknown ↦ inr (inl (unknown, rw (first_unknown-all_known (x ∷ l) nodes) (rw unknown refl)))
]
