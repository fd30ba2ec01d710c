-- ===== src/DependencyManager/Check/Edges.antt =====
-- AddDepender against the map of dependers: it adds one edge, and changes no configuration.
use containerlab.DependencyManager.Acyclic.Cycles.{edge}
use containerlab.DependencyManager.Node.{
  DependerNodeStage, DependencyNode, Manager, dependers_at, with_depender, increase_dependency_wg,
  set_must_wait, add_depender,
}
use containerlab.DependencyManager.Check.{get_nodes, depender_names, generate_dependency_map}
use containerlab.Base.{
  ℕ, ◌+◌, String, ◌≡◌, refl, ap, ◌∙◌, subst, inl, inr, Bool, true, false, ◌&&◌, ◌||◌, some, List,
  [], ◌∷◌, ◌++◌, map, arith, str_eq, eq_iff, Bool-cases, ok, deref, >>=-eq-ok, deref-eq-ok,
}
use containerlab.Base.Lists.{elem, elem-append}
use containerlab.Base.GoMap.{GoMap, lookup, insert}

abbrev names : List DependerNodeStage → List String
names l = map (λ ns. ns.depender) l

elem-names-snoc :
    (b : String) (l : List DependerNodeStage) (ns : DependerNodeStage)
    → elem b (names (l ++ ns ∷ [])) ≡ (elem b (names l) || str_eq b ns.depender)
elem-names-snoc b [] ns = ground arith
elem-names-snoc b (x ∷ l) ns = ground (arith, elem-names-snoc b l ns)

elem-depender_names-insert :
    (b stage : String) (ns : DependerNodeStage) (l : List DependerNodeStage)
    (m : GoMap (List DependerNodeStage))
    → dependers_at stage m ≡ l
    → elem b (depender_names (insert stage (l ++ ns ∷ []) m))
      ≡ (elem b (depender_names m) || str_eq b ns.depender)
unfolding depender_names insert lookup
elem-depender_names-insert b stage ns l [] h = rw (← h) (ground arith)
elem-depender_names-insert b stage ns l ((k, l') ∷ m) h = elim (Bool-cases (str_eq k stage)) [
  | inl same ↦
      let e : l' ≡ l = ground (arith, h, same) in
      rw (same, e)
        (ground (
          arith,
          elem-append b (names (l ++ ns ∷ [])) (depender_names m),
          elem-append b (names l) (depender_names m),
          elem-names-snoc b l ns,
        ))
  | inr other ↦
      let e : dependers_at stage m ≡ l = ground (arith, h, other) in
      rw other (
        ground (
          arith,
          elem-append b (names l') (depender_names (insert stage (l ++ ns ∷ []) m)),
          elem-append b (names l') (depender_names m),
          elem-depender_names-insert b stage ns l m e,
        ))
]

module _ (n : String) (node node' : DependencyNode) where
  get_nodes-insert :
      (dm : Manager)
      → lookup n dm ≡ some node
      → node'.config ≡ node.config
      → get_nodes (insert n node' dm) ≡ get_nodes dm
  unfolding get_nodes insert lookup
  get_nodes-insert [] l e = cc
  get_nodes-insert ((k, x) ∷ dm) l e = elim (Bool-cases (str_eq k n)) [
    | inl same ↦ rw same (ground (arith, eq_iff k n))
    | inr other ↦ rw other (ap (λ m. (k, x.config) ∷ m) (get_nodes-insert dm (ground arith) e))
  ]

  edge-insert :
      (a b : String) (c : Bool) (dm : Manager)
      → lookup n dm ≡ some node
      → elem b (depender_names node'.depender) ≡ (elem b (depender_names node.depender) || c)
      → edge a b (generate_dependency_map (insert n node' dm))
        ≡ (edge a b (generate_dependency_map dm) || (str_eq a n && c))
  unfolding generate_dependency_map insert lookup
  edge-insert a b c [] l e = cc
  edge-insert a b c ((k, x) ∷ dm) l e = elim (Bool-cases (str_eq k n)) [
    | inl same ↦ rw same (ground (arith, eq_iff k n))
    | inr other ↦ rw other (ground (arith, edge-insert a b c dm (ground arith) e))
  ]

-- A manager with the same nodes, and with one more edge at most.
pub record Extended (dm dm' : Manager) (d n : String) (c : Bool) : Type 0 where
  pub same_nodes : get_nodes dm' ≡ get_nodes dm
  pub edges :
      (a b : String)
      → edge a b (generate_dependency_map dm')
        ≡ (edge a b (generate_dependency_map dm) || ((str_eq a d && str_eq b n) && c))

Extended-insert :
    (dm : Manager) (d n : String) (c : Bool) (node node' : DependencyNode)
    → lookup d dm ≡ some node
    → node'.config ≡ node.config
    → ((b : String)
        → elem b (depender_names node'.depender)
          ≡ (elem b (depender_names node.depender) || (str_eq b n && c)))
    → Extended dm (insert d node' dm) d n c
Extended-insert dm d n c node node' l e h = record {
  same_nodes = get_nodes-insert d node node' dm l e;
  edges = λ a b. edge-insert d node node' a b (str_eq b n && c) dm l (h b) ∙ ground arith;
}

increase_dependency_wg-Extended :
    (dm dm' : Manager) (ns : DependerNodeStage)
    → increase_dependency_wg dm ns ≡ ok dm'
    → Extended dm dm' ns.depender "" false
unfolding increase_dependency_wg
increase_dependency_wg-Extended dm dm' ns h =
    let (node, e, h₁) = >>=-eq-ok _ _ h in
    let (wg, f, h₂) =
      >>=-eq-ok (deref (lookup ns.stage node.stage_wg)) (λ w. ok (counted node w)) h₁ in
    let r : counted node wg ≡ dm' = cc in
    subst (λ m. Extended dm m ns.depender "" false) r
      (Extended-insert dm ns.depender "" false node
        (record node { stage_wg = insert ns.stage (wg + 1) node.stage_wg }) (deref-eq-ok _ e) refl
        (λ b. ground arith))
  where
    counted : DependencyNode → ℕ → Manager
    counted node wg =
        insert ns.depender (record node { stage_wg = insert ns.stage (wg + 1) node.stage_wg }) dm

set_must_wait-Extended :
    (dm dm' : Manager) (name stage : String)
    → set_must_wait dm name stage ≡ ok dm'
    → Extended dm dm' name "" false
unfolding set_must_wait
set_must_wait-Extended dm dm' name stage h =
    let (node, e, h₁) = >>=-eq-ok _ _ h in
    let waits =
      (let w : DependencyNode = record node { must_wait = insert stage true node.must_wait } in
        w) in
    let r : insert name waits dm ≡ dm' = cc in
    subst (λ m. Extended dm m name "" false) r
      (Extended-insert dm name "" false node waits (deref-eq-ok _ e) refl (λ b. ground arith))

-- AddDepender, where it does not panic, keeps the nodes and their configurations, and adds the edge
-- from the dependee to the depender to the map of dependers, and no other.
pub add_depender-Extended :
    (dm dm' : Manager) (dependee depender_stage depender stage : String)
    → add_depender dm dependee depender_stage depender stage ≡ ok dm'
    → Extended dm dm' dependee depender true
unfolding add_depender
add_depender-Extended dm dm' dependee depender_stage depender stage h =
    let (node, e, h₁) = >>=-eq-ok _ _ h in
    let (dm₂, f, h₂) = >>=-eq-ok _ _ h₁ in
    let ns =
      (let r : DependerNodeStage = record { depender = depender; stage = depender_stage } in r) in
    let x₁ =
      Extended-insert dm dependee depender true node (with_depender node stage ns) (deref-eq-ok _ e)
        refl
        (λ b.
          elem-depender_names-insert b stage ns (dependers_at stage node.depender) node.depender
            refl
          ∙ ground arith) in
    let x₂ = increase_dependency_wg-Extended _ dm₂ ns f in
    let x₃ = set_must_wait-Extended dm₂ dm' dependee stage h₂ in
    record {
      same_nodes = x₃.same_nodes ∙ x₂.same_nodes ∙ x₁.same_nodes;
      edges = λ a b. x₃.edges a b ∙ ground (arith, x₂.edges a b, x₁.edges a b);
    }
