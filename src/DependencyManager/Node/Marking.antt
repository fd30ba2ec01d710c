-- ===== src/DependencyManager/Node/Marking.antt =====
-- AddDepender marks the stage of the dependee as one that must be waited for, and unmarks none.
use containerlab.DependencyManager.Node.{
  DependerNodeStage, DependencyNode, Manager, must_wait, with_depender, increase_dependency_wg,
  set_must_wait, add_depender,
}
use containerlab.DependencyManager.Node.Keeping.{must_wait_of}
use containerlab.Base.{
  ℕ, ◌+◌, String, ◌≡◌, ◌∙◌, subst, Bool, true, false, ◌&&◌, ◌||◌, some, arith, str_eq, eq_iff,
  eq_refl, ok, deref, >>=-eq-ok, deref-eq-ok,
}
use containerlab.Base.GoMap.{lookup, insert, lookup-insert}

pub record Marks (dm dm' : Manager) (d q : String) (new : Bool) : Type 0 where
  pub marked : (new ≡ true) → must_wait_of dm' d q ≡ true
  pub kept : (n s : String) → must_wait_of dm n s ≡ true → must_wait_of dm' n s ≡ true

Marks-insert :
    (dm : Manager) (d q : String) (new : Bool) (node node' : DependencyNode)
    → lookup d dm ≡ some node
    → ((s : String) → must_wait node' s ≡ (str_eq q s && new || must_wait node s))
    → Marks dm (insert d node' dm) d q new
unfolding must_wait_of
Marks-insert dm d q new node node' l h = record {
  marked = λ e. ground (arith, l, lookup-insert d d node' dm, eq_refl d, h q, eq_refl q);
  kept = λ n s e. ground (arith, l, lookup-insert d n node' dm, eq_iff d n, h s);
}

increase-Marks :
    (dm dm' : Manager) (ns : DependerNodeStage)
    → increase_dependency_wg dm ns ≡ ok dm'
    → (n s : String) → must_wait_of dm' n s ≡ must_wait_of dm n s
unfolding increase_dependency_wg must_wait_of must_wait
increase-Marks dm dm' ns h n s =
    let (node, e, h₁) = >>=-eq-ok _ _ h in
    let (wg, f, h₂) =
      >>=-eq-ok (deref (lookup ns.stage node.stage_wg)) (λ w. ok (counted node w)) h₁ in
    let r : counted node wg ≡ dm' = cc in
    let l = deref-eq-ok (lookup ns.depender dm) e in
    subst (λ m. must_wait_of m n s ≡ must_wait_of dm n s) r (same node wg l)
  where
    counted : DependencyNode → ℕ → Manager
    counted node wg =
        insert ns.depender (record node { stage_wg = insert ns.stage (wg + 1) node.stage_wg }) dm

    same :
        (node : DependencyNode) (wg : ℕ)
        → lookup ns.depender dm ≡ some node
        → must_wait_of (counted node wg) n s ≡ must_wait_of dm n s
    same node wg l = ground (
      arith,
      l,
      lookup-insert ns.depender n
          (record node { stage_wg = insert ns.stage (wg + 1) node.stage_wg }) dm,
      eq_iff ns.depender n,
    )

set_must_wait-Marks :
    (dm dm' : Manager) (d q : String) → set_must_wait dm d q ≡ ok dm' → Marks dm dm' d q true
unfolding set_must_wait must_wait
set_must_wait-Marks dm dm' d q h =
    let (node, e, h₁) = >>=-eq-ok _ _ h in
    let waits =
      (let w : DependencyNode = record node { must_wait = insert q true node.must_wait } in w) in
    let r : insert d waits dm ≡ dm' = cc in
    subst (λ m. Marks dm m d q true) r
      (Marks-insert dm d q true node waits (deref-eq-ok _ e)
        (λ s. ground (arith, lookup-insert q s true node.must_wait)))

pub add_depender-Marks :
    (dm dm' : Manager) (dependee depender_stage depender stage : String)
    → add_depender dm dependee depender_stage depender stage ≡ ok dm'
    → Marks dm dm' dependee stage true
unfolding add_depender must_wait
add_depender-Marks dm dm' dependee depender_stage depender stage h =
    let (node, e, h₁) = >>=-eq-ok _ _ h in
    let (dm₂, f, h₂) = >>=-eq-ok _ _ h₁ in
    let ns =
      (let r : DependerNodeStage = record { depender = depender; stage = depender_stage } in r) in
    let m₁ =
      Marks-insert dm dependee stage false node (with_depender node stage ns) (deref-eq-ok _ e)
        (λ s. ground arith) in
    let m₃ = set_must_wait-Marks dm₂ dm' dependee stage h₂ in
    record {
      marked = m₃.marked;
      kept = λ n s b. m₃.kept n s (increase-Marks _ dm₂ ns f n s ∙ m₁.kept n s b);
    }
