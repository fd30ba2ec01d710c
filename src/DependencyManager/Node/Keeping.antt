-- ===== src/DependencyManager/Node/Keeping.antt =====
-- What Done leaves as it is: which stages must be waited for, and which wait groups there are.
use containerlab.DependencyManager.Node.{
  DependerNodeStage, DependencyNode, Manager, dependers_at, must_wait, wg_done, get_stage_wg,
  signal_done, signal_all, signal_dependers,
}
use containerlab.DependencyManager.Node.Views.{is_known, has_wg}
use containerlab.Base.{
  ℕ, String, ◌≡◌, refl, ◌∙◌, subst, Bool, true, false, none, some, List, [], ◌∷◌, arith, eq_iff, ok,
  deref, >>=-eq-ok, deref-eq-ok,
}
use containerlab.Base.GoMap.{lookup, insert, lookup-insert}

unfoldable pub must_wait_of : Manager → String → String → Bool
unfolding must_wait
must_wait_of dm n s = elim (lookup n dm) [ none ↦ false | some node ↦ must_wait node s ]

pub record Keeps (dm dm' : Manager) : Type 0 where
  pub same_known : (n : String) → is_known dm' n ≡ is_known dm n
  pub same_must_wait : (n s : String) → must_wait_of dm' n s ≡ must_wait_of dm n s
  pub kept_wg : (n s : String) → has_wg dm n s ≡ true → has_wg dm' n s ≡ true

Keeps-signal :
    (dm : Manager) (n p : String) (w : ℕ) (node : DependencyNode)
    → lookup n dm ≡ some node
    → Keeps dm (insert n (record node { stage_wg = insert p w node.stage_wg }) dm)
unfolding is_known has_wg must_wait_of
Keeps-signal dm n p w node l =
    let changed : DependencyNode = record node { stage_wg = insert p w node.stage_wg } in
    record {
      same_known = λ m. ground (arith, l, lookup-insert n m changed dm, eq_iff n m);
      same_must_wait = λ m s. ground (arith, l, lookup-insert n m changed dm, eq_iff n m);
      kept_wg = λ m s h. ground (
        arith,
        l,
        lookup-insert n m changed dm,
        eq_iff n m,
        lookup-insert p s w node.stage_wg,
        eq_iff p s,
      );
    }

signal_done-Keeps :
    (dm dm' : Manager) (ns : DependerNodeStage) → signal_done dm ns ≡ ok dm' → Keeps dm dm'
unfolding signal_done
signal_done-Keeps dm dm' ns h =
    let (node, e, h₁) = >>=-eq-ok _ _ h in
    let (w, f, h₂) =
      >>=-eq-ok (wg_done (get_stage_wg node ns.stage)) (λ w. ok (signalled node w)) h₁ in
    let r : signalled node w ≡ dm' = cc in
    subst (Keeps dm) r (Keeps-signal dm ns.depender ns.stage w node (deref-eq-ok _ e))
  where
    signalled : DependencyNode → ℕ → Manager
    signalled node w =
        insert ns.depender (record node { stage_wg = insert ns.stage w node.stage_wg }) dm

signal_all-Keeps :
    (dm dm' : Manager) (l : List DependerNodeStage) → signal_all dm l ≡ ok dm' → Keeps dm dm'
unfolding signal_all
signal_all-Keeps dm dm' [] h =
    let r : dm ≡ dm' = cc in
    subst (Keeps dm) r
      (record { same_known = λ n. refl; same_must_wait = λ n s. refl; kept_wg = λ n s e. e })
signal_all-Keeps dm dm' (ns ∷ l) h =
    let (dm₁, e, h₁) = >>=-eq-ok _ _ h in
    let k₁ = signal_done-Keeps dm dm₁ ns e in
    let k₂ = signal_all-Keeps dm₁ dm' l h₁ in
    record {
      same_known = λ n. k₂.same_known n ∙ k₁.same_known n;
      same_must_wait = λ n s. k₂.same_must_wait n s ∙ k₁.same_must_wait n s;
      kept_wg = λ n s e. k₂.kept_wg n s (k₁.kept_wg n s e);
    }

-- Done keeps the nodes, the stages that must be waited for, and the wait groups.
pub signal_dependers-Keeps :
    (dm dm' : Manager) (n s : String) → signal_dependers dm n s ≡ ok dm' → Keeps dm dm'
unfolding signal_dependers
signal_dependers-Keeps dm dm' n s h =
    let (node, e, h₁) =
      >>=-eq-ok (deref (lookup n dm)) (λ x. signal_all dm (dependers_at s x.depender)) h in
    signal_all-Keeps dm dm' (dependers_at s node.depender) h₁
