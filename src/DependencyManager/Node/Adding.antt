-- ===== src/DependencyManager/Node/Adding.antt =====
-- AddDepender: one more depender of one stage, and one more on one counter.
use containerlab.DependencyManager.Node.{
  DependerNodeStage, DependencyNode, Manager, dependers_at, with_depender, add_depender,
}
use containerlab.DependencyManager.Node.Views.{
  wg_of, dependers_of, is_known, has_wg, is_ns, known_node, increase_lem, set_must_wait_lem,
}
use containerlab.Base.{
  ℕ, ◌+◌, String, ◌≡◌, ap, ◌∙◌, Bool, true, ◌&&◌, some, [], ◌∷◌, ◌++◌, arith, str_eq, eq_iff,
  if◌then◌else◌, ok,
}
use containerlab.Base.GoMap.{lookup, insert, lookup-insert}

-- Is this stage p of node d?
abbrev pub is_at : String → String → String → String → Bool
is_at d p dependee stage = str_eq d dependee && str_eq p stage

-- The manager after the first statement of AddDepender.
module _ (dm : Manager) (dependee : String) (node : DependencyNode) (stage : String)
    (ns : DependerNodeStage) (l : lookup dependee dm ≡ some node) where
  recorded : Manager
  recorded = insert dependee (with_depender node stage ns) dm

  dependers_of-recorded :
      (d p : String)
      → dependers_of recorded d p
        ≡ (if is_at d p dependee stage then dependers_of dm d p ++ ns ∷ [] else dependers_of dm d p)
  unfolding recorded dependers_of
  dependers_of-recorded d p = ground (
    arith,
    l,
    lookup-insert dependee d (with_depender node stage ns) dm,
    eq_iff dependee d,
    eq_iff d dependee,
    eq_iff stage p,
    eq_iff p stage,
    lookup-insert stage p (dependers_at stage node.depender ++ ns ∷ []) node.depender,
  )

  wg_of-recorded : (n s : String) → wg_of recorded n s ≡ wg_of dm n s
  unfolding recorded wg_of
  wg_of-recorded n s =
      ground
        (arith, l, lookup-insert dependee n (with_depender node stage ns) dm, eq_iff dependee n)

  is_known-recorded : (n : String) → is_known recorded n ≡ is_known dm n
  unfolding recorded is_known
  is_known-recorded n =
      ground
        (arith, l, lookup-insert dependee n (with_depender node stage ns) dm, eq_iff dependee n)

  has_wg-recorded : (n s : String) → has_wg recorded n s ≡ has_wg dm n s
  unfolding recorded has_wg
  has_wg-recorded n s =
      ground
        (arith, l, lookup-insert dependee n (with_depender node stage ns) dm, eq_iff dependee n)

-- What AddDepender does to a manager.
pub record Added (dm dm' : Manager) (dependee stage : String) (ns : DependerNodeStage)
    : Type 0 where
  pub dependers :
      (d p : String)
      → dependers_of dm' d p
        ≡ (if is_at d p dependee stage then dependers_of dm d p ++ ns ∷ [] else dependers_of dm d p)
  pub counters :
      (n s : String) → wg_of dm' n s ≡ (if is_ns n s ns then wg_of dm n s + 1 else wg_of dm n s)
  pub known : (n : String) → is_known dm' n ≡ is_known dm n
  pub kept_wg : (n s : String) → has_wg dm n s ≡ true → has_wg dm' n s ≡ true

-- Between known nodes, where the depender has a wait group for its stage, AddDepender does not
-- panic. It puts the depender at the end of the list of its dependee's stage, adds one to the
-- depender's counter, and changes no other list and no other counter.
pub add_depender_lem :
    (dm : Manager) (dependee : String) (ns : DependerNodeStage) (stage : String)
    → is_known dm dependee ≡ true
    → has_wg dm ns.depender ns.stage ≡ true
    → (dm' : Manager) × (add_depender dm dependee ns.stage ns.depender stage ≡ ok dm')
      × Added dm dm' dependee stage ns
unfolding add_depender recorded
add_depender_lem dm dependee ns stage k h =
    let (node, l) = known_node dm dependee k in
    let (dm₂, e₂, s₂, w₂) =
      increase_lem (recorded dm dependee node stage ns l) ns
        (has_wg-recorded dm dependee node stage ns l ns.depender ns.stage ∙ h) in
    let (dm₃, e₃, s₃, w₃) =
      set_must_wait_lem dm₂ dependee stage
        (s₂.same_known dependee ∙ is_known-recorded dm dependee node stage ns l dependee ∙ k) in
    (
      dm₃,
      rw (l, add_depender) (rw (e₂, add_depender) e₃),
      record {
        dependers = λ d p.
            s₃.same_dependers d p
            ∙ s₂.same_dependers d p
            ∙ dependers_of-recorded dm dependee node stage ns l d p;
        counters = λ n s.
            w₃ n s
            ∙ w₂ n s
            ∙ ap (λ (x : ℕ). if is_ns n s ns then x + 1 else x)
                (wg_of-recorded dm dependee node stage ns l n s);
        known = λ n.
            s₃.same_known n ∙ s₂.same_known n ∙ is_known-recorded dm dependee node stage ns l n;
        kept_wg = λ n s e.
            s₃.kept_wg n s (s₂.kept_wg n s (has_wg-recorded dm dependee node stage ns l n s ∙ e));
      },
    )
