-- ===== src/DependencyManager/Node/Views.antt =====
-- What the operations on dependency nodes do to the counters and to the lists of dependers.
use containerlab.DependencyManager.Node.{
  signal_done, increase_dependency_wg, set_must_wait, DependerNodeStage, DependencyNode, Manager,
  dependers_at, get_stage_wg,
}
use containerlab.Base.{
  ℕ, suc, ◌+◌, String, ◌≡◌, refl, ◌∙◌, Bool, true, false, ◌&&◌, Option, none, some, List, [], arith,
  str_eq, eq_iff, if◌then◌else◌, is_some, ok,
}
use containerlab.Base.GoMap.{lookup, insert, lookup-insert}

-- The counter of a stage of a node, 0 where there is none.
unfoldable pub wg_of : Manager → String → String → ℕ
unfolding get_stage_wg
wg_of dm n s = elim (lookup n dm) [ none ↦ 0 | some node ↦ get_stage_wg node s ]

-- The dependers of a stage of a node.
unfoldable pub dependers_of : Manager → String → String → List DependerNodeStage
dependers_of dm d p = elim (lookup d dm) [ none ↦ [] | some node ↦ dependers_at p node.depender ]

unfoldable pub is_known : Manager → String → Bool
is_known dm n = is_some (lookup n dm)

-- Is there a wait group for the stage of the node?
unfoldable pub has_wg : Manager → String → String → Bool
has_wg dm n s = elim (lookup n dm) [ none ↦ false | some node ↦ is_some (lookup s node.stage_wg) ]

-- Is this the depender (n, s)?
abbrev pub is_ns : String → String → DependerNodeStage → Bool
is_ns n s ns = str_eq n ns.depender && str_eq s ns.stage

-- Only the counters may differ, and no wait group goes away.
pub record SameShape (dm dm' : Manager) : Type 0 where
  pub same_dependers : (d p : String) → dependers_of dm' d p ≡ dependers_of dm d p
  pub same_known : (n : String) → is_known dm' n ≡ is_known dm n
  pub kept_wg : (n s : String) → has_wg dm n s ≡ true → has_wg dm' n s ≡ true

module _ (dm : Manager) (ns : DependerNodeStage) where
  signal_result : DependencyNode → ℕ → Manager
  signal_result node wg =
      insert ns.depender (record node { stage_wg = insert ns.stage wg node.stage_wg }) dm

  module _ (node : DependencyNode) (wg : ℕ) (l : lookup ns.depender dm ≡ some node) where
    wg_of-result :
        (n s : String)
        → wg_of (signal_result node wg) n s ≡ (if is_ns n s ns then wg else wg_of dm n s)
    unfolding signal_result wg_of
    wg_of-result n s = ground (
      arith,
      l,
      lookup-insert ns.depender n (record node { stage_wg = insert ns.stage wg node.stage_wg }) dm,
      lookup-insert ns.stage s wg node.stage_wg,
      eq_iff ns.depender n,
      eq_iff n ns.depender,
      eq_iff ns.stage s,
      eq_iff s ns.stage,
    )

    SameShape-result : SameShape dm (signal_result node wg)
    unfolding signal_result dependers_of is_known has_wg
    SameShape-result = record {
      same_dependers = λ d p. ground (
        arith,
        l,
        lookup-insert ns.depender d (record node { stage_wg = insert ns.stage wg node.stage_wg })
            dm,
        eq_iff ns.depender d,
      );
      same_known = λ n. ground (
        arith,
        l,
        lookup-insert ns.depender n (record node { stage_wg = insert ns.stage wg node.stage_wg })
            dm,
        eq_iff ns.depender n,
      );
      kept_wg = λ n s h. ground (
        arith,
        l,
        lookup-insert ns.depender n (record node { stage_wg = insert ns.stage wg node.stage_wg })
            dm,
        eq_iff ns.depender n,
        lookup-insert ns.stage s wg node.stage_wg,
        eq_iff ns.stage s,
      );
    }

pub known_node :
    (dm : Manager) (n : String)
    → is_known dm n ≡ true
    → (node : DependencyNode) × (lookup n dm ≡ some node)
unfolding is_known
known_node dm n h = go (lookup n dm) h refl
  where
    go :
        (o : Option DependencyNode)
        → is_some o ≡ true
        → lookup n dm ≡ o
        → (node : DependencyNode) × (lookup n dm ≡ some node)
    go none h e = cc
    go (some node) h e = (node, e)

pub wg_node :
    (dm : Manager) (n s : String)
    → has_wg dm n s ≡ true
    → (node : DependencyNode) × (w : ℕ) × (lookup n dm ≡ some node)
      × (lookup s node.stage_wg ≡ some w)
unfolding has_wg
wg_node dm n s h = go (lookup n dm) refl h
  where
    inner :
        (node : DependencyNode)
        → lookup n dm ≡ some node
        → (o : Option ℕ) → lookup s node.stage_wg ≡ o
        → is_some o ≡ true
        → (node : DependencyNode) × (w : ℕ) × (lookup n dm ≡ some node)
          × (lookup s node.stage_wg ≡ some w)
    inner node l none e h = cc
    inner node l (some w) e h = (node, w, l, e)

    go :
        (o : Option DependencyNode)
        → lookup n dm ≡ o
        → (elim o [ none ↦ false | some node ↦ is_some (lookup s node.stage_wg) ]) ≡ true
        → (node : DependencyNode) × (w : ℕ) × (lookup n dm ≡ some node)
          × (lookup s node.stage_wg ≡ some w)
    go none l h = cc
    go (some node) l h = inner node l (lookup s node.stage_wg) refl h

-- A signal takes one off the counter of its stage.
pub signal_done_lem :
    (dm : Manager) (ns : DependerNodeStage) (w : ℕ)
    → is_known dm ns.depender ≡ true
    → wg_of dm ns.depender ns.stage ≡ suc w
    → (dm' : Manager) × (signal_done dm ns ≡ ok dm')
      × SameShape dm dm'
      × ((n s : String) → wg_of dm' n s ≡ (if is_ns n s ns then w else wg_of dm n s))
unfolding signal_done signal_result wg_of
signal_done_lem dm ns w k e =
    let (node, l) = known_node dm ns.depender k in
    let at : get_stage_wg node ns.stage ≡ suc w = ground (arith, l, e) in
    (
      signal_result dm ns node w,
      rw (l, signal_done) (rw at),
      SameShape-result dm ns node w l,
      wg_of-result dm ns node w l,
    )

-- An increase adds one to the counter of a stage that has one.
pub increase_lem :
    (dm : Manager) (ns : DependerNodeStage)
    → has_wg dm ns.depender ns.stage ≡ true
    → (dm' : Manager) × (increase_dependency_wg dm ns ≡ ok dm')
      × SameShape dm dm'
      × ((n s : String) → wg_of dm' n s ≡ (if is_ns n s ns then wg_of dm n s + 1 else wg_of dm n s))
unfolding increase_dependency_wg signal_result has_wg
increase_lem dm ns h =
    let (node, w, l, lw) = wg_node dm ns.depender ns.stage h in
    let count : wg_of dm ns.depender ns.stage ≡ w =
      unfold wg_of get_stage_wg in ground (arith, l, lw) in
    (
      signal_result dm ns node (w + 1),
      rw (l, increase_dependency_wg) (rw (lw, increase_dependency_wg)),
      SameShape-result dm ns node (w + 1) l,
      λ n s.
          wg_of-result dm ns node (w + 1) l n s
          ∙ ground (arith, count, eq_iff n ns.depender, eq_iff s ns.stage),
    )

-- Marking a stage as one to wait for changes no counter and no list.
pub set_must_wait_lem :
    (dm : Manager) (d p : String)
    → is_known dm d ≡ true
    → (dm' : Manager) × (set_must_wait dm d p ≡ ok dm')
      × SameShape dm dm'
      × ((n s : String) → wg_of dm' n s ≡ wg_of dm n s)
unfolding set_must_wait wg_of has_wg is_known dependers_of
set_must_wait_lem dm d p k =
    let (node, l) = known_node dm d k in
    let node' : DependencyNode = record node { must_wait = insert p true node.must_wait } in
    (
      insert d node' dm,
      rw (l, set_must_wait),
      record {
        same_dependers = λ d' p'. ground (arith, l, lookup-insert d d' node' dm, eq_iff d d');
        same_known = λ n. ground (arith, l, lookup-insert d n node' dm, eq_iff d n);
        kept_wg = λ n s h. ground (arith, l, lookup-insert d n node' dm, eq_iff d n);
      },
      λ n s. ground (arith, l, lookup-insert d n node' dm, eq_iff d n),
    )

pub SameShape-trans : {a b c : Manager} → SameShape a b → SameShape b c → SameShape a c
SameShape-trans h k = record {
  same_dependers = λ d p. k.same_dependers d p ∙ h.same_dependers d p;
  same_known = λ n. k.same_known n ∙ h.same_known n;
  kept_wg = λ n s e. k.kept_wg n s (h.kept_wg n s e);
}
