-- ===== src/Core/Scheduling/Ordering.antt =====
-- What the order of the stages means for the nodes of a scheduled lab, also when nodes fail.
use containerlab.Core.Dependencies.Recording.{IsRankedBy, Records, is_known-get_nodes}
use containerlab.DependencyManager.Node.{NodeConfig, Manager, must_wait}
use containerlab.DependencyManager.Node.History.{Dependency}
use containerlab.Core.Dependencies.{create_nodes}
use containerlab.Core.Dependencies.Starting.{AreComplete}
use containerlab.Core.Dependencies.Planned.{planned, create_nodes_lem}
use containerlab.Core.Dependencies.Waits.{waits_at, finished_of_waits_at}
use containerlab.Core.Scheduling.{
  Pc, queued, deploying, failed_deploy, failed_links, test, entry, completion, abandonment, Lab,
  advance, enters, takes, completes, tests, abandons, leaves, Step, moves, fails, Reach, here, next,
  scheduled,
}
use containerlab.Core.Scheduling.Invariant.{has_behind, has_entered, Inv}
use containerlab.Core.Scheduling.Steps.{Inv-Reach, Inv-scheduled}
use containerlab.Base.{
  ℕ, String, ◌≡◌, refl, sym, ap, ◌∙◌, subst, inl, inr, Bool, true, false, Option, some, List, [],
  arith, str_eq, eq_iff, if◌then◌else◌, Bool-cases, ok,
}
use containerlab.Base.Lists.{elem, Distinct}
use containerlab.Base.GoMap.{GoMap, lookup, insert, keys, lookup-insert}

pub created_of :
    (nodes : GoMap NodeConfig) (dm : Manager)
    → AreComplete nodes
    → Distinct (keys nodes)
    → create_nodes nodes ≡ ok dm
    → Records nodes (planned nodes) dm × (r : String → ℕ) × IsRankedBy r (planned nodes)
created_of nodes dm c d e = elim (create_nodes_lem nodes c d) [
  | inl (inl (found, f)) ↦ absurd (cc (e, f))
  | inl (inr (found, bare, f)) ↦ absurd (cc (e, f))
  | inr (inl (f, m, cycle)) ↦ absurd (cc (e, f))
  | inr (inr (dm', f, a, no_cycle, ranks, ranked)) ↦
      let same : dm' ≡ dm = cc in (subst (Records nodes (planned nodes)) same a, ranks, ranked)
]

pub Inv-created :
    (nodes : GoMap NodeConfig) (dm : Manager) (w : ℕ)
    → Records nodes (planned nodes) dm
    → Inv (planned nodes) [] (scheduled dm w)
Inv-created nodes dm w r = Inv-scheduled (planned nodes) dm w r.accounts (λ n s k h.
    r.wait_groups n s
      (sym (ap (λ (m : GoMap NodeConfig). elem n (keys m)) r.same_nodes)
        ∙ sym (is_known-get_nodes dm n)
        ∙ k)
      h)

ordered_at :
    (deps : List Dependency) (ds : List (String × String)) (s : Lab) (n stage d q : String)
    → Inv deps ds s
    → has_entered stage (lookup n s.places) ≡ true
    → waits_at n stage d q deps ≡ true
    → has_behind q (lookup d s.places) ≡ true
ordered_at deps ds s n stage d q i h w =
    i.sound d q (finished_of_waits_at n stage d q deps ds (i.ordered n stage h) w)

-- In every state that the scheduling of a lab reaches, whatever the number of workers and whatever
-- fails, when a node has entered a stage that waits for a stage of another node over a planned
-- dependency, then that stage is behind the other node.
pub entered_after :
    (nodes : GoMap NodeConfig) (dm : Manager) (max_workers : ℕ) (s : Lab) (n stage d q : String)
    → AreComplete nodes
    → Distinct (keys nodes)
    → create_nodes nodes ≡ ok dm
    → Reach (scheduled dm max_workers) s
    → has_entered stage (lookup n s.places) ≡ true
    → waits_at n stage d q (planned nodes) ≡ true
    → has_behind q (lookup d s.places) ≡ true
entered_after nodes dm w s n stage d q c u e r h a =
    let (records, ranks, ranked) = created_of nodes dm c u e in
    let (ds, i) =
      Inv-Reach (planned nodes) (scheduled dm w) s ([], Inv-created nodes dm w records) r in
    ordered_at (planned nodes) ds s n stage d q i h a

-- The two places where a node has failed.
abbrev pub has_failed : Option Pc → Bool
has_failed (some failed_deploy) = true
has_failed (some failed_links) = true
has_failed _ = false

no_entry : (p q : Pc) (stage : String) → entry p ≡ some (stage, q) → has_failed (some p) ≡ false
unfolding entry
no_entry p q stage h = ground arith

no_completion :
    (p q : Pc) (stage : String) → completion p ≡ some (stage, q) → has_failed (some p) ≡ false
unfolding completion
no_completion p q stage h = ground arith

no_test : (p q r : Pc) (stage : String) → test p ≡ some (stage, q, r) → has_failed (some p) ≡ false
unfolding test
no_test p q r stage h = ground arith

no_abandonment : (p q : Pc) → abandonment p ≡ some q → has_failed (some p) ≡ false
unfolding abandonment
no_abandonment p q h = ground arith

stays_on :
    (n d : String) (p q : Pc) (a : GoMap Pc)
    → lookup n a ≡ some p
    → has_failed (some p) ≡ false
    → has_failed (lookup d a) ≡ true
    → lookup d (insert n q a) ≡ lookup d a
stays_on n d p q a at f h = lookup-insert n d q a ∙ elim (Bool-cases (str_eq n d)) [
  | inl same ↦ absurd (cc ((eq_iff n d).0 same, at, f, h))
  | inr other ↦ rw other refl
]

stays-Step :
    (d : String) (s t : Lab)
    → has_failed (lookup d s.places) ≡ true
    → Step s t
    → lookup d t.places ≡ lookup d s.places
unfolding advance
stays-Step d s t h (moves (enters n stage p q node at e l m same)) =
    rw same (stays_on n d p q s.places at (no_entry p q stage e) h)
stays-Step d s t h (moves (takes n k at free same)) =
    rw same (stays_on n d queued deploying s.places at refl h)
stays-Step d s t h (moves (completes n stage p q dm at e x same)) =
    rw same (stays_on n d p q s.places at (no_completion p q stage e) h)
stays-Step d s t h (moves (tests n stage p q r node at e l same)) =
    rw same
      (stays_on n d p (if must_wait node stage then q else r) s.places at (no_test p q r stage e) h)
stays-Step d s t h (fails (abandons n p q at e same)) =
    rw same (stays_on n d p q s.places at (no_abandonment p q e) h)
stays-Step d s t h (fails (leaves k free same)) = rw same refl

pub stays_failed :
    (d : String) (s t : Lab)
    → has_failed (lookup d s.places) ≡ true
    → Reach s t
    → lookup d t.places ≡ lookup d s.places
stays_failed d s t h here = refl
stays_failed d s t h (next {t = u} r step) =
    let same = stays_failed d s u h r in stays-Step d u t (rw same h) step ∙ same

Reach-trans : (s t u : Lab) → Reach s t → Reach t u → Reach s u
Reach-trans s t u a here = a
Reach-trans s t u a (next {t = v} b step) = next (Reach-trans s t v a b) step

-- Once a node has failed before a stage was behind it, no node that waits for that stage over a
-- planned dependency ever enters the stage that waits, in whatever way the scheduling goes on.
pub failure_blocks :
    (nodes : GoMap NodeConfig) (dm : Manager) (max_workers : ℕ) (s t : Lab) (n stage d q : String)
    → AreComplete nodes
    → Distinct (keys nodes)
    → create_nodes nodes ≡ ok dm
    → Reach (scheduled dm max_workers) s
    → has_failed (lookup d s.places) ≡ true
    → has_behind q (lookup d s.places) ≡ false
    → waits_at n stage d q (planned nodes) ≡ true
    → Reach s t
    → has_entered stage (lookup n t.places) ≡ false
failure_blocks nodes dm w s t n stage d q c u e r h b a r' =
    let same = stays_failed d s t h r' in
    elim (Bool-cases (has_entered stage (lookup n t.places))) [
      | inr out ↦ out
      | inl came ↦
          let after =
            entered_after nodes dm w t n stage d q c u e (Reach-trans _ s t r r') came a in
          absurd (cc (ap (has_behind q) same, after, b))
    ]
