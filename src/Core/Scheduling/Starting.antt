-- ===== src/Core/Scheduling/Starting.antt =====
-- The start of a run in which nothing fails, and what a run keeps.
use containerlab.DependencyManager.Node.{NodeConfig, Manager}
use containerlab.DependencyManager.Node.Views.{is_known}
use containerlab.DependencyManager.Node.Keeping.{signal_dependers-Keeps}
use containerlab.DependencyManager.Node.History.{Dependency}
use containerlab.DependencyManager.Check.{get_nodes}
use containerlab.Core.Dependencies.Recording.{Records}
use containerlab.Core.Dependencies.Planned.{planned}
use containerlab.Core.Scheduling.{
  Lab, advance, Move, enters, takes, completes, tests, Runs, start, more, all_waiting, scheduled,
}
use containerlab.Core.Scheduling.Steps.{lookup-all_waiting}
use containerlab.Core.Scheduling.Ordering.{Inv-created}
use containerlab.Core.Scheduling.Counting.{held, total}
use containerlab.Core.Scheduling.Running.{Running, Running-Move}
use containerlab.Base.{
  ℕ, suc, String, ◌≡◌, refl, sym, ap, ◌∙◌, subst, List, [], ◌∷◌, arith, ltb, if◌then◌else◌,
}
use containerlab.Base.Lists.{length, Distinct}
use containerlab.Base.GoMap.{GoMap, keys}

length-all_waiting : (dm : Manager) → length (all_waiting dm) ≡ length dm
length-all_waiting [] = refl
length-all_waiting ((n, node) ∷ dm) = ap suc (length-all_waiting dm)

keys-all_waiting : (dm : Manager) → keys (all_waiting dm) ≡ keys (get_nodes dm)
unfolding get_nodes
keys-all_waiting [] = refl
keys-all_waiting ((n, node) ∷ dm) = ap (λ l. n ∷ l) (keys-all_waiting dm)

pub length-get_nodes : (dm : Manager) → length (get_nodes dm) ≡ length dm
unfolding get_nodes
length-get_nodes [] = refl
length-get_nodes ((n, node) ∷ dm) = ap suc (length-get_nodes dm)

held_at_start : (dm : Manager) → total held (all_waiting dm) ≡ 0
held_at_start [] = refl
held_at_start ((n, node) ∷ dm) = omega (arith, held_at_start dm)

-- The workers that are started.
abbrev pub workers_of : Manager → ℕ → ℕ
workers_of dm w = if ltb (length dm) w then length dm else w

pub Running-scheduled :
    (nodes : GoMap NodeConfig) (dm : Manager) (w : ℕ)
    → Distinct (keys nodes)
    → Records nodes (planned nodes) dm
    → Running (planned nodes) [] (workers_of dm w) (length dm) (scheduled dm w)
unfolding scheduled
Running-scheduled nodes dm w u r = record {
  inv = Inv-created nodes dm w r;
  fits = record {
    sized = omega (arith, held_at_start dm);
    counted = length-all_waiting dm;
    distinct =
        subst Distinct
          (sym (keys-all_waiting dm ∙ ap (λ (m : GoMap NodeConfig). keys m) r.same_nodes)) u;
    fine = λ n. ground (arith, lookup-all_waiting dm n);
    placed = λ n k. ground (arith, lookup-all_waiting dm n, k);
  };
  passed = λ n x b. absurd (ground (arith, b, lookup-all_waiting dm n));
  marked = r.marked;
}

same_nodes-Move : (s t : Lab) → Move s t → (n : String) → is_known t.dm n ≡ is_known s.dm n
unfolding advance
same_nodes-Move s t (enters n stage p q node at e l m same) x = rw same refl
same_nodes-Move s t (takes n k at free same) x = rw same refl
same_nodes-Move s t (completes n stage p q dm at e d same) x =
    rw same ((signal_dependers-Keeps s.dm dm n stage d).same_known x)
same_nodes-Move s t (tests n stage p q r node at e l same) x = rw same refl

pub same_nodes-Runs : (s t : Lab) → Runs s t → (n : String) → is_known t.dm n ≡ is_known s.dm n
same_nodes-Runs s t start n = refl
same_nodes-Runs s t (more {t = u} r m) n = same_nodes-Move u t m n ∙ same_nodes-Runs s u r n

pub Running-Runs :
    (deps : List Dependency) (w c : ℕ) (s t : Lab)
    → ((ds : List (String × String)) × Running deps ds w c s)
    → Runs s t
    → (ds : List (String × String)) × Running deps ds w c t
Running-Runs deps w c s t i start = i
Running-Runs deps w c s t i (more {t = u} r m) =
    let (ds, j) = Running-Runs deps w c s u i r in Running-Move deps ds w c u t j m
