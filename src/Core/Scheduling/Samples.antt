-- ===== src/Core/Scheduling/Samples.antt =====
-- Runs of a small lab, and the theorems about the scheduling at them.
use containerlab.Types.Text.{split_n2}
use containerlab.DependencyManager.Node.{signal_dependers, may_enter}
use containerlab.Core.Dependencies.{create_nodes, static_ip_nodes, dyn_ip_nodes}
use containerlab.Core.Dependencies.Planned.{planned}
use containerlab.Core.Dependencies.Waits.{waits_at}
use containerlab.Core.Dependencies.Progress.{AtStages}
use containerlab.Core.Samples.{
  lab, made, node_of, manager_of, new_stages-IsComplete, waiting_stages-IsComplete,
}
use containerlab.Core.Scheduling.{
  waiting, queued, deploying, created, failed_deploy, over, entry, completion, abandonment, freed,
  Lab, advance, Move, enters, takes, completes, Fault, abandons, moves, fails, here, next, Runs,
  start, more, scheduled,
}
use containerlab.Core.Scheduling.Invariant.{has_behind, has_entered}
use containerlab.Core.Scheduling.Ordering.{has_failed, entered_after, failure_blocks}
use containerlab.DependencyManager.Node.Keeping.{must_wait_of}
use containerlab.Core.Scheduling.Plan.{Plan, PlanRuns, view}
use containerlab.Core.Scheduling.Refinement.{implements_plan, views, plan_states}
use containerlab.Core.Scheduling.AnyWorkers.{AtCreation, any_workers_suffice}
use containerlab.Core.Scheduling.Termination.{CanFinish, all_over}
use containerlab.Base.{String, ◌≡◌, refl, true, false, some, arith, ok}
use containerlab.Base.Lists.{elem}
use containerlab.Base.GoMap.{lookup, insert, keys}

made_of_lab : create_nodes lab ≡ ok made
unfolding create_nodes advance lookup insert
made_of_lab = refl

abbrev started : Lab
started = scheduled made 2

abbrev a_queued : Lab
a_queued = advance started "a" queued

abbrev a_taken : Lab
a_taken = record a_queued { places = insert "a" deploying a_queued.places; idle = 1 }

abbrev a_done : Lab
a_done =
    advance (record a_taken { dm = manager_of (signal_dependers made "a" "create") }) "a" created

abbrev b_queued : Lab
b_queued = advance a_done "b" queued

a_enters : Move started a_queued
unfolding scheduled entry may_enter create_nodes advance lookup insert
a_enters = enters "a" "create" waiting queued (node_of (lookup "a" made)) refl refl refl refl refl

a_takes : Move a_queued a_taken
unfolding scheduled lookup insert create_nodes advance freed
a_takes = takes "a" 1 refl refl refl

a_completes : Move a_taken a_done
unfolding scheduled lookup insert create_nodes advance completion signal_dependers freed
a_completes =
    completes "a" "create" deploying created (manager_of (signal_dependers made "a" "create")) refl
      refl refl refl

b_enters : Move a_done b_queued
unfolding scheduled lookup insert create_nodes advance entry may_enter signal_dependers freed
b_enters =
    enters "b" "create" waiting queued (node_of (lookup "b" a_done.dm)) refl refl refl refl refl

a_fails : Fault a_taken (advance a_taken "a" failed_deploy)
unfolding scheduled lookup insert create_nodes advance abandonment
a_fails = abandons "a" deploying failed_deploy refl refl refl

b_is_queued : has_entered "create" (lookup "b" b_queued.places) ≡ true
unfolding scheduled lookup insert create_nodes advance
b_is_queued = refl

b_waits : waits_at "b" "create" "a" "create" (planned lab) ≡ true
unfolding static_ip_nodes dyn_ip_nodes split_n2
b_waits = refl

a_has_failed : has_failed (lookup "a" (advance a_taken "a" failed_deploy).places) ≡ true
unfolding scheduled lookup insert create_nodes advance
a_has_failed = refl

a_not_created : has_behind "create" (lookup "a" (advance a_taken "a" failed_deploy).places) ≡ false
unfolding scheduled lookup insert create_nodes advance
a_not_created = refl

entered_after_example : has_behind "create" (lookup "a" b_queued.places) ≡ true
entered_after_example =
    entered_after lab made 2 b_queued "b" "create" "a" "create"
      (new_stages-IsComplete, (waiting_stages-IsComplete, tt)) (refl, (refl, tt)) made_of_lab
      (next (next (next (next here (moves a_enters)) (moves a_takes)) (moves a_completes))
        (moves b_enters))
      b_is_queued b_waits

failure_blocks_example :
    has_entered "create" (lookup "b" (advance a_taken "a" failed_deploy).places) ≡ false
failure_blocks_example =
    failure_blocks lab made 2 (advance a_taken "a" failed_deploy)
      (advance a_taken "a" failed_deploy) "b" "create" "a" "create"
      (new_stages-IsComplete, (waiting_stages-IsComplete, tt)) (refl, (refl, tt)) made_of_lab
      (next (next (next here (moves a_enters)) (moves a_takes)) (fails a_fails)) a_has_failed
      a_not_created b_waits here

planned-AtStages : AtStages (planned lab)
unfolding static_ip_nodes dyn_ip_nodes split_n2
planned-AtStages = (refl, (refl, (refl, tt)))

planned-AtCreation : AtCreation (planned lab)
unfolding static_ip_nodes dyn_ip_nodes split_n2
planned-AtCreation = (refl, (refl, (refl, tt)))

any_workers_suffice_example : CanFinish lab (scheduled made 1)
any_workers_suffice_example =
    any_workers_suffice lab made 1 (scheduled made 1)
      (new_stages-IsComplete, (waiting_stages-IsComplete, tt)) (refl, (refl, tt)) made_of_lab
      planned-AtStages planned-AtCreation (omega arith) start

all_over_example :
    (t : Lab) × Runs b_queued t
    × ((n : String) → elem n (keys lab) ≡ true → lookup n t.places ≡ some over)
all_over_example =
    all_over lab made 2 b_queued (new_stages-IsComplete, (waiting_stages-IsComplete, tt))
      (refl, (refl, tt)) made_of_lab planned-AtStages (omega arith)
      (more (more (more (more start a_enters) a_takes) a_completes) b_enters)

implements_plan_example :
    ((s : Lab) (r : Runs (scheduled made 1) s)
      → (p : PlanRuns (planned lab) (must_wait_of made) (view (scheduled made 1)) (view s))
        × (plan_states p ≡ views r))
    × ((b : Plan) (p : PlanRuns (planned lab) (must_wait_of made) (view (scheduled made 1)) b)
        → (s : Lab) × (view s ≡ b) × (r : Runs (scheduled made 1) s) × (views r ≡ plan_states p))
implements_plan_example =
    implements_plan lab made 1 (new_stages-IsComplete, (waiting_stages-IsComplete, tt))
      (refl, (refl, tt)) made_of_lab
