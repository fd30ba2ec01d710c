-- ===== src/Core/Scheduling/Next.antt =====
-- What may come next at the place of a node.
use containerlab.Types.Stages.{get_wait_for_stages}
use containerlab.Core.Scheduling.{
  Pc, waiting, queued, deploying, created, linking, linked, configuring, configured,
  awaiting_health, checking, checked, awaiting_exit, watching, over, failed_deploy, failed_links,
  entry, completion, test,
}
use containerlab.Core.Scheduling.Ordering.{has_failed}
use containerlab.Core.Scheduling.Counting.{held, total, held-queued}
use containerlab.Base.{
  ℕ, zero, suc, ◌+◌, ◌≤◌, String, ◌≡◌, refl, subst, true, Option, none, some, arith,
}
use containerlab.Base.Lists.{length, elem}
use containerlab.Base.GoMap.{GoMap, lookup}

-- What may come next at a place.
pub data Next (p : Pc) : Type 0 where
  entering :
      (stage : String) (q : Pc)
      → entry p ≡ some (stage, q)
      → elem stage get_wait_for_stages ≡ true
      → Next p
  completing : (stage : String) (q : Pc) → completion p ≡ some (stage, q) → Next p
  testing : (stage : String) (q r : Pc) → test p ≡ some (stage, q, r) → Next p
  queueing : p ≡ queued → Next p
  finishing : p ≡ over → Next p
  failing : has_failed (some p) ≡ true → Next p

pub Next-cases : (p : Pc) → Next p
unfolding entry completion test
Next-cases waiting = entering _ _ refl refl
Next-cases queued = queueing refl
Next-cases deploying = completing _ _ refl
Next-cases created = entering _ _ refl refl
Next-cases linking = completing _ _ refl
Next-cases linked = entering _ _ refl refl
Next-cases configuring = completing _ _ refl
Next-cases configured = testing _ _ _ refl
Next-cases awaiting_health = entering _ _ refl refl
Next-cases checking = completing _ _ refl
Next-cases checked = testing _ _ _ refl
Next-cases awaiting_exit = entering _ _ refl refl
Next-cases watching = completing _ _ refl
Next-cases over = finishing refl
Next-cases failed_deploy = failing refl
Next-cases failed_links = failing refl

abbrev IsAStage : Option (String × Pc) → Type 0
IsAStage none = Unit
IsAStage (some (stage, q)) = elem stage get_wait_for_stages ≡ true

IsAStage-entry : (p : Pc) → IsAStage (entry p)
unfolding entry
IsAStage-entry waiting = refl
IsAStage-entry created = refl
IsAStage-entry linked = refl
IsAStage-entry awaiting_health = refl
IsAStage-entry awaiting_exit = refl
IsAStage-entry queued = tt
IsAStage-entry deploying = tt
IsAStage-entry linking = tt
IsAStage-entry configuring = tt
IsAStage-entry configured = tt
IsAStage-entry checking = tt
IsAStage-entry checked = tt
IsAStage-entry watching = tt
IsAStage-entry over = tt
IsAStage-entry failed_deploy = tt
IsAStage-entry failed_links = tt

pub entry-stage :
    (p q : Pc) (stage : String) → entry p ≡ some (stage, q) → elem stage get_wait_for_stages ≡ true
entry-stage p q stage h = subst IsAStage h (IsAStage-entry p)

pub idle_worker :
    (w : ℕ) (a : GoMap Pc) (idle : ℕ) (n : String)
    → idle + total held a ≡ w
    → length a ≤ w
    → lookup n a ≡ some queued
    → (k : ℕ) × (idle ≡ suc k)
idle_worker w a zero n h l at = absurd (omega (arith, held-queued n a at))
idle_worker w a (suc k) n h l at = (k, refl)
