-- ===== src/Core/Scheduling/Places.antt =====
-- What the place of a node says about its stages.
use containerlab.Types.Stages.{
  wait_for_create, wait_for_create_links, wait_for_configure, wait_for_healthy, wait_for_exit,
}
use containerlab.Core.Scheduling.{
  Pc, waiting, queued, deploying, created, linking, linked, configuring, configured,
  awaiting_health, checking, checked, awaiting_exit, watching, over, failed_deploy, failed_links,
  entry, completion, test, abandonment,
}
use containerlab.Base.{
  String, ◌≡◌, refl, subst, Bool, true, false, Option, none, some, List, [], ◌∷◌, arith,
  if◌then◌else◌,
}
use containerlab.Base.Lists.{elem}

-- The stages that are behind the node: it has finished or skipped them.
abbrev pub behind : Pc → List String
behind waiting = []
behind queued = []
behind deploying = []
behind failed_deploy = []
behind created = wait_for_create ∷ []
behind linking = wait_for_create ∷ []
behind failed_links = wait_for_create ∷ []
behind linked = wait_for_create_links ∷ wait_for_create ∷ []
behind configuring = wait_for_create_links ∷ wait_for_create ∷ []
behind configured = wait_for_configure ∷ wait_for_create_links ∷ wait_for_create ∷ []
behind awaiting_health = wait_for_configure ∷ wait_for_create_links ∷ wait_for_create ∷ []
behind checking = wait_for_configure ∷ wait_for_create_links ∷ wait_for_create ∷ []
behind checked =
    wait_for_healthy ∷ wait_for_configure ∷ wait_for_create_links ∷ wait_for_create ∷ []
behind awaiting_exit =
    wait_for_healthy ∷ wait_for_configure ∷ wait_for_create_links ∷ wait_for_create ∷ []
behind watching =
    wait_for_healthy ∷ wait_for_configure ∷ wait_for_create_links ∷ wait_for_create ∷ []
behind over =
    wait_for_exit ∷ wait_for_healthy ∷ wait_for_configure ∷ wait_for_create_links ∷ wait_for_create
    ∷ []

-- The stages that the node has entered on its way. The health and the exit, which may be skipped, are
-- counted while the node is in them.
abbrev pub entered : Pc → List String
entered waiting = []
entered queued = wait_for_create ∷ []
entered deploying = wait_for_create ∷ []
entered failed_deploy = wait_for_create ∷ []
entered created = wait_for_create ∷ []
entered linking = wait_for_create_links ∷ wait_for_create ∷ []
entered failed_links = wait_for_create_links ∷ wait_for_create ∷ []
entered linked = wait_for_create_links ∷ wait_for_create ∷ []
entered configuring = wait_for_configure ∷ wait_for_create_links ∷ wait_for_create ∷ []
entered configured = wait_for_configure ∷ wait_for_create_links ∷ wait_for_create ∷ []
entered awaiting_health = wait_for_configure ∷ wait_for_create_links ∷ wait_for_create ∷ []
entered checking =
    wait_for_healthy ∷ wait_for_configure ∷ wait_for_create_links ∷ wait_for_create ∷ []
entered checked = wait_for_configure ∷ wait_for_create_links ∷ wait_for_create ∷ []
entered awaiting_exit = wait_for_configure ∷ wait_for_create_links ∷ wait_for_create ∷ []
entered watching = wait_for_exit ∷ wait_for_configure ∷ wait_for_create_links ∷ wait_for_create ∷ []
entered over = wait_for_configure ∷ wait_for_create_links ∷ wait_for_create ∷ []

pub entry-places :
    (p q : Pc) (stage : String)
    → entry p ≡ some (stage, q)
    → (entered q ≡ stage ∷ entered p) × (behind q ≡ behind p)
unfolding entry
entry-places p q stage h = ground arith

pub completion-behind :
    (p q : Pc) (stage : String) → completion p ≡ some (stage, q) → behind q ≡ stage ∷ behind p
unfolding completion
completion-behind p q stage h = ground arith

abbrev IsAhead : Option (String × Pc) → Pc → Type 0
IsAhead none p = Unit
IsAhead (some (stage, q)) p = elem stage (behind p) ≡ false

IsAhead-completion : (p : Pc) → IsAhead (completion p) p
unfolding completion
IsAhead-completion deploying = refl
IsAhead-completion linking = refl
IsAhead-completion configuring = refl
IsAhead-completion checking = refl
IsAhead-completion watching = refl
IsAhead-completion waiting = tt
IsAhead-completion queued = tt
IsAhead-completion created = tt
IsAhead-completion linked = tt
IsAhead-completion configured = tt
IsAhead-completion awaiting_health = tt
IsAhead-completion checked = tt
IsAhead-completion awaiting_exit = tt
IsAhead-completion over = tt
IsAhead-completion failed_deploy = tt
IsAhead-completion failed_links = tt

-- No stage is completed twice.
pub completion-ahead :
    (p q : Pc) (stage : String) → completion p ≡ some (stage, q) → elem stage (behind p) ≡ false
completion-ahead p q stage h = subst (λ o. IsAhead o p) h (IsAhead-completion p)

pub completion-entered :
    (p q : Pc) (stage s : String)
    → completion p ≡ some (stage, q)
    → elem s (entered q) ≡ true
    → elem s (entered p) ≡ true
unfolding completion
completion-entered p q stage s h e = ground arith

-- A test leads on with the same stages, or skips its stage.
pub test-behind :
    (p q r : Pc) (stage : String)
    → test p ≡ some (stage, q, r)
    → (behind q ≡ behind p) × (behind r ≡ stage ∷ behind p)
unfolding test
test-behind p q r stage h = ground arith

pub test-entered :
    (p q r : Pc) (stage s : String) (b : Bool)
    → test p ≡ some (stage, q, r)
    → elem s (entered (if b then q else r)) ≡ true
    → elem s (entered p) ≡ true
unfolding test
test-entered p q r stage s b h e = ground arith

pub abandonment-behind :
    (p q : Pc) (s : String)
    → abandonment p ≡ some q
    → elem s (behind p) ≡ true
    → elem s (behind q) ≡ true
unfolding abandonment
abandonment-behind p q s h e = ground arith

pub abandonment-entered :
    (p q : Pc) (s : String)
    → abandonment p ≡ some q
    → elem s (entered q) ≡ true
    → elem s (entered p) ≡ true
unfolding abandonment
abandonment-entered p q s h e = ground arith
