-- ===== src/Nodes/Lifecycle/Commands.antt =====
-- The commands of a node run again when it starts.
use containerlab.Base.{
  ℕ, String, ◌≡◌, refl, ◌∙◌, ◌⊎◌, inl, inr, Bool, true, false, not, ◌&&◌, Option, none, some, List,
  [], ◌∷◌, Bool-cases, Error, Outcome, ok, fail, panic, is_ok,
}
use containerlab.Links.Store.{Host, M, returning, pure, Store, and_then, caught}
use containerlab.Nodes.Lifecycle.{default_run_exec, run_exec, parsed_command, run_commands}

-- Can every command be split into words?
abbrev pub all_split : (H : Host) → List String → Bool
all_split H [] = true
all_split H (e ∷ es) = is_ok (H.shlex_split e) && all_split H es

abbrev pub is_panic : {A : Type 0} → Outcome A → Bool
is_panic panic = true
is_panic _ = false

module _ {S : Type 0} where
  -- After a call that did not panic, the next one runs, whatever the first returned.
  skipped :
      (r : Outcome (Unit {0}) × Store S) (f : M S (Unit {0}))
      → is_panic r.0 ≡ false
      → and_then (and_then (caught r) λ _. pure tt) (λ _. f) ≡ f r.1
  unfolding and_then caught
  skipped (ok a, s) f h = refl
  skipped (fail e, s) f h = refl
  skipped (panic, s) f h = cc

  quiet_returning :
      (r : Outcome (Unit {0}) × S) (s : Store S)
      → is_panic r.0 ≡ false
      → is_panic (returning r s).0 ≡ false
  unfolding returning
  quiet_returning (o, h) s q = q

module _ (H : Host) where
  -- What RunExec does with a command, and to the store, by whether the kind of the node refuses it.
  run_exec-refused :
      (n : ℕ) (cmd : Option (List String)) (s : Store H.State)
      → (s.node n).refuses_exec ≡ true
      → run_exec H n cmd s ≡ (fail Error.exec_not_supported, s)
  unfolding run_exec
  run_exec-refused n cmd s refused = rw refused refl

  run_exec-kept :
      (n : ℕ) (cmd : Option (List String)) (s : Store H.State)
      → (s.node n).refuses_exec ≡ false
      → run_exec H n cmd s ≡ default_run_exec H n cmd s
  unfolding run_exec
  run_exec-kept n cmd s kept = rw kept refl

  same_kind :
      (n : ℕ) (cmd : Option (List String)) (s : Store H.State)
      → ((default_run_exec H n cmd s).1.node n).refuses_exec ≡ (s.node n).refuses_exec
  unfolding default_run_exec returning
  same_kind n none s = refl
  same_kind n (some cmd) s = refl

  skips :
      (n : ℕ) (es : List String) (s : Store H.State)
      → (s.node n).refuses_exec ≡ true
      → run_commands H n es s ≡ (ok tt, s)
  unfolding run_commands and_then caught
  skips n [] s refused = refl
  skips n (e ∷ es) s refused =
      rw (run_exec-refused n (parsed_command H e) s refused) (skips n es s refused)

  by_default :
      (quiet : (name : String) (cmd : List String) (h : H.State)
        → is_panic (H.exec name cmd h).0 ≡ false)
      (n : ℕ) (es : List String) (s : Store H.State)
      → (s.node n).refuses_exec ≡ false
      → is_panic (run_commands H n es s).0 ≡ not (all_split H es)
  unfolding run_commands default_run_exec parsed_command and_then caught
  by_default quiet n [] s kept = refl
  by_default quiet n (e ∷ es) s kept = parsed (H.shlex_split e) refl (
      by_default quiet n es (default_run_exec H n (parsed_command H e) s).1
        (same_kind n (parsed_command H e) s ∙ kept))
    where
      parsed :
          (o : Outcome (List String))
          → H.shlex_split e ≡ o
          → is_panic (run_commands H n es (default_run_exec H n (parsed_command H e) s).1).0
            ≡ not (all_split H es)
          → is_panic (run_commands H n (e ∷ es) s).0 ≡ not (all_split H (e ∷ es))
      parsed (fail error) o rest =
          rw (run_exec-kept n (parsed_command H e) s kept) (rw (o, parsed_command) refl)
      parsed panic o rest =
          rw (run_exec-kept n (parsed_command H e) s kept) (rw (o, parsed_command) refl)
      parsed (ok cmd) o rest = rw (run_exec-kept n (parsed_command H e) s kept) (
          rw
            (
              o,
              parsed_command,
              skipped (default_run_exec H n (some cmd) s) (run_commands H n es) (
                  quiet_returning (H.exec (s.node n).container_name cmd s.host) s
                    (quiet (s.node n).container_name cmd s.host)),
            )
            (rw (o, parsed_command) at rest))

  -- Where the kind of the node refuses every command, RunExecFromConfig does nothing; where it keeps
  -- RunExec of the default node, RunExecFromConfig panics if and only if a command of the node
  -- cannot be split into words, provided that the calls of the runtime themselves do not panic: an
  -- error of the runtime is skipped, but a command that was not parsed is used all the same.
  pub run_commands-is_panic :
      (quiet : (name : String) (cmd : List String) (h : H.State)
        → is_panic (H.exec name cmd h).0 ≡ false)
      (n : ℕ) (es : List String) (s : Store H.State)
      → (((s.node n).refuses_exec ≡ true) × (run_commands H n es s ≡ (ok tt, s)))
        ⊎ (((s.node n).refuses_exec ≡ false)
            × (is_panic (run_commands H n es s).0 ≡ not (all_split H es)))
  run_commands-is_panic quiet n es s = elim (Bool-cases (s.node n).refuses_exec) [
    | inl refused ↦ inl (refused, skips n es s refused)
    | inr kept ↦ inr (kept, by_default quiet n es s kept)
  ]
