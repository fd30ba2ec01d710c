-- ===== src/Links/VethDeploy/States.antt =====
-- Which states of deployment a call of Deploy may lead to, and by which calls of the host.
use containerlab.Links.VethDeploy.Ends.{
  Ends-weaken, Joined, Finished, IsHalf, rested, Ends, returns, fails, Unfinished, Begun, Continued,
  is_peer_nodeless, a_end-Ends, b_end-Ends,
}
use containerlab.Links.VethDeploy.{
  get_endpoint_index, deploy_at, deploy, deploy_loop, permanent, cancelled, transient, deploy_end,
  waited, judge, deploy_round, VethHost, Failure, LinkVeth, Deploy,
}
use containerlab.Links.{removed, not_deployed, LinkDeploymentState, half_deployed, full_deployed}
use containerlab.Base.{
  ℕ, zero, suc, ◌+◌, ◌≡◌, refl, sym, ◌∙◌, subst, ◌⊎◌, inl, inr, Bool, true, false, Option, none,
  some, arith,
}

-- What Deploy brings about by the end `idx`, if it succeeds on the link `l`; `nodeless` tells whether
-- the other end is.
unfoldable pub Reached :
    (H : VethHost) → ℕ → Bool → LinkDeploymentState → LinkVeth H.State → LinkVeth H.State → Type 0
Reached H idx nodeless full_deployed l m = m ≡ l
Reached H idx nodeless half_deployed l m = Joined H idx m
Reached H idx nodeless _ l m = Finished H idx nodeless m

-- What it may leave, if it fails.
unfoldable pub Left : (H : VethHost) → ℕ → Bool → LinkDeploymentState → LinkVeth H.State → Type 0
Left H idx nodeless full_deployed m = ⊥
Left H idx nodeless half_deployed m = IsHalf m
Left H idx nodeless start m = Unfinished H idx nodeless start m

module _ (H : VethHost) where
  waited-Ends :
      {good bad : LinkVeth H.State → Type 0} (l : LinkVeth H.State) (d : Bool × H.State)
      (again : Failure → Deploy H.State)
      → bad (record l { host = d.1 })
      → ((e : Failure) (l : LinkVeth H.State) → bad l → Ends good bad (again e l))
      → Ends good bad (waited d transient again l)
  unfolding waited
  waited-Ends l (true, h) again x retried = fails x
  waited-Ends l (false, h) again x retried = retried transient _ x

  -- A wait leaves a failed link as it is.
  Waits : (LinkVeth H.State → Type 0) → Type 0
  Waits bad =
      (attempt : ℕ) (l : LinkVeth H.State)
      → bad l
      → bad (record l { host = (H.is_done attempt l.host).1 })

  -- An attempt is judged: what fails may be tried again.
  judge-Ends :
      {good bad : LinkVeth H.State → Type 0} (attempt : ℕ) (r : Option Failure × LinkVeth H.State)
      (again : Failure → Deploy H.State)
      → Waits bad
      → Ends good bad r
      → ((e : Failure) (l : LinkVeth H.State) → bad l → Ends good bad (again e l))
      → Ends good bad (judge H attempt r again)
  unfolding judge Waits
  judge-Ends attempt (none, l) again waits (returns x) retried = returns x
  judge-Ends attempt (some transient, l) again waits (fails x) retried =
      waited-Ends l (H.is_done attempt l.host) again (waits attempt l x) retried
  judge-Ends attempt (some permanent, l) again waits (fails x) retried = fails x
  judge-Ends attempt (some cancelled, l) again waits (fails x) retried = fails x

  Waits-IsHalf : Waits IsHalf
  unfolding Waits
  Waits-IsHalf attempt l half = half

  Waits-Unfinished :
      (idx : ℕ) (nodeless : Bool) (start : LinkDeploymentState)
      → Waits (Unfinished H idx nodeless start)
  unfolding Waits
  Waits-Unfinished idx nodeless start attempt l (inl (at, clean)) = inl (at, rested attempt clean)
  Waits-Unfinished idx nodeless start attempt l (inr half) = inr half

  round-half :
      (attempt idx : ℕ) (again : Failure → Deploy H.State) (l : LinkVeth H.State)
      → IsHalf l
      → ((e : Failure) (l : LinkVeth H.State) → IsHalf l → Continued H idx (again e l))
      → Continued H idx (deploy_round H l.deployment_state attempt idx again l)
  unfolding deploy_round deploy_end
  round-half attempt idx again l at retried =
      subst (λ s. Continued H idx (deploy_round H s attempt idx again l)) (sym at)
        (judge-Ends attempt _ again Waits-IsHalf (b_end-Ends H idx l at) retried)

  -- From half a link on, every attempt deploys the B end.
  loop-half :
      (left attempt idx : ℕ) (e : Failure) (l : LinkVeth H.State)
      → IsHalf l
      → Continued H idx (deploy_loop H left attempt idx (some e) l)
  unfolding deploy_loop
  loop-half zero attempt idx e l at = fails at
  loop-half (suc left) attempt idx e l at =
      round-half attempt idx _ l at (loop-half left (attempt + 1) idx)

  -- The links that deployAEnd is called for.
  round-begin :
      (attempt idx : ℕ) (start : LinkDeploymentState) (again : Failure → Deploy H.State)
      (l : LinkVeth H.State)
      → (start ≡ not_deployed) ⊎ (start ≡ removed)
      → l.deployment_state ≡ start
      → ((e : Failure) (m : LinkVeth H.State)
          → Unfinished H idx (is_peer_nodeless H idx) start m
          → Begun H idx (is_peer_nodeless H idx) start (again e m))
      → Begun H idx
          (is_peer_nodeless H idx)
          start
          (deploy_round H l.deployment_state attempt idx again l)
  unfolding deploy_round deploy_end
  round-begin attempt idx start again l before at retried =
      let waits = Waits-Unfinished idx (is_peer_nodeless H idx) start in
      let made = a_end-Ends H idx start l at in
      elim before [
        | inl new ↦
            subst
              (λ s.
                Begun H idx (is_peer_nodeless H idx) start (deploy_round H s attempt idx again l))
              (sym (at ∙ new)) (judge-Ends attempt _ again waits made retried)
        | inr gone ↦
            subst
              (λ s.
                Begun H idx (is_peer_nodeless H idx) start (deploy_round H s attempt idx again l))
              (sym (at ∙ gone)) (judge-Ends attempt _ again waits made retried)
      ]

  -- What becomes of half a link, as what becomes of one with a nodeless end.
  half-Begun :
      (idx : ℕ) (nodeless : Bool) (start : LinkDeploymentState)
      (r : Option Failure × LinkVeth H.State)
      → nodeless ≡ true
      → Continued H idx r
      → Begun H idx nodeless start r
  unfolding Finished
  half-Begun idx true start r is c =
      Ends-weaken (λ m whole. inr whole) (λ m half. inr (refl, half)) c
  half-Begun idx false start r is c = absurd (ground (arith, is))

  -- An attempt that got as far as half a link is followed by attempts on its B end.
  loop-begin :
      (left attempt idx : ℕ) (start : LinkDeploymentState)
      → (start ≡ not_deployed) ⊎ (start ≡ removed)
      → (e : Failure) (l : LinkVeth H.State) → Unfinished H idx (is_peer_nodeless H idx) start l
      → Begun H idx (is_peer_nodeless H idx) start (deploy_loop H left attempt idx (some e) l)
  unfolding deploy_loop
  loop-begin left attempt idx start before e l (inr (nodeless, at)) =
      half-Begun idx _ start _ nodeless (loop-half left attempt idx e l at)
  loop-begin zero attempt idx start before e l (inl x) = fails (inl x)
  loop-begin (suc left) attempt idx start before e l (inl x) =
      round-begin attempt idx start _ l before x.0 (loop-begin left (attempt + 1) idx start before)

  -- Deploy, by the state it finds.
  round-Reached :
      (left idx : ℕ) (start : LinkDeploymentState) (l : LinkVeth H.State)
      → l.deployment_state ≡ start
      → Ends
          (Reached H idx (is_peer_nodeless H idx) start l)
          (Left H idx (is_peer_nodeless H idx) start)
          (deploy_loop H (suc left) 0 idx none l)
  unfolding Reached Left deploy_loop deploy_round
  round-Reached left idx full_deployed l at =
      subst
        (λ s.
          Ends (Reached H idx (is_peer_nodeless H idx) full_deployed l)
            (Left H idx (is_peer_nodeless H idx) full_deployed)
            (deploy_round H s 0 idx (λ e. deploy_loop H left 1 idx (some e)) l))
        (sym at) (returns refl)
  round-Reached left idx half_deployed l at = round-half 0 idx _ l at (loop-half left 1 idx)
  round-Reached left idx not_deployed l at =
      round-begin 0 idx not_deployed _ l (inl refl) at
        (loop-begin left 1 idx not_deployed (inl refl))
  round-Reached left idx removed l at =
      round-begin 0 idx removed _ l (inr refl) at (loop-begin left 1 idx removed (inr refl))

-- Whatever the host answers, and however often Deploy tries again, on an endpoint of the link:
-- a link that is fully deployed is returned unchanged, host and all, without an error. On half a
-- link Deploy returns no error only if it is fully deployed then, by calls that have just found,
-- prepared and attached this end, one behind the other; with an error it is half deployed still. On
-- a link that is not deployed, or removed, it returns no error only if calls have just added the
-- pair, prepared and attached this end, and the link is half deployed; or, where the other end
-- belongs to no node, the link is fully deployed and the last calls made that other end behind
-- this one, or else this end by the calls for a B end, in a further attempt. With an error the
-- deployment state is the one it found, and the last calls but the waits were a refused
-- addition of the pair or its deletion (which may have failed, as its error is dropped); or the
-- link is half deployed, and the other end belongs to no node.
pub deploy-Reached :
    (H : VethHost) (ep idx : ℕ) (l : LinkVeth H.State)
    → get_endpoint_index l ep ≡ some idx
    → Ends
        (Reached H idx (is_peer_nodeless H idx) l.deployment_state l)
        (Left H idx (is_peer_nodeless H idx) l.deployment_state)
        (deploy H ep l)
unfolding deploy
deploy-Reached H ep idx l found =
    subst
      (λ r.
        Ends (Reached H idx (is_peer_nodeless H idx) l.deployment_state l)
          (Left H idx (is_peer_nodeless H idx) l.deployment_state) (deploy_at H r l))
      (sym found) (round-Reached H 2 idx l.deployment_state l refl)
