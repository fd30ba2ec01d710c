-- ===== src/Links/VethDeploy.antt =====
-- links/link_veth.go: the deployment of a veth link, which the nodes at its two ends trigger.
pub mod Ends
pub mod States
mod Samples
use containerlab.Links.{LinkDeploymentState, not_deployed, half_deployed, full_deployed, removed}
use containerlab.Base.{
  ℕ, zero, suc, ◌+◌, ◌-◌, ◌*◌, ◌/◌, ◌%◌, ◌^◌, ◌≤◌, ◌<◌, String, ◌≡◌, refl, sym, ap, ◌∙◌, subst, ◌≢◌,
  ◌↔◌, ◌⊎◌, inl, inr, Bool, true, false, not, ◌&&◌, ◌||◌, Option, none, some, List, [], ◌∷◌, ◌++◌,
  map, arith, str_eq, eq_iff, eq_refl, ltb, leb, ◌==◌, if◌then◌else◌, Bool-cases, is_some, is_empty,
  Error, Outcome, ok, fail, panic, ◌>>=◌, deref, >>=-eq-ok, deref-eq-ok, is_ok, eq-ok_of_is_ok,
}
use containerlab.Base.Lists.{length, length-append, elem, Distinct, elem-append, slice}
use containerlab.Base.GoMap.{
  GoMap, lookup, insert, keys, lookup-insert, elem-keys-insert, lookup-eq-none,
}

-- An error of netlink, by isTransientNetlinkErr, and the error of a context that is done.
pub data Failure : Type 0 where
  transient permanent cancelled : Failure

-- The host. An end of the link is the index of its endpoint; a call that succeeds returns `none`.
-- `attach` is AddLinkToContainer with SetNameMACAndUpInterface, `is_done` the select that waits
-- before the next attempt, `is_nodeless` the method of the endpoint's kind.
pub record VethHost : Type 1 where
  pub State : Type 0
  pub is_nodeless : ℕ → Bool
  pub link_add : ℕ → State → Option Failure × State
  pub link_del : ℕ → State → Option Failure × State
  pub link_by_name : ℕ → State → Option Failure × State
  pub tx_off : ℕ → State → Option Failure × State
  pub attach : ℕ → State → Option Failure × State
  pub is_done : ℕ → State → Bool × State

-- A link with two endpoints, by their addresses.
pub record LinkVeth (S : Type 0) : Type 0 where
  pub endpoints : List ℕ
  pub deployment_state : LinkDeploymentState
  pub host : S

abbrev pub Deploy : Type 0 → Type 0
Deploy S = LinkVeth S → Option Failure × LinkVeth S

module _ {S : Type 0} where
  unfoldable pub after : LinkVeth S → Option Failure × S → Option Failure × LinkVeth S
  after l (e, host) = (e, record l { host = host })

  -- if err := call; err != nil { return handler(err) }
  unfoldable pub on_error :
      Option Failure × LinkVeth S → (Failure → Deploy S) → Deploy S → Option Failure × LinkVeth S
  on_error (none, l) handler rest = rest l
  on_error (some e, l) handler rest = handler e l

  abbrev pub returned : Failure → Deploy S
  returned e l = (some e, l)

-- The helper cleanup of deployAEnd: the error of the deletion is dropped.
unfoldable pub cleanup_veth : (H : VethHost) → ℕ → Failure → Deploy H.State
unfolding after
cleanup_veth H idx e l = (some e, (after l (H.link_del idx l.host)).1)

-- deployBEnd
unfoldable pub deploy_b_end : (H : VethHost) → ℕ → Deploy H.State
unfolding after on_error
deploy_b_end H idx l = on_error (after l (H.link_by_name idx l.host)) returned λ l.
    on_error (after l (H.tx_off idx l.host)) returned λ l.
      on_error (after l (H.attach idx l.host)) returned
        λ l. (none, record l { deployment_state = full_deployed })

-- deployAEnd
unfoldable pub deploy_a_end : (H : VethHost) → ℕ → Deploy H.State
unfolding after on_error cleanup_veth deploy_b_end
deploy_a_end H idx l = on_error (after l (H.link_add idx l.host)) returned λ l.
    on_error (after l (H.tx_off idx l.host)) (cleanup_veth H idx) λ l.
      on_error (after l (H.attach idx l.host)) (cleanup_veth H idx) λ l.
        if H.is_nodeless ((idx + 1) % 2)
        then deploy_b_end H ((idx + 1) % 2) (record l { deployment_state = half_deployed })
        else (none, record l { deployment_state = half_deployed })

-- The loop of getEndpointIndex, from the index `idx` on.
unfoldable pub index_from : ℕ → List ℕ → ℕ → Option ℕ
index_from idx [] ep = none
index_from idx (e ∷ es) ep = if e == ep then some idx else index_from (idx + 1) es ep

-- getEndpointIndex
unfoldable pub get_endpoint_index : {S : Type 0} → LinkVeth S → ℕ → Option ℕ
unfolding index_from
get_endpoint_index l ep = index_from 0 l.endpoints ep

-- The switch of Deploy, where the link is not deployed in full.
unfoldable pub deploy_end : (H : VethHost) → LinkDeploymentState → ℕ → Deploy H.State
unfolding deploy_a_end deploy_b_end
deploy_end H half_deployed idx = deploy_b_end H idx
deploy_end H _ idx = deploy_a_end H idx

-- The select of Deploy: the context may be done before the next attempt.
unfoldable pub waited : {S : Type 0} → Bool × S → Failure → (Failure → Deploy S) → Deploy S
waited (true, host) e again l = (some cancelled, record l { host = host })
waited (false, host) e again l = again e (record l { host = host })

-- The rest of a round of Deploy, after an attempt: only a transient error is tried again.
unfoldable pub judge :
    (H : VethHost)
    → ℕ
    → Option Failure × LinkVeth H.State
    → (Failure → Deploy H.State)
    → Option Failure × LinkVeth H.State
unfolding waited
judge H attempt (none, l) again = (none, l)
judge H attempt (some transient, l) again = waited (H.is_done attempt l.host) transient again l
judge H attempt (some e, l) again = (some e, l)

-- One round of the loop of Deploy.
unfoldable pub deploy_round :
    (H : VethHost) → LinkDeploymentState → ℕ → ℕ → (Failure → Deploy H.State) → Deploy H.State
unfolding judge deploy_end
deploy_round H full_deployed attempt idx again l = (none, l)
deploy_round H state attempt idx again l = judge H attempt (deploy_end H state idx l) again

-- The attempts of Deploy: `left` more, of which this is the number `attempt`.
unfoldable pub deploy_loop : (H : VethHost) → ℕ → ℕ → ℕ → Option Failure → Deploy H.State
unfolding deploy_round
deploy_loop H zero attempt idx last_err l = (last_err, l)
deploy_loop H (suc left) attempt idx last_err l =
    deploy_round H l.deployment_state attempt idx
      (λ e. deploy_loop H left (attempt + 1) idx (some e)) l

abbrev pub link_deploy_retries : ℕ
link_deploy_retries = 3

-- Deploy, with the mutex of the link taken, where the endpoint has this index. An endpoint of
-- another link is refused.
unfoldable pub deploy_at : (H : VethHost) → Option ℕ → Deploy H.State
unfolding deploy_loop
deploy_at H none l = (some permanent, l)
deploy_at H (some idx) l = deploy_loop H link_deploy_retries 0 idx none l

unfoldable pub deploy : (H : VethHost) → ℕ → Deploy H.State
unfolding get_endpoint_index deploy_at
deploy H ep l = deploy_at H (get_endpoint_index l ep) l
