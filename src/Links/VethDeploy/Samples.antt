-- ===== src/Links/VethDeploy/Samples.antt =====
-- Runs of Deploy on a host whose calls to attach an end may fail.
use containerlab.Links.{half_deployed, LinkDeploymentState, not_deployed, full_deployed}
use containerlab.Links.VethDeploy.{
  permanent, Failure, transient, VethHost, LinkVeth, get_endpoint_index, index_from, deploy,
  deploy_at, deploy_loop, deploy_round, deploy_end, judge, waited, deploy_a_end, deploy_b_end,
  cleanup_veth, after, on_error,
}
use containerlab.Links.VethDeploy.States.{Reached, Left, deploy-Reached}
use containerlab.Links.VethDeploy.Ends.{Ends}
use containerlab.Base.{
  ◌≡◌, refl, Bool, true, false, ◌&&◌, Option, none, some, List, [], ◌∷◌, ◌==◌, if◌then◌else◌,
}

-- The answers to the next calls of `attach`, in the place of the host's state.
unfoldable attach_answer : List (Option Failure) → Option Failure × List (Option Failure)
attach_answer [] = (none, [])
attach_answer (r ∷ rs) = (r, rs)

abbrev host_with_peer : Bool → VethHost
host_with_peer nodeless = record {
  State = List (Option Failure);
  is_nodeless = λ i. nodeless && (i == 1);
  link_add = λ i s. (none, s);
  link_del = λ i s. (none, s);
  link_by_name = λ i s. (none, s);
  tx_off = λ i s. (none, s);
  attach = λ i s. attach_answer s;
  is_done = λ i s. (false, s);
}

abbrev sample_link : LinkDeploymentState → List (Option Failure) → LinkVeth (List (Option Failure))
sample_link state answers = record {
  endpoints = 10 ∷ 20 ∷ [];
  deployment_state = state;
  host = answers;
}

deploy-Reached_example :
    Ends
      (Reached
        (host_with_peer true)
        0
        true
        not_deployed
        (sample_link not_deployed (some transient ∷ [])))
      (Left (host_with_peer true) 0 true not_deployed)
      (deploy (host_with_peer true) 10 (sample_link not_deployed (some transient ∷ [])))
unfolding get_endpoint_index index_from
deploy-Reached_example =
    deploy-Reached (host_with_peer true) 10 0 (sample_link not_deployed (some transient ∷ [])) refl

-- The first attempt fails, the second deploys both ends.
deploy_retried :
    deploy (host_with_peer true) 10 (sample_link not_deployed (some transient ∷ []))
    ≡ (none, sample_link full_deployed [])
unfolding deploy deploy_at deploy_loop deploy_round deploy_end judge waited deploy_a_end
    deploy_b_end cleanup_veth after on_error get_endpoint_index index_from attach_answer
deploy_retried = refl

-- Each of two nodes deploys its end.
deploy_both :
    (deploy
      (host_with_peer false)
      20
      (deploy (host_with_peer false) 10 (sample_link not_deployed [])).1)
    ≡ (none, sample_link full_deployed [])
unfolding deploy deploy_at deploy_loop deploy_round deploy_end judge waited deploy_a_end
    deploy_b_end cleanup_veth after on_error get_endpoint_index index_from attach_answer
deploy_both = refl

-- A host whose node 0 has its end already: the name of this end is unknown outside.
abbrev host_without_a_end : VethHost
host_without_a_end = record (host_with_peer true) {
  link_by_name = λ i s. (if i == 0 then some permanent else none, s);
}

-- Where the B end, which belongs to no node, fails once, the A end is looked up in its place.
deploy_retries_a_end :
    deploy host_without_a_end 10 (sample_link not_deployed (none ∷ some transient ∷ []))
    ≡ (some permanent, sample_link half_deployed [])
unfolding deploy deploy_at deploy_loop deploy_round deploy_end judge waited deploy_a_end
    deploy_b_end cleanup_veth after on_error get_endpoint_index index_from attach_answer
deploy_retries_a_end = refl
