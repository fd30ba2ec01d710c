-- ===== src/Links/VethDeploy/Ends.antt =====
-- The outcomes of deployAEnd and deployBEnd: the state of the deployment that they leave, and the calls
-- of the host that led to it.
use containerlab.Base.{
  ℕ, ◌+◌, ◌%◌, ◌≡◌, refl, sym, subst, ◌⊎◌, inl, inr, Bool, true, false, Option, none, some, List,
  [], ◌∷◌, ◌++◌, if◌then◌else◌,
}
use containerlab.Links.VethDeploy.{
  deploy_b_end, deploy_a_end, cleanup_veth, VethHost, Failure, LinkVeth, Deploy, after, on_error,
}
use containerlab.Links.{LinkDeploymentState, half_deployed, full_deployed}

-- The links that a call leaves lie in `good` if it returned no error, and in `bad` if it failed.
pub data Ends {S : Type 0} (good bad : LinkVeth S → Type 0)
    : Option Failure × LinkVeth S → Type 0 where
  returns : {l : LinkVeth S} → good l → Ends good bad (none, l)
  fails : {e : Failure} {l : LinkVeth S} → bad l → Ends good bad (some e, l)

pub Ends-weaken :
    {S : Type 0} {good bad fine ill : LinkVeth S → Type 0} {r : Option Failure × LinkVeth S}
    → ((l : LinkVeth S) → good l → fine l)
    → ((l : LinkVeth S) → bad l → ill l)
    → Ends good bad r
    → Ends fine ill r
Ends-weaken f g (returns x) = returns (f _ x)
Ends-weaken f g (fails x) = fails (g _ x)

-- The calls succeed, one behind the other, and lead the host from `s` to `u`.
abbrev pub Succeed : {S : Type 0} → List (S → Option Failure × S) → S → S → Type 0
Succeed [] s u = s ≡ u
Succeed {S} (c ∷ cs) s u = (t : S) × (c s ≡ (none, t)) × Succeed cs t u

Succeed-append :
    {S : Type 0} (cs ds : List (S → Option Failure × S)) (s t u : S)
    → Succeed cs s t
    → Succeed ds t u
    → Succeed (cs ++ ds) s u
Succeed-append [] ds s t u same next = subst (λ x. Succeed ds x u) (sym same) next
Succeed-append (c ∷ cs) ds s t u (v, went, rest) next =
    (v, went, Succeed-append cs ds v t u rest next)

-- The calls that make the end `idx` as an A end, and those that make it as a B end.
abbrev pub a_end_calls : (H : VethHost) → ℕ → List (H.State → Option Failure × H.State)
a_end_calls H idx = H.link_add idx ∷ H.tx_off idx ∷ H.attach idx ∷ []

abbrev pub b_end_calls : (H : VethHost) → ℕ → List (H.State → Option Failure × H.State)
b_end_calls H idx = H.link_by_name idx ∷ H.tx_off idx ∷ H.attach idx ∷ []

-- The host has just refused to make the veth pair of the end `idx`, or has just been told to delete
-- it, and has done nothing since but wait.
pub data IsCleaned (H : VethHost) (idx : ℕ) : H.State → Type 0 where
  refused : {s u : H.State} (e : Failure) → H.link_add idx s ≡ (some e, u) → IsCleaned H idx u
  deleted : {u : H.State} (s : H.State) → u ≡ (H.link_del idx s).1 → IsCleaned H idx u
  rested : {s : H.State} (attempt : ℕ) → IsCleaned H idx s → IsCleaned H idx (H.is_done attempt s).1

-- The index of the other end.
abbrev pub peer : ℕ → ℕ
peer idx = (idx + 1) % 2

-- Half of the link is there.
abbrev pub IsHalf : {S : Type 0} → LinkVeth S → Type 0
IsHalf l = l.deployment_state ≡ half_deployed

-- The end `idx` has just been made as the B end of the link.
abbrev pub Joined : (H : VethHost) → ℕ → LinkVeth H.State → Type 0
Joined H idx l =
    (l.deployment_state ≡ full_deployed) × (s : H.State) × Succeed (b_end_calls H idx) s l.host

-- What deployAEnd brings about. A nodeless B end is made at once, behind the A end, or by a further
-- attempt, which takes the calling end for it.
unfoldable pub Finished : (H : VethHost) → ℕ → Bool → LinkVeth H.State → Type 0
Finished H idx false l = IsHalf l × (s : H.State) × Succeed (a_end_calls H idx) s l.host
Finished H idx true l =
    ((l.deployment_state ≡ full_deployed)
      × (s : H.State) × Succeed (a_end_calls H idx ++ b_end_calls H (peer idx)) s l.host)
    ⊎ Joined H idx l

-- What it leaves, if it fails.
abbrev pub Unfinished : (H : VethHost) → ℕ → Bool → LinkDeploymentState → LinkVeth H.State → Type 0
Unfinished H idx nodeless start l =
    ((l.deployment_state ≡ start) × IsCleaned H idx l.host) ⊎ ((nodeless ≡ true) × IsHalf l)

abbrev pub Begun :
    (H : VethHost) → ℕ → Bool → LinkDeploymentState → Option Failure × LinkVeth H.State → Type 0
Begun H idx nodeless start = Ends (Finished H idx nodeless) (Unfinished H idx nodeless start)

abbrev pub Continued : (H : VethHost) → ℕ → Option Failure × LinkVeth H.State → Type 0
Continued H idx = Ends (Joined H idx) IsHalf

-- Whether the other end of the link belongs to no node, as those in the host.
abbrev pub is_peer_nodeless : VethHost → ℕ → Bool
is_peer_nodeless H idx = H.is_nodeless (peer idx)

module _ {S : Type 0} {good bad : LinkVeth S → Type 0} where
  -- After a call of the host, the error is handled or the next step follows, with the host changed.
  step_cases :
      (l : LinkVeth S) (r : Option Failure × S) (handler : Failure → Deploy S) (rest : Deploy S)
      → ((e : Failure) (h : S)
          → r ≡ (some e, h)
          → Ends good bad (handler e (record l { host = h })))
      → ((h : S) → r ≡ (none, h) → Ends good bad (rest (record l { host = h })))
      → Ends good bad (on_error (after l r) handler rest)
  unfolding on_error after
  step_cases l (none, h) handler rest failed went = went h refl
  step_cases l (some e, h) handler rest failed went = failed e h refl

module _ (H : VethHost) where
  -- The B end turns half a link into a whole one, or leaves it.
  b_end_calls-Succeed :
      (idx : ℕ) (l : LinkVeth H.State)
      → IsHalf l
      → Ends
          (λ m. (m.deployment_state ≡ full_deployed) × Succeed (b_end_calls H idx) l.host m.host)
          IsHalf
          (deploy_b_end H idx l)
  unfolding deploy_b_end
  b_end_calls-Succeed idx l at =
      step_cases l (H.link_by_name idx l.host) _ _ (λ e h no. fails at)
        λ h found.
          step_cases (record l { host = h }) (H.tx_off idx h) _ _ (λ e i no. fails at)
            λ i quiet.
              step_cases (record l { host = i }) (H.attach idx i) _ _ (λ e j no. fails at)
                λ j attached. returns (refl, (h, found, (i, quiet, (j, attached, refl))))

  pub b_end-Ends :
      (idx : ℕ) (l : LinkVeth H.State) → IsHalf l → Continued H idx (deploy_b_end H idx l)
  b_end-Ends idx l at =
      Ends-weaken (λ m (full, calls). (full, l.host, calls)) (λ m half. half)
        (b_end_calls-Succeed idx l at)

  -- A B end that is deployed at once, where it is nodeless, or left to its node.
  finish-Ends :
      (idx : ℕ) (nodeless : Bool) (start : LinkDeploymentState) (s : H.State) (l : LinkVeth H.State)
      → IsHalf l
      → Succeed (a_end_calls H idx) s l.host
      → Begun H idx nodeless start (if nodeless then deploy_b_end H (peer idx) l else (none, l))
  unfolding Finished
  finish-Ends idx false start s l at made = returns (at, s, made)
  finish-Ends idx true start s l at made =
      Ends-weaken
        (λ m (full, calls). inl (
          full,
          s,
          Succeed-append (a_end_calls H idx) (b_end_calls H (peer idx)) s l.host m.host made calls,
        ))
        (λ m half. inr (refl, half)) (b_end_calls-Succeed (peer idx) l at)

  -- The A end and, where it is nodeless, the B end.
  pub a_end-Ends :
      (idx : ℕ) (start : LinkDeploymentState) (l : LinkVeth H.State)
      → l.deployment_state ≡ start
      → Begun H idx (is_peer_nodeless H idx) start (deploy_a_end H idx l)
  unfolding deploy_a_end cleanup_veth after
  a_end-Ends idx start l at =
      step_cases l (H.link_add idx l.host) _ _ (λ e h no. fails (inl (at, refused e no)))
        λ h added.
          step_cases (record l { host = h }) (H.tx_off idx h) _ _
            (λ e i no. fails (inl (at, deleted i refl)))
            λ i quiet.
              step_cases (record l { host = i }) (H.attach idx i) _ _
                (λ e j no. fails (inl (at, deleted j refl)))
                λ j attached.
                  finish-Ends idx (is_peer_nodeless H idx) start l.host _ refl
                    (h, added, (i, quiet, (j, attached, refl)))
