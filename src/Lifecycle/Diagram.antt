-- ===== src/Lifecycle/Diagram.antt =====
-- What the table of transitions allows (apps/engine/src/deployment-state.ts).
use hostingservices.Common.{
  Bool, true, false, ◌≡◌, ◌≢◌, refl, ◌⊎◌, inl, inr, List, [], ◌∷◌, ◌&&◌, In, arith, &&-parts, All,
  ◌↔◌, sym, subst,
}
use hostingservices.Lifecycle.{
  DeploymentState, queued, cloning, detecting, building, testing, security_scan, provisioning,
  deploying, health_check, traffic_shift, live, diagnosing, auto_recovery, rolling_back, failed,
  stopped, can_transition,
}

-- Every state of the list may follow the one before it.
unfoldable pub accepts : DeploymentState → List DeploymentState → Bool
unfolding can_transition
accepts from [] = true
accepts from (s ∷ ss) = can_transition from s && accepts s ss

-- States that a deployment is in before its health check, unless it has failed.
abbrev pub is_early : DeploymentState → Bool
is_early queued = true
is_early cloning = true
is_early detecting = true
is_early building = true
is_early testing = true
is_early security_scan = true
is_early provisioning = true
is_early deploying = true
is_early stopped = true
is_early _ = false

pub early_step :
    (a b : DeploymentState)
    → is_early a ≡ true
    → can_transition a b ≡ true
    → (is_early b ≡ true) ⊎ (b ≡ health_check) ⊎ (b ≡ failed)
unfolding can_transition
early_step a b e h = ground arith

-- Where a chain of allowed transitions from a state before the health check holds the state live,
-- it holds the health check or a failure.
pub live_needs_health_check :
    (from : DeploymentState) (ss : List DeploymentState)
    → is_early from ≡ true
    → accepts from ss ≡ true
    → In live ss
    → In health_check ss ⊎ In failed ss
unfolding accepts
live_needs_health_check from [] e h i = absurd i
live_needs_health_check from (s ∷ ss) e h i =
    let t = &&-parts (can_transition from s) (accepts s ss) h in
    elim (early_step from s e t.0) [
      | inl k ↦ ground (arith, live_needs_health_check s ss k t.1)
      | inr (inl k) ↦ inl (inl k)
      | inr (inr k) ↦ inr (inl k)
    ]

-- What is left of a deployment without trouble, from the state given.
abbrev pub after_deploying : List DeploymentState
after_deploying = health_check ∷ traffic_shift ∷ live ∷ []

abbrev pub after_testing : List DeploymentState
after_testing = provisioning ∷ deploying ∷ after_deploying

abbrev pub way_to_live : DeploymentState → List DeploymentState
way_to_live queued = cloning ∷ detecting ∷ building ∷ testing ∷ after_testing
way_to_live cloning = detecting ∷ building ∷ testing ∷ after_testing
way_to_live detecting = building ∷ testing ∷ after_testing
way_to_live building = testing ∷ after_testing
way_to_live testing = after_testing
way_to_live security_scan = after_testing
way_to_live provisioning = deploying ∷ after_deploying
way_to_live deploying = after_deploying
way_to_live diagnosing = auto_recovery ∷ after_deploying
way_to_live auto_recovery = after_deploying
way_to_live rolling_back = after_deploying
way_to_live failed = auto_recovery ∷ after_deploying
way_to_live _ = live ∷ []

pub stopped_step : (t : DeploymentState) → can_transition stopped t ≡ true → t ≡ stopped
unfolding can_transition
stopped_step t h = ground arith

stopped_stays : (ss : List DeploymentState) → accepts stopped ss ≡ true → All (λ t. t ≡ stopped) ss
unfolding accepts
stopped_stays [] h = tt
stopped_stays (t ∷ ss) h =
    let p = &&-parts (can_transition stopped t) (accepts t ss) h in
    let e = stopped_step t p.0 in (e, stopped_stays ss (subst (λ u. accepts u ss ≡ true) e p.1))

way_to_live_lem :
    (s : DeploymentState)
    → s ≢ stopped
    → (accepts s (way_to_live s) ≡ true) × In live (way_to_live s)
unfolding accepts
way_to_live_lem stopped n = absurd (n refl)
way_to_live_lem queued n = (refl, ground arith)
way_to_live_lem _ n = (refl, ground arith)

-- From every state but stopped a chain of allowed transitions leads to live; from stopped none
-- leaves stopped.
pub live_reachable :
    (s : DeploymentState)
    → (s ≢ stopped → (accepts s (way_to_live s) ≡ true) × In live (way_to_live s))
      × ((ss : List DeploymentState) → accepts stopped ss ≡ true → All (λ t. t ≡ stopped) ss)
live_reachable s = (way_to_live_lem s, stopped_stays)

abbrev IsFinal : DeploymentState → Type 0
IsFinal s = (t : DeploymentState) → can_transition s t ≡ true → t ≡ s

stopped_if_final : (s : DeploymentState) → IsFinal s → s ≡ stopped
unfolding can_transition
stopped_if_final stopped f = refl
stopped_if_final queued f = cc (f failed refl)
stopped_if_final live f = cc (f diagnosing refl)
stopped_if_final failed f = cc (f auto_recovery refl)
stopped_if_final auto_recovery f = cc (f live refl)
stopped_if_final s f = cc (f failed refl)

-- A state that no transition leaves is stopped, and stopped is such a state.
pub stopped_of_final :
    (s : DeploymentState)
    → ((t : DeploymentState) → can_transition s t ≡ true → t ≡ s) ↔ (s ≡ stopped)
stopped_of_final s = (stopped_if_final s, λ e. subst IsFinal (sym e) stopped_step)
