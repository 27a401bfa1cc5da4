-- ===== src/Autoscaling.antt =====
-- The autoscaling decision of the platform contracts
-- (packages/platform-contracts/src/autoscaling.ts). Metrics and targets are whole numbers; half of
-- a target is compared by doubling the metric. A reason is the list of the signals that it names.
pub mod Decisions
mod Tests
use hostingservices.Common.{
  ℕ, ◌+◌, ◌-◌, ◌*◌, Bool, true, false, Option, none, some, List, [], ◌∷◌, ◌++◌, ◌&&◌, leb, ltb,
  get_or, if◌then◌else◌,
}

pub record AutoscalingMetrics : Type 0 where
  pub cpu_percent : Option ℕ
  pub memory_percent : Option ℕ
  pub requests_per_second : Option ℕ
  pub queue_depth : Option ℕ

pub record Policy : Type 0 where
  pub min : ℕ
  pub max : ℕ
  pub cpu_percent : Option ℕ
  pub memory_percent : Option ℕ
  pub requests_per_second : Option ℕ
  pub queue_depth : Option ℕ

pub data Action : Type 0 where
  scale_out scale_in hold : Action

pub data Signal : Type 0 where
  cpu memory rps queue : Option ℕ → ℕ → Signal

pub data Reason : Type 0 where
  over : List Signal → Reason
  all_below : Reason
  no_threshold_crossed : Reason

pub record AutoscalingDecision : Type 0 where
  pub action : Action
  pub target_replicas : ℕ
  pub reason : Reason

-- One line that pushes a reason: a target that is set and met.
abbrev pub push_if_over : (Option ℕ → ℕ → Signal) → Option ℕ → Option ℕ → List Signal → List Signal
push_if_over signal none metric reasons = reasons
push_if_over signal (some target) metric reasons =
    if leb target (get_or metric 0) then reasons ++ signal metric target ∷ [] else reasons

unfoldable pub reasons_of : Policy → AutoscalingMetrics → List Signal
reasons_of p m = push_if_over queue p.queue_depth m.queue_depth (
    push_if_over rps p.requests_per_second m.requests_per_second (
      push_if_over memory p.memory_percent m.memory_percent
        (push_if_over cpu p.cpu_percent m.cpu_percent [])))

-- `target === undefined || (metric ?? 0) < target * 0.5`.
abbrev pub is_below_half : Option ℕ → Option ℕ → Bool
is_below_half none metric = true
is_below_half (some target) metric = ltb (get_or metric 0 * 2) target

unfoldable pub below_all : Policy → AutoscalingMetrics → Bool
below_all p m =
    is_below_half p.cpu_percent m.cpu_percent
    && is_below_half p.memory_percent m.memory_percent
    && is_below_half p.requests_per_second m.requests_per_second
    && is_below_half p.queue_depth m.queue_depth

abbrev pub is_nonempty : List Signal → Bool
is_nonempty [] = false
is_nonempty (s ∷ ss) = true

unfoldable pub decide_autoscaling : ℕ → Policy → AutoscalingMetrics → AutoscalingDecision
decide_autoscaling current p m =
    if is_nonempty (reasons_of p m) && ltb current p.max
    then record {
      action = scale_out;
      target_replicas = current + 1;
      reason = over (reasons_of p m);
    }
    else if below_all p m && ltb p.min current
    then record { action = scale_in; target_replicas = current - 1; reason = all_below }
    else record { action = hold; target_replicas = current; reason = no_threshold_crossed }
