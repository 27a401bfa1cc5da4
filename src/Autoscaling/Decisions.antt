-- ===== src/Autoscaling/Decisions.antt =====
-- What `decideAutoscaling` (packages/platform-contracts/src/autoscaling.ts) guarantees.
use hostingservices.Common.{
  ℕ, ◌+◌, ◌*◌, ◌≤◌, ◌<◌, ◌≡◌, ◌⊎◌, inl, inr, ◌↔◌, refl, true, false, Option, none, some, List, [],
  ◌∷◌, ◌++◌, arith, get_or, Bool-cases,
}
use hostingservices.Autoscaling.{
  AutoscalingMetrics, Policy, scale_out, scale_in, Signal, cpu, memory, rps, queue,
  decide_autoscaling, reasons_of, below_all, push_if_over, is_nonempty,
}

-- The target is set and the metric, 0 if it is missing, is at least the target.
abbrev pub Meets : Option ℕ → Option ℕ → Type 0
Meets none metric = ⊥
Meets (some target) metric = target ≤ get_or metric 0

-- If the target is set, twice the metric is less than the target.
abbrev pub IsIdle : Option ℕ → Option ℕ → Type 0
IsIdle none metric = Unit
IsIdle (some target) metric = get_or metric 0 * 2 < target

-- Some signal of the policy is at its target.
abbrev pub SomeMeets : Policy → AutoscalingMetrics → Type 0
SomeMeets p m =
    Meets p.cpu_percent m.cpu_percent
    ⊎ Meets p.memory_percent m.memory_percent
    ⊎ Meets p.requests_per_second m.requests_per_second
    ⊎ Meets p.queue_depth m.queue_depth

-- Every signal of the policy is below half of its target.
abbrev pub AllIdle : Policy → AutoscalingMetrics → Type 0
AllIdle p m =
    IsIdle p.cpu_percent m.cpu_percent
    × IsIdle p.memory_percent m.memory_percent
    × IsIdle p.requests_per_second m.requests_per_second
    × IsIdle p.queue_depth m.queue_depth

append_nonempty : (ss : List Signal) (s : Signal) → is_nonempty (ss ++ s ∷ []) ≡ true
append_nonempty [] s = refl
append_nonempty (t ∷ ss) s = refl

push-Meets :
    (f : Option ℕ → ℕ → Signal) (target metric : Option ℕ) (ss : List Signal)
    → (is_nonempty (push_if_over f target metric ss) ≡ true)
      ↔ (Meets target metric ⊎ (is_nonempty ss ≡ true))
push-Meets f none metric ss = (λ h. inr h, λ h. ground arith)
push-Meets f (some t) metric ss = (
  λ h. ground (arith, append_nonempty ss (f metric t)),
  λ h. ground (arith, append_nonempty ss (f metric t)),
)

reasons-Meets :
    (p : Policy) (m : AutoscalingMetrics) → (is_nonempty (reasons_of p m) ≡ true) ↔ SomeMeets p m
unfolding reasons_of
reasons-Meets p m =
    let a = push_if_over cpu p.cpu_percent m.cpu_percent [] in
    let b = push_if_over memory p.memory_percent m.memory_percent a in
    let c = push_if_over rps p.requests_per_second m.requests_per_second b in
    let ha = push-Meets cpu p.cpu_percent m.cpu_percent [] in
    let hb = push-Meets memory p.memory_percent m.memory_percent a in
    let hc = push-Meets rps p.requests_per_second m.requests_per_second b in
    let hd = push-Meets queue p.queue_depth m.queue_depth c in
    (
      λ h. elim (hd.0 h) [
        | inl q ↦ inr (inr (inr q))
        | inr hc' ↦ elim (hc.0 hc') [
          | inl q ↦ inr (inr (inl q))
          | inr hb' ↦ elim (hb.0 hb') [
            | inl q ↦ inr (inl q)
            | inr ha' ↦ elim (ha.0 ha') [ inl q ↦ inl q | inr n ↦ cc ]
          ]
        ]
      ],
      λ h. elim h [
        | inl q ↦ hd.1 (inr (hc.1 (inr (hb.1 (inr (ha.1 (inl q)))))))
        | inr (inl q) ↦ hd.1 (inr (hc.1 (inr (hb.1 (inl q)))))
        | inr (inr (inl q)) ↦ hd.1 (inr (hc.1 (inl q)))
        | inr (inr (inr q)) ↦ hd.1 (inl q)
      ],
    )

below_all-IsIdle : (p : Policy) (m : AutoscalingMetrics) → (below_all p m ≡ true) ↔ AllIdle p m
unfolding below_all
below_all-IsIdle p m = (λ h. ground arith, λ h. ground arith)

not_both : (target metric : Option ℕ) → Meets target metric → IsIdle target metric → ⊥
not_both none metric h k = h
not_both (some t) metric h k = omega arith

-- No signal is both at its target and below half of it.
not_met_of_idle :
    (p : Policy) (m : AutoscalingMetrics) → AllIdle p m → is_nonempty (reasons_of p m) ≡ false
not_met_of_idle p m h = elim (Bool-cases (is_nonempty (reasons_of p m))) [
  | inr e ↦ e
  | inl e ↦ absurd (either ((reasons-Meets p m).0 e))
]
  where
    either : SomeMeets p m → ⊥
    either (inl a) = not_both _ _ a h.0
    either (inr (inl a)) = not_both _ _ a h.1
    either (inr (inr (inl a))) = not_both _ _ a h.2
    either (inr (inr (inr a))) = not_both _ _ a h.3

-- From within the bounds of the policy the number of replicas moves by one at most and stays
-- within them.
pub decide_autoscaling_bounds :
    (current : ℕ) (p : Policy) (m : AutoscalingMetrics)
    → p.min ≤ current
    → current ≤ p.max
    → let target = (decide_autoscaling current p m).target_replicas in
      (p.min ≤ target) × (target ≤ p.max) × (target ≤ current + 1) × (current ≤ target + 1)
unfolding decide_autoscaling
decide_autoscaling_bounds current p m h k = ground arith

-- Replicas are added exactly when some signal is at its target and the maximum is not reached, and
-- removed exactly when every signal is below half of its target and the minimum is not reached.
pub decide_autoscaling_when :
    (current : ℕ) (p : Policy) (m : AutoscalingMetrics)
    → (((decide_autoscaling current p m).action ≡ scale_out) ↔ (SomeMeets p m × (current < p.max)))
      × (((decide_autoscaling current p m).action ≡ scale_in) ↔ (AllIdle p m × (p.min < current)))
unfolding decide_autoscaling
decide_autoscaling_when current p m =
    let met = reasons-Meets p m in
    let idle = below_all-IsIdle p m in
    (
      (λ h. (met.0 (ground arith), ground arith), λ h. ground (arith, met.1 h.0)),
      (
        λ h. (idle.0 (ground arith), ground arith),
        λ h. ground (arith, idle.1 h.0, not_met_of_idle p m h.0),
      ),
    )
