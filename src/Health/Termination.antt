-- ===== src/Health/Termination.antt =====
-- The wait of apps/engine/src/health.ts ends, within its time and one attempt more.
use hostingservices.Common.{
  ℕ, zero, suc, ◌+◌, ◌<◌, ◌≡◌, refl, Bool, true, false, Option, some, arith, ltb, inl, inr,
  Bool-cases, ltb→lt,
}
use hostingservices.Health.{
  HealthOptions, Attempt, Poll, found, fatal, again, after_poll, Result, LastError, timed_out,
  is_healthy, failed_with, not_ready, poll, wait_from, wait_for_healthy_container,
}

module _ (fuel : ℕ) (required : Bool) (o : HealthOptions) (attempts : ℕ → Attempt) (i elapsed : ℕ)
    (last : LastError) where
  -- A round that finds the time run out.
  pub wait_late :
      ltb elapsed o.timeout_ms ≡ false
      → wait_from (suc fuel) required o attempts i elapsed last ≡ some (timed_out last)
  unfolding wait_from
  wait_late e = rw (e, wait_from)

  -- A round that makes an attempt.
  pub wait_round :
      ltb elapsed o.timeout_ms ≡ true
      → wait_from (suc fuel) required o attempts i elapsed last
        ≡ after_poll (poll required o (attempts i)) (
            wait_from fuel required o attempts
              (suc i)
              (elapsed + (attempts i).took_ms + o.interval_ms))
  unfolding wait_from
  wait_round e = rw (e, wait_from)

after_poll_total :
    (t : Poll) (go : LastError → Option Result)
    → ((l : LastError) → (r : Result) × (go l ≡ some r))
    → (r : Result) × (after_poll t go ≡ some r)
after_poll_total (found c) go h = (is_healthy c, refl)
after_poll_total (fatal f) go h = (failed_with f, refl)
after_poll_total (again l) go h = h l

wait_from_total :
    (fuel : ℕ) (required : Bool) (o : HealthOptions) (attempts : ℕ → Attempt) (i elapsed : ℕ)
    (last : LastError)
    → 0 < o.interval_ms
    → o.timeout_ms < fuel + elapsed
    → 0 < fuel
    → (r : Result) × (wait_from fuel required o attempts i elapsed last ≡ some r)
wait_from_total zero required o attempts i elapsed last p h q = absurd (omega arith)
wait_from_total (suc fuel) required o attempts i elapsed last p h q =
    elim (Bool-cases (ltb elapsed o.timeout_ms)) [
      | inr e ↦ (timed_out last, wait_late fuel required o attempts i elapsed last e)
      | inl e ↦
          let lt : elapsed < o.timeout_ms = ltb→lt _ _ e in
          rw (wait_round fuel required o attempts i elapsed last e) (
            after_poll_total (poll required o (attempts i)) _ (λ l.
              wait_from_total fuel required o attempts (suc i)
                (elapsed + (attempts i).took_ms + o.interval_ms) l p (omega arith) (omega arith)))
    ]

-- With a pause that is not 0 the wait ends with a result, whatever Docker and the probe answer.
pub wait_total :
    (required : Bool) (o : HealthOptions) (attempts : ℕ → Attempt)
    → 0 < o.interval_ms
    → (r : Result) × (wait_for_healthy_container required o attempts ≡ some r)
unfolding wait_for_healthy_container
wait_total required o attempts p =
    wait_from_total (suc o.timeout_ms) required o attempts 0 0 not_ready p (omega arith)
      (omega arith)
