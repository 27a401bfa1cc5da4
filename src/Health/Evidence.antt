-- ===== src/Health/Evidence.antt =====
-- What a result of the wait of apps/engine/src/health.ts rests on.
use hostingservices.Common.{
  ℕ, zero, suc, ◌+◌, ◌≤◌, ◌<◌, ◌≡◌, ◌≢◌, refl, Bool, true, false, Option, none, some, arith, ltb,
  inl, inr, Bool-cases, ltb→lt, subst, sym, ◌∙◌,
}
use hostingservices.Health.{
  http, process, docker, HealthOptions, Attempt, Inspection, inspected, inspect_error, Status,
  healthy, Check, by_process, passed, by_http, not_configured, Failure, stopped_before, thrown,
  Poll, found, fatal, again, after_poll, LastError, not_ready, Result, is_healthy, failed_with,
  timed_out, poll, wait_from, is_fatal, wait_for_healthy_container,
}
use hostingservices.Health.Termination.{wait_late, wait_round}

-- The time at which attempt `i` begins.
abbrev pub start_of : HealthOptions → (ℕ → Attempt) → ℕ → ℕ
start_of o attempts zero = 0
start_of o attempts (suc i) = start_of o attempts i + (attempts i).took_ms + o.interval_ms

-- What the attempt saw, for a container that is called healthy by the check.
abbrev pub Evidence : Bool → HealthOptions → Attempt → Check → Type 0
Evidence required o a by_process =
    (h : Option Status) × (a.inspection ≡ inspected true h) × (o.mode ≡ process)
Evidence required o a passed =
    (a.inspection ≡ inspected true (some healthy)) × (o.mode ≢ http) × (o.mode ≢ process)
Evidence required o a by_http =
    (h : Option Status) × (code : ℕ) × (a.inspection ≡ inspected true h)
    × (a.status_code ≡ some code)
    × (200 ≤ code)
    × (code < 400)
    × (o.mode ≢ docker)
Evidence required o a not_configured =
    (h : Option Status) × (a.inspection ≡ inspected true h) × (required ≡ false)

abbrev health_of : Inspection → Option Status
health_of (inspect_error m) = none
health_of (inspected running h) = h

abbrev code_of : Option ℕ → ℕ
code_of none = 0
code_of (some c) = c

poll-Evidence :
    (required : Bool) (o : HealthOptions) (a : Attempt) (c : Check)
    → poll required o a ≡ found c
    → Evidence required o a c
unfolding poll
poll-Evidence required o a by_process h = (health_of a.inspection, ground arith, ground arith)
poll-Evidence required o a passed h = ground arith
poll-Evidence required o a by_http h = (
  health_of a.inspection,
  code_of a.status_code,
  ground arith,
  ground arith,
  ground arith,
  ground arith,
  ground arith,
)
poll-Evidence required o a not_configured h = (health_of a.inspection, ground arith, ground arith)

-- The result at attempt `i`: a success that the attempt has evidence for, an error that the
-- attempt met and that is thrown on, or, if the time had run out, a timeout.
abbrev pub EndsAt : Bool → HealthOptions → (ℕ → Attempt) → Result → ℕ → Type 0
EndsAt required o attempts (is_healthy c) i =
    (start_of o attempts i < o.timeout_ms) × Evidence required o (attempts i) c
EndsAt required o attempts (failed_with f) i =
    (start_of o attempts i < o.timeout_ms)
    × (poll required o (attempts i) ≡ fatal f)
    × (is_fatal f ≡ true)
EndsAt required o attempts (timed_out l) i = o.timeout_ms ≤ start_of o attempts i

poll-fatal :
    (required : Bool) (o : HealthOptions) (a : Attempt) (f : Failure)
    → poll required o a ≡ fatal f
    → is_fatal f ≡ true
unfolding poll is_fatal
poll-fatal required o a (thrown m) h = ground arith
poll-fatal required o a stopped_before h = refl
poll-fatal required o a _ h = refl

ends_of_poll :
    (required : Bool) (o : HealthOptions) (attempts : ℕ → Attempt) (i : ℕ) (t : Poll)
    (go : LastError → Option Result) (r : Result)
    → poll required o (attempts i) ≡ t
    → start_of o attempts i < o.timeout_ms
    → ((l : LastError) → go l ≡ some r → (n : ℕ) × EndsAt required o attempts r n)
    → after_poll t go ≡ some r
    → (n : ℕ) × EndsAt required o attempts r n
ends_of_poll required o attempts i (found c) go r p lt f h =
    let e : is_healthy c ≡ r = cc in
    subst (λ x. (n : ℕ) × EndsAt required o attempts x n) e
      (i, (lt, poll-Evidence required o (attempts i) c p))
ends_of_poll required o attempts i (fatal g) go r p lt f h =
    let e : failed_with g ≡ r = cc in
    subst (λ x. (n : ℕ) × EndsAt required o attempts x n) e
      (i, (lt, p, poll-fatal required o (attempts i) g p))
ends_of_poll required o attempts i (again l) go r p lt f h = f l h

wait_from-EndsAt :
    (fuel : ℕ) (required : Bool) (o : HealthOptions) (attempts : ℕ → Attempt) (i : ℕ)
    (last : LastError) (r : Result)
    → wait_from fuel required o attempts i (start_of o attempts i) last ≡ some r
    → (n : ℕ) × EndsAt required o attempts r n
unfolding wait_from
wait_from-EndsAt zero required o attempts i last r h = cc
wait_from-EndsAt (suc fuel) required o attempts i last r h =
    elim (Bool-cases (ltb (start_of o attempts i) o.timeout_ms)) [
      | inr e ↦
          let late : timed_out last ≡ r = cc (wait_late fuel required o attempts i start last e) in
          subst (λ x. (n : ℕ) × EndsAt required o attempts x n) late (i, ground arith)
      | inl e ↦
          ends_of_poll required o attempts i (poll required o (attempts i)) _ r refl (ltb→lt _ _ e)
            (λ l. wait_from-EndsAt fuel required o attempts (suc i) l r)
            (sym (wait_round fuel required o attempts i start last e) ∙ h)
    ]
  where
    start : ℕ
    start = start_of o attempts i

-- A result of the wait is reached at some attempt: success only with evidence of that attempt,
-- begun in time, that the container runs and passes the check that is named; an error only as that
-- attempt met one of the errors that end the wait; and a timeout only once the time has run out.
pub wait_evidence :
    (required : Bool) (o : HealthOptions) (attempts : ℕ → Attempt) (r : Result)
    → wait_for_healthy_container required o attempts ≡ some r
    → (n : ℕ) × EndsAt required o attempts r n
unfolding wait_for_healthy_container
wait_evidence required o attempts r h =
    wait_from-EndsAt (suc o.timeout_ms) required o attempts 0 not_ready r h
