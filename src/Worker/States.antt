-- ===== src/Worker/States.antt =====
-- What the phases that a job of apps/engine/src/worker.ts reports make of the durable state.
use hostingservices.Common.{
  ℕ, String, Bool, true, Option, none, some, List, [], ◌∷◌, ◌++◌, ◌≡◌, ◌≢◌, refl, sym, ◌∙◌, map,
  eq_iff, arith, length, Bool-cases, inl, inr, ◌⊎◌, subst,
}
use hostingservices.Lifecycle.{DeploymentState, live, failed, rolling_back, deploying, health_check}
use hostingservices.Worker.{
  Job, Report, status, phase, Call, call_of, run_call, is_final_attempt, begin_reports, end_reports,
  handle,
}
use hostingservices.Worker.Durable.{
  StateRow, Extra, callback_header, valid_engine_callback, set_state, phase_body, begin_phases,
  end_phases, job_phases, report_phases, update_state, plain,
}

-- The phases of the reports, in their order.
abbrev pub phases_of : List Report → List DeploymentState
phases_of [] = []
phases_of (status v ∷ rs) = phases_of rs
phases_of (phase p ∷ rs) = p ∷ phases_of rs

abbrev pub phase_of : DeploymentState × Extra → DeploymentState
phase_of (p, x) = p

-- They are the phases among the reports of the job.
pub phases_of-reports :
    (run : Call → Option String) (job : Job)
    → phases_of (begin_reports job ++ end_reports job (run_call run (call_of job)))
      ≡ map phase_of (job_phases run job)
unfolding begin_reports end_reports job_phases is_final_attempt
phases_of-reports run job = elim (Bool-cases job.is_rollback) [
  | inl k ↦ ground (arith, k)
  | inr k ↦ ground (arith, k)
]

abbrev last_phase : DeploymentState → List (DeploymentState × Extra) → DeploymentState
last_phase p [] = p
last_phase p ((q, x) ∷ rest) = last_phase q rest

valid-own :
    (production : Bool) (secret : String)
    → secret ≢ ""
    → valid_engine_callback production secret (callback_header secret) ≡ true
unfolding valid_engine_callback
valid-own production secret n = ground (arith, eq_iff secret "", eq_iff secret secret)

module _ (production : Bool) (secret : String) (n : secret ≢ "") (now : ℕ → ℕ) (job : Job) where
  abbrev reported : List (DeploymentState × Extra) → StateRow → StateRow
  reported ps r = report_phases production secret (callback_header secret) now job ps r

  -- The row after some phases: what the last callback wrote, and what none of them writes.
  record IsReported (p : DeploymentState) (before after : StateRow) : Type 0 where
    pub phase : after.phase ≡ p
    pub attempt : after.attempt ≡ job.attempts_made
    pub error : after.error ≡ none
    pub finished_at : after.finished_at ≡ before.finished_at

  set_state-IsReported :
      (now : ℕ) (p : DeploymentState) (x : Extra) (r : StateRow)
      → IsReported p r
          (set_state production secret (callback_header secret) now (phase_body job p x) r)
  unfolding set_state update_state phase_body
  set_state-IsReported now p x r =
      rw (valid-own production secret n)
        (record { phase = refl; attempt = refl; error = refl; finished_at = refl })

  reported-IsReported :
      (p : DeploymentState) (x : Extra) (ps : List (DeploymentState × Extra)) (r : StateRow)
      → IsReported (last_phase p ps) r (reported ((p, x) ∷ ps) r)
  unfolding report_phases
  reported-IsReported p x [] r = set_state-IsReported (now 0) p x r
  reported-IsReported p x ((q, y) ∷ ps) r =
      let first_row =
        set_state production secret (callback_header secret) (now (length ((q, y) ∷ ps)))
          (phase_body job p x) r in
      let rest = reported-IsReported q y ps first_row in
      record {
        phase = rest.phase;
        attempt = rest.attempt;
        error = rest.error;
        finished_at =
            rest.finished_at
            ∙ (set_state-IsReported (now (length ((q, y) ∷ ps))) p x r).finished_at;
      }

  begin-cases :
      (begin_phases job ≡ (rolling_back, plain) ∷ [])
      ⊎ (begin_phases job ≡ (deploying, plain) ∷ (health_check, plain) ∷ [])
  begin-cases = elim (Bool-cases job.is_rollback) [
    | inl k ↦ inl (ground (arith, k))
    | inr k ↦ inr (ground (arith, k))
  ]

  -- The row after the phases of a call with this outcome; `p` is the last phase before its end.
  ended-IsReported :
      (o : Option String) (r : StateRow)
      → (p : DeploymentState) × IsReported
          (last_phase p (end_phases job o))
          r
          (reported (begin_phases job ++ end_phases job o) r)
  ended-IsReported o r = elim begin-cases [
    | inl k ↦ (
      rolling_back,
      subst
          (λ l.
            IsReported (last_phase rolling_back (end_phases job o)) r
              (reported (l ++ end_phases job o) r))
          (sym k) (reported-IsReported rolling_back plain (end_phases job o) r),
    )
    | inr k ↦ (
      health_check,
      subst
          (λ l.
            IsReported (last_phase health_check (end_phases job o)) r
              (reported (l ++ end_phases job o) r))
          (sym k)
          (reported-IsReported deploying plain ((health_check, plain) ∷ end_phases job o) r),
    )
  ]

  last-live :
      (p : DeploymentState) (o : Option String) → o ≡ none → last_phase p (end_phases job o) ≡ live
  last-live p none e = refl
  last-live p (some x) e = cc

  last-failed :
      (p : DeploymentState) (o : Option String)
      → o ≢ none
      → is_final_attempt job ≡ true
      → last_phase p (end_phases job o) ≡ failed
  last-failed p none h k = absurd (h refl)
  last-failed p (some e) h k = rw k refl

  -- The callbacks of a job that names its deployment, made with the API's secret, leave the row
  -- live if the job threw nothing, and failed if it threw at its last attempt, with the attempt's
  -- number; but they leave no error in the row, and the time at which the deployment finished as
  -- it was.
  pub job-states :
      (run : Call → Option String) (r : StateRow)
      → let after = reported (job_phases run job) r in
        ((handle run job).1 ≡ none → after.phase ≡ live)
        × ((handle run job).1 ≢ none → is_final_attempt job ≡ true → after.phase ≡ failed)
        × (after.attempt ≡ job.attempts_made)
        × (after.error ≡ none)
        × (after.finished_at ≡ r.finished_at)
  unfolding handle job_phases
  job-states run r =
      let o = run_call run (call_of job) in
      let (p, ended) = ended-IsReported o r in
      (
        λ e. ended.phase ∙ last-live p o e,
        λ h k. ended.phase ∙ last-failed p o h k,
        ended.attempt,
        ended.error,
        ended.finished_at,
      )
