-- ===== src/Worker/Tests.antt =====
-- Jobs of apps/engine/src/worker.ts, and the theorems at these inputs.
use hostingservices.Common.{
  ℕ, ◌+◌, ◌≤◌, String, true, false, Option, none, some, [], ◌∷◌, ◌≡◌, ◌≢◌, ◌↔◌, ◌⊎◌, refl, get_or,
  In, str_ne,
}
use hostingservices.Lifecycle.{queued, live, deploying, health_check, diagnosing, failed}
use hostingservices.Worker.{
  Job, status, phase, Call, call_of, is_final_attempt, begin_reports, end_reports, handle,
  QueuedJob, Recoverable, is_lost, job_of, recover_one, enqueue_deployment, find_deployment_job,
  recover_lost_jobs,
}
use hostingservices.Worker.Durable.{
  StateRow, callback_header, valid_engine_callback, set_state, job_phases, report_phases,
}
use hostingservices.Worker.States.{job-states}
use hostingservices.Worker.Reports.{handle-live_iff, handle-failed_iff}
use hostingservices.Worker.Recovery.{recover_lost_jobs-In}

abbrev job : Job
job = record {
  deployment_id = some "d1";
  is_rollback = false;
  previous_image = none;
  replicas = none;
  autoscale_min = none;
  strategy = none;
  attempts_made = 2;
  attempts = some 3;
}

abbrev broken : Call → Option String
broken c = some "no such image"

last_attempt : handle broken job ≡ (
  status "starting"
      ∷ phase deploying
      ∷ phase health_check
      ∷ phase diagnosing
      ∷ phase failed
      ∷ status "failed"
      ∷ [],
  some "no such image",
)
unfolding handle call_of begin_reports end_reports is_final_attempt
last_attempt = refl

handle-live_iff_example : In (phase live) (handle broken job).0 ↔ ((handle broken job).1 ≡ none)
handle-live_iff_example = handle-live_iff broken job (str_ne "d1" "" refl)

handle-failed_iff_case :
    In (status "failed") (handle broken job).0
    ↔ (((handle broken job).1 ≢ none) × (get_or job.attempts 1 ≤ job.attempts_made + 1))
handle-failed_iff_case = handle-failed_iff broken job (str_ne "d1" "" refl)

abbrev clean : String → String
clean k = k

abbrev lost : Recoverable
lost = record { id = "d1"; spec = some none; phase = deploying; is_rollback = false }

abbrev over : Recoverable
over = record lost { phase = live }

-- A job of an earlier recovery that Redis still keeps, though it has ended, stands in the way.
abbrev ended : QueuedJob
ended = record (job_of clean lost) { pending = false }

recovered : recover_lost_jobs clean "local" (over ∷ lost ∷ lost ∷ []) [] ≡ job_of clean lost ∷ []
unfolding recover_lost_jobs recover_one is_lost enqueue_deployment find_deployment_job
recovered = refl

not_recovered_again : recover_lost_jobs clean "local" (lost ∷ []) (ended ∷ []) ≡ ended ∷ []
unfolding recover_lost_jobs recover_one is_lost enqueue_deployment find_deployment_job
not_recovered_again = refl

recover_lost_jobs-In_case :
    (In ended (ended ∷ []) → In ended (recover_lost_jobs clean "local" (lost ∷ []) (ended ∷ [])))
    × (In ended (recover_lost_jobs clean "local" (lost ∷ []) (ended ∷ []))
        → In ended (ended ∷ [])
          ⊎ ((d : Recoverable) × In d (lost ∷ [])
              × (is_lost "local" d ≡ true)
              × (job_of clean d ≡ ended)))
recover_lost_jobs-In_case = recover_lost_jobs-In clean "local" (lost ∷ []) (ended ∷ []) ended

abbrev state_row : StateRow
state_row = record {
  phase = queued;
  attempt = 0;
  strategy = "rolling";
  error = none;
  metadata = [];
  finished_at = none;
}

abbrev clock : ℕ → ℕ
clock left = 9

-- The configuration of docker-compose.yml: the API has a secret, and the worker none.
check_compose :
    report_phases false "local-engine-callback-secret"
      (callback_header "")
      clock
      job
      (job_phases broken job)
      state_row
    ≡ state_row
unfolding report_phases job_phases set_state valid_engine_callback is_final_attempt call_of
check_compose = refl

job-states_example :
    let after =
      report_phases true "secret"
        (callback_header "secret")
        clock
        job
        (job_phases broken job)
        state_row in
    ((handle broken job).1 ≡ none → after.phase ≡ live)
    × ((handle broken job).1 ≢ none → is_final_attempt job ≡ true → after.phase ≡ failed)
    × (after.attempt ≡ 2)
    × (after.error ≡ none)
    × (after.finished_at ≡ none)
job-states_example = job-states true "secret" (str_ne "secret" "" refl) clock job broken state_row
