-- ===== src/Worker/Reports.antt =====
-- What a job of apps/engine/src/worker.ts reports of its deployment.
use hostingservices.Common.{
  ◌+◌, ◌≤◌, String, Option, none, some, List, ◌++◌, ◌≡◌, ◌≢◌, ◌↔◌, refl, arith, get_or, eq_iff, In,
  str_ne,
}
use hostingservices.Lifecycle.{live}
use hostingservices.Worker.{
  Job, Report, status, phase, Call, call_of, run_call, is_final_attempt, begin_reports, end_reports,
  handle, reports,
}

pub reports-named :
    (job : Job) (rs : List Report) → get_or job.deployment_id "" ≢ "" → reports job rs ≡ rs
reports-named job rs n = ground (arith, eq_iff (get_or job.deployment_id "") "")

live_of :
    (job : Job) (o : Option String)
    → In (phase live) (begin_reports job ++ end_reports job o)
    → o ≡ none
unfolding begin_reports end_reports
live_of job none h = refl
live_of job (some e) h = ground arith

of_live :
    (job : Job) (o : Option String)
    → o ≡ none
    → In (phase live) (begin_reports job ++ end_reports job o)
unfolding begin_reports end_reports
of_live job none h = ground arith
of_live job (some e) h = cc

-- A job whose deployment is named reports it live exactly when its call throws no error; then the
-- job throws none.
pub handle-live_iff :
    (run : Call → Option String) (job : Job)
    → get_or job.deployment_id "" ≢ ""
    → In (phase live) (handle run job).0 ↔ ((handle run job).1 ≡ none)
unfolding handle
handle-live_iff run job n =
    let o = run_call run (call_of job) in
    rw (reports-named job (begin_reports job ++ end_reports job o) n) (live_of job o, of_live job o)

failed_of :
    (job : Job) (o : Option String)
    → In (status "failed") (begin_reports job ++ end_reports job o)
    → (o ≢ none) × (get_or job.attempts 1 ≤ job.attempts_made + 1)
unfolding begin_reports end_reports is_final_attempt
failed_of job none h = absurd (
    ground (
      arith,
      str_ne "ready" "failed" refl,
      str_ne "starting" "failed" refl,
      str_ne "rolling_back" "failed" refl,
    ))
failed_of job (some e) h =
    (λ x. cc, ground (arith, str_ne "starting" "failed" refl, str_ne "rolling_back" "failed" refl))

of_failed :
    (job : Job) (o : Option String)
    → (o ≢ none) × (get_or job.attempts 1 ≤ job.attempts_made + 1)
    → In (status "failed") (begin_reports job ++ end_reports job o)
unfolding begin_reports end_reports is_final_attempt
of_failed job none h = absurd (h.0 refl)
of_failed job (some e) h = ground arith

-- A job whose deployment is named reports its failure exactly when its call throws an error and no
-- attempt is left.
pub handle-failed_iff :
    (run : Call → Option String) (job : Job)
    → get_or job.deployment_id "" ≢ ""
    → In (status "failed") (handle run job).0
      ↔ (((handle run job).1 ≢ none) × (get_or job.attempts 1 ≤ job.attempts_made + 1))
unfolding handle
handle-failed_iff run job n =
    let o = run_call run (call_of job) in
    rw (reports-named job (begin_reports job ++ end_reports job o) n)
      (failed_of job o, of_failed job o)
