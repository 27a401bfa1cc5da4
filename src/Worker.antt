-- ===== src/Worker.antt =====
-- The deployment worker of the engine (apps/engine/src/worker.ts) and the queue of Redis that it
-- puts lost jobs in (apps/engine/src/redis-queue.ts). What a job reports is a list, in its order;
-- whether the runtime's call throws is an argument. `clean` is what enqueueDeployment does to an
-- idempotency key, and the queue is the list of the jobs that Redis keeps for the node.
pub mod Reports
pub mod Recovery
pub mod Durable
pub mod States
mod Tests
use Prim.Native.String.{◌++◌ as ◌+++◌}
use hostingservices.Common.{
  ℕ, ◌+◌, String, Bool, true, false, Option, none, some, List, [], ◌∷◌, ◌++◌, ◌&&◌, ◌||◌, not, any,
  find, is_some, get_or, leb, ltb, str_eq, if◌then◌else◌,
}
use hostingservices.Lifecycle.{
  DeploymentState, deploying, health_check, traffic_shift, live, diagnosing, failed, rolling_back,
  stopped,
}

pub record Job : Type 0 where
  pub deployment_id : Option String
  pub is_rollback : Bool
  pub previous_image : Option String
  pub replicas : Option ℕ
  pub autoscale_min : Option ℕ
  pub strategy : Option String
  pub attempts_made : ℕ
  pub attempts : Option ℕ

pub data Report : Type 0 where
  status : String → Report
  phase : DeploymentState → Report

-- The three calls of the runtime.
pub data Call : Type 0 where
  rollback_runtime : String → Call
  deploy_replicas : ℕ → Call
  deploy_runtime : Call

-- A report is made only of a job that names its deployment.
abbrev pub reports : Job → List Report → List Report
reports job rs = if str_eq (get_or job.deployment_id "") "" then [] else rs

abbrev pub has_replicas : Job → Bool
has_replicas job =
    ltb 1 (get_or job.replicas 1)
    || is_some job.autoscale_min
    || not (str_eq (get_or job.strategy "") "")

-- The call of the `try`, or the error that it throws before.
unfoldable pub call_of : Job → Option Call
call_of job =
    if job.is_rollback
    then if str_eq (get_or job.previous_image "") ""
      then none
      else some (rollback_runtime (get_or job.previous_image ""))
    else if has_replicas job
    then some (deploy_replicas (get_or job.replicas (get_or job.autoscale_min 1)))
    else some deploy_runtime

-- The outcome of the call: the error that is thrown, if any.
abbrev pub run_call : (Call → Option String) → Option Call → Option String
run_call run none = some "previousImage is required for rollback"
run_call run (some call) = run call

unfoldable pub is_final_attempt : Job → Bool
is_final_attempt job = leb (get_or job.attempts 1) (job.attempts_made + 1)

-- What is reported before the call.
unfoldable pub begin_reports : Job → List Report
begin_reports job =
    if job.is_rollback
    then status "rolling_back" ∷ phase rolling_back ∷ []
    else status "starting" ∷ phase deploying ∷ phase health_check ∷ []

-- What is reported after it.
unfoldable pub end_reports : Job → Option String → List Report
unfolding is_final_attempt
end_reports job none = phase traffic_shift ∷ phase live ∷ status "ready" ∷ []
end_reports job (some error) =
    phase (if job.is_rollback then failed else diagnosing)
    ∷ (if is_final_attempt job then phase failed ∷ status "failed" ∷ [] else [])

-- The handler of a job: its reports, and the error that it throws.
unfoldable pub handle : (Call → Option String) → Job → List Report × Option String
unfolding call_of begin_reports end_reports
handle run job =
    let outcome = run_call run (call_of job) in
    (reports job (begin_reports job ++ end_reports job outcome), outcome)

-- A job that Redis keeps; `pending` while it waits, is delayed or runs.
pub record QueuedJob : Type 0 where
  pub key : String
  pub deployment_id : String
  pub is_rollback : Bool
  pub pending : Bool

abbrev pub has_key : String → List QueuedJob → Bool
has_key key = any (λ (j : QueuedJob). str_eq j.key key)

-- `enqueueDeployment` with an idempotency key: the job that has it, or else a new one.
unfoldable pub enqueue_deployment : QueuedJob → List QueuedJob → List QueuedJob
enqueue_deployment job queue = if has_key job.key queue then queue else queue ++ job ∷ []

unfoldable pub find_deployment_job : String → List QueuedJob → Option QueuedJob
find_deployment_job id = find (λ (j : QueuedJob). j.pending && str_eq j.deployment_id id)

-- A deployment that the API offers for recovery; `spec` is the node of its specification.
pub record Recoverable : Type 0 where
  pub id : String
  pub spec : Option (Option String)
  pub phase : DeploymentState
  pub is_rollback : Bool

abbrev pub is_over : DeploymentState → Bool
is_over live = true
is_over failed = true
is_over stopped = true
is_over _ = false

abbrev pub is_of_node : String → Option (Option String) → Bool
is_of_node node none = false
is_of_node node (some n) = str_eq (get_or n node) node

-- Neither of the two first `continue`s.
unfoldable pub is_lost : String → Recoverable → Bool
is_lost node d = not (str_eq d.id "") && is_of_node node d.spec && not (is_over d.phase)

abbrev pub job_of : (String → String) → Recoverable → QueuedJob
job_of clean d = record {
  key = clean ("recovery:" +++ d.id);
  deployment_id = d.id;
  is_rollback = d.is_rollback;
  pending = true;
}

unfoldable pub recover_one :
    (String → String) → String → Recoverable → List QueuedJob → List QueuedJob
unfolding is_lost enqueue_deployment find_deployment_job
recover_one clean node d queue =
    if is_lost node d && not (is_some (find_deployment_job d.id queue))
    then enqueue_deployment (job_of clean d) queue
    else queue

-- The loop of `recoverLostJobs`.
unfoldable pub recover_lost_jobs :
    (String → String) → String → List Recoverable → List QueuedJob → List QueuedJob
recover_lost_jobs clean node [] queue = queue
recover_lost_jobs clean node (d ∷ ds) queue =
    recover_lost_jobs clean node ds (recover_one clean node d queue)
