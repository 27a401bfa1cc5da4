-- ===== src/Worker/Durable.antt =====
-- The durable state of a deployment that a job names: what `reportPhase` of
-- apps/engine/src/worker.ts sends, and what the callback of
-- apps/api/src/production-platform-routes.ts and `updateDeploymentState` of apps/api/src/db.ts
-- make of it. Metadata is a list of keys with the text of their values; the specs and runtimes in
-- it, the ids of the node and the job and the generations are left out.
use hostingservices.Common.{
  ℕ, String, Bool, true, false, Option, none, some, List, [], ◌∷◌, not, get_or, str_eq, insert,
  length, ◌++◌, if◌then◌else◌,
}
use hostingservices.Lifecycle.{
  DeploymentState, live, failed, diagnosing, traffic_shift, deploying, health_check, rolling_back,
}
use hostingservices.Worker.{Job, Call, call_of, run_call, is_final_attempt}

-- The body of the callback.
pub record StateBody : Type 0 where
  pub phase : DeploymentState
  pub attempt : Option ℕ
  pub strategy : Option String
  pub error : Option String
  pub metadata : List (String × String)
  pub finished : Option Bool

-- The row of `deployment_state`.
pub record StateRow : Type 0 where
  pub phase : DeploymentState
  pub attempt : ℕ
  pub strategy : String
  pub error : Option String
  pub metadata : List (String × String)
  pub finished_at : Option ℕ

-- What `reportPhase` is given with the phase: the error, and that the deployment has finished.
pub record Extra : Type 0 where
  pub error : Option String
  pub finished : Bool

abbrev entries : Extra → List (String × String)
entries x = elim x.error [
  | none ↦ if x.finished then ("finished", "true") ∷ [] else []
  | some e ↦ ("error", e) ∷ (if x.finished then ("finished", "true") ∷ [] else [])
]

-- `reportPhase`: what it is given goes into the metadata.
unfoldable pub phase_body : Job → DeploymentState → Extra → StateBody
phase_body job p x = record {
  phase = p;
  attempt = some job.attempts_made;
  strategy = some (get_or job.strategy "rolling");
  error = none;
  metadata = entries x;
  finished = none;
}

-- The header of the worker's calls.
abbrev pub callback_header : String → Option String
callback_header secret = if str_eq secret "" then none else some secret

-- `validEngineCallback`
unfoldable pub valid_engine_callback : (production : Bool) → String → Option String → Bool
valid_engine_callback production configured header =
    if str_eq configured ""
    then not production
    else elim header [ none ↦ false | some h ↦ str_eq h configured ]

abbrev merge : List (String × String) → List (String × String) → List (String × String)
merge [] old = old
merge ((k, v) ∷ rest) old = merge rest (insert k v old)

abbrev ends_at : ℕ → Option Bool → Option ℕ → Option ℕ
ends_at now finished old = if get_or finished false then some now else old

abbrev or_old {ℓ} : {A : Type ℓ} → Option A → A → A
or_old o old = get_or o old

-- `updateDeploymentState`: the row is added, or changed where the body has a value.
unfoldable pub update_state : ℕ → StateBody → Option StateRow → StateRow
unfolding insert
update_state now b none = record {
  phase = b.phase;
  attempt = get_or b.attempt 0;
  strategy = get_or b.strategy "rolling";
  error = b.error;
  metadata = b.metadata;
  finished_at = ends_at now b.finished none;
}
update_state now b (some r) = record {
  phase = b.phase;
  attempt = or_old b.attempt r.attempt;
  strategy = or_old b.strategy r.strategy;
  error = b.error;
  metadata = merge b.metadata r.metadata;
  finished_at = ends_at now b.finished r.finished_at;
}

-- The callback: a call without the secret changes nothing.
unfoldable pub set_state :
    (production : Bool) → String → Option String → ℕ → StateBody → StateRow → StateRow
unfolding valid_engine_callback update_state
set_state production configured header now b r =
    if valid_engine_callback production configured header then update_state now b (some r) else r

abbrev pub plain : Extra
plain = record { error = none; finished = false }

-- The phases that the handler of a job reports, with what it gives `reportPhase`: before its call,
-- and after it, where `outcome` is the error of the call.
abbrev pub begin_phases : Job → List (DeploymentState × Extra)
begin_phases job =
    if job.is_rollback
    then (rolling_back, plain) ∷ []
    else (deploying, plain) ∷ (health_check, plain) ∷ []

abbrev pub end_phases : Job → Option String → List (DeploymentState × Extra)
end_phases job none = (traffic_shift, plain) ∷ (live, record { error = none; finished = true }) ∷ []
end_phases job (some e) =
    (if job.is_rollback then failed else diagnosing, record { error = some e; finished = false })
    ∷ (if is_final_attempt job
        then (failed, record { error = some e; finished = true }) ∷ []
        else [])

unfoldable pub job_phases : (Call → Option String) → Job → List (DeploymentState × Extra)
unfolding is_final_attempt call_of
job_phases run job = begin_phases job ++ end_phases job (run_call run (call_of job))

-- The callbacks that report phases, one after the other, at the times `now`.
unfoldable pub report_phases :
    (production : Bool)
    → String
    → Option String
    → (now : ℕ → ℕ) → Job
    → List (DeploymentState × Extra)
    → StateRow
    → StateRow
unfolding set_state phase_body
report_phases production configured header now job [] r = r
report_phases production configured header now job ((p, x) ∷ rest) r =
    report_phases production configured header now job rest
      (set_state production configured header (now (length rest)) (phase_body job p x) r)
