-- ===== src/Api/Races.antt =====
-- The pipeline of apps/api/src/index.ts beside the worker of apps/engine/src/worker.ts: both write
-- the status of the deployment, the worker through the callback of
-- apps/api/src/production-platform-routes.ts. The engine answers when the job is queued, so that
-- the pipeline's last write and the reports of the job come in any order.
use hostingservices.Common.{
  String, false, Option, none, some, List, [], ◌∷◌, ◌++◌, ◌≡◌, ◌≢◌, ◌⊎◌, refl, sym, ap, ◌∙◌, subst,
  str_eq, get_or, arith, inl, inr, if◌then◌else◌,
}
use hostingservices.Database.{Status, queued, building, starting, ready, failed, rolling_back}
use hostingservices.Rollback.{Answer, answered}
use hostingservices.Worker
use hostingservices.Worker.{
  Job, Report, Call, call_of, run_call, begin_reports, end_reports, reports,
}
use hostingservices.Worker.Reports.{reports-named}
use hostingservices.Api.{Placement, Store, update_deployment}
use hostingservices.Api.Bodies.{DeployRequest}
use hostingservices.Api.Calls.{Node, EngineCall, Setting, placed}
use hostingservices.Api.Deploying.{with_answer}
use hostingservices.Api.Pipelines.{HasStatus, update-HasStatus}

-- The statuses that the callback takes.
unfoldable pub status_of : String → Option Status
status_of v =
    if str_eq v "queued"
    then some queued
    else if str_eq v "building"
    then some building
    else if str_eq v "starting"
    then some starting
    else if str_eq v "ready"
    then some ready
    else if str_eq v "failed"
    then some failed
    else if str_eq v "rolling_back"
    then some rolling_back
    else none

-- One update of the row.
pub record Write : Type 0 where
  pub status : Status
  pub runtime : Option Placement

-- The updates that the reports of a job make; a report with another status is refused, and the
-- phases are kept in another table. `told` is the runtime that is reported with a status.
unfoldable pub writes_of : (Status → Option Placement) → List Report → List Write
unfolding status_of
writes_of told [] = []
writes_of told (Worker.phase p ∷ rs) = writes_of told rs
writes_of told (Worker.status v ∷ rs) = elim (status_of v) [
  | none ↦ writes_of told rs
  | some s ↦ record { status = s; runtime = told s } ∷ writes_of told rs
]

unfoldable pub apply_writes : String → List Write → Store → Store
apply_writes id [] s = s
apply_writes id (w ∷ ws) s = apply_writes id ws (update_deployment id w.status w.runtime s)

-- The pipeline's last write, after an answer that is ok.
abbrev pub last_write : Node → DeployRequest → String → Write
last_write node b value = record {
  status = starting;
  runtime = some (record (placed node b) { engine_answer = some value });
}

pub data Interleaves {A : Type 0} : List A → List A → List A → Type 0 where
  neither : Interleaves [] [] []
  left : {xs ys zs : List A} (x : A) → Interleaves xs ys zs → Interleaves (x ∷ xs) ys (x ∷ zs)
  right : {xs ys zs : List A} (y : A) → Interleaves xs ys zs → Interleaves xs (y ∷ ys) (y ∷ zs)

abbrev last_status : Status → List Write → Status
last_status v [] = v
last_status v (w ∷ ws) = last_status w.status ws

apply_writes-HasStatus :
    (id : String) (v : Status) (ws : List Write) (s : Store)
    → HasStatus id v s
    → HasStatus id (last_status v ws) (apply_writes id ws s)
unfolding apply_writes
apply_writes-HasStatus id v [] s h = h
apply_writes-HasStatus id v (w ∷ ws) s h =
    apply_writes-HasStatus id w.status ws _ (update-HasStatus id w.status v w.runtime s h)

module _ {A : Type 0} where
  only_right : {ys zs : List A} → Interleaves [] ys zs → zs ≡ ys
  only_right neither = refl
  only_right (right y i) = ap (◌∷◌ y) (only_right i)

  -- The one write comes last.
  late : (x : A) (ys : List A) → Interleaves (x ∷ []) ys (ys ++ x ∷ [])
  late x [] = left x neither
  late x (y ∷ ys) = right y (late x ys)

last_status-append :
    (v : Status) (ws : List Write) (w : Write) → last_status v (ws ++ w ∷ []) ≡ w.status
last_status-append v [] w = refl
last_status-append v (x ∷ ws) w = last_status-append x.status ws w

last_status-raced :
    (w : Write) (v : Status) {ws zs : List Write}
    → Interleaves (w ∷ []) ws zs
    → (last_status v zs ≡ w.status) ⊎ (last_status v zs ≡ last_status v ws)
last_status-raced w v {ws = []} (left x i) = inl (ap (last_status w.status) (only_right i))
last_status-raced w v {ws = y ∷ ys} (left x i) = inr (ap (last_status w.status) (only_right i))
last_status-raced w v (right y i) = last_status-raced w y.status i

writes_of-ready :
    (job : Job) (told : Status → Option Placement) (v : Status) (o : Option String)
    → o ≡ none
    → job.is_rollback ≡ false
    → last_status v (writes_of told (begin_reports job ++ end_reports job o)) ≡ ready
unfolding Worker.begin_reports Worker.end_reports writes_of status_of
writes_of-ready job told v none e deploys = ground (arith, deploys)
writes_of-ready job told v (some error) e deploys = cc

-- A job that deploys and throws nothing reports its deployment ready last.
writes_of-handle :
    (run : Call → Option String) (job : Job) (told : Status → Option Placement) (id : String)
    → job.deployment_id ≡ some id
    → id ≢ ""
    → job.is_rollback ≡ false
    → (Worker.handle run job).1 ≡ none
    → (v : Status) → last_status v (writes_of told (Worker.handle run job).0) ≡ ready
unfolding Worker.handle
writes_of-handle run job told id named n deploys e v =
    let is_named : get_or job.deployment_id "" ≢ "" =
      λ k. n (ap (λ o. get_or o "") (sym named) ∙ k) in
    let o = run_call run (call_of job) in
    rw (reports-named job (begin_reports job ++ end_reports job o) is_named)
      (writes_of-ready job told v o e deploys)

-- The pipeline's last write is what an answer that is ok does.
with_answer-write :
    (engine : EngineCall → Answer) (e : Setting) (node : Node) (b : DeployRequest) (value : String)
    (s : Store)
    → with_answer engine e node b (answered value) s
      ≡ apply_writes e.id (last_write node b value ∷ []) s
unfolding apply_writes
with_answer-write engine e node b value s = refl

apply_writes-append :
    (id : String) (ws : List Write) (w : Write) (s : Store)
    → apply_writes id (ws ++ w ∷ []) s ≡ apply_writes id (w ∷ []) (apply_writes id ws s)
unfolding apply_writes
apply_writes-append id [] w s = refl
apply_writes-append id (x ∷ ws) w s =
    apply_writes-append id ws w (update_deployment id x.status x.runtime s)

-- The engine answered a deployment, and its job reports it ready in the end. Whatever the order of
-- the pipeline's last write and the reports, the row is then ready or starting; and it is left
-- starting if the pipeline handles the answer after the reports.
pub late_answer :
    (run : Call → Option String) (job : Job) (told : Status → Option Placement)
    (engine : EngineCall → Answer) (e : Setting) (node : Node) (b : DeployRequest) (value : String)
    (u : Status) (s : Store)
    → HasStatus e.id u s
    → job.deployment_id ≡ some e.id
    → e.id ≢ ""
    → job.is_rollback ≡ false
    → (Worker.handle run job).1 ≡ none
    → let w = last_write node b value in
      let ws = writes_of told (Worker.handle run job).0 in
      ((zs : List Write)
        → Interleaves (w ∷ []) ws zs
        → HasStatus e.id ready (apply_writes e.id zs s)
          ⊎ HasStatus e.id starting (apply_writes e.id zs s))
      × Interleaves (w ∷ []) ws (ws ++ w ∷ [])
      × (apply_writes e.id (ws ++ w ∷ []) s
          ≡ with_answer engine e node b (answered value) (apply_writes e.id ws s))
      × HasStatus e.id starting (apply_writes e.id (ws ++ w ∷ []) s)
late_answer run job told engine e node b value u s h named n deploys none_thrown =
    let w = last_write node b value in
    let ws = writes_of told (Worker.handle run job).0 in
    (
      λ zs i. elim (last_status-raced w u i) [
        | inl k ↦ inr (
            subst (λ v. HasStatus e.id v (apply_writes e.id zs s)) k
              (apply_writes-HasStatus e.id u zs s h))
        | inr k ↦ inl (
            subst (λ v. HasStatus e.id v (apply_writes e.id zs s))
              (k ∙ writes_of-handle run job told e.id named n deploys none_thrown u)
              (apply_writes-HasStatus e.id u zs s h))
      ],
      late w ws,
      apply_writes-append e.id ws w s
          ∙ sym (with_answer-write engine e node b value (apply_writes e.id ws s)),
      subst (λ v. HasStatus e.id v (apply_writes e.id (ws ++ w ∷ []) s)) (last_status-append u ws w)
          (apply_writes-HasStatus e.id u (ws ++ w ∷ []) s h),
    )
