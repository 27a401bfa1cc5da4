-- ===== src/Rollback/Acceptance.antt =====
-- When a request to roll back is passed on, and what the engine is then asked for.
use hostingservices.Common.{
  ◌↔◌, ◌∷◌, map, ℕ, String, Bool, true, false, Option, none, some, [], ◌≡◌, ◌≢◌, refl, ap, ◌∙◌, sym,
  arith, eq_iff, subst, inl, inr, get_or,
}
use hostingservices.Database.{
  Runtime, Status, ready, is_ready, Deployment, Table, list_deployments, find_id,
}
use hostingservices.Database.Rows.{find_id_sound}
use hostingservices.Rollback.Requests.{
  HasFailed, IsIdle, queue-fails, Guarded-cases, queue-passes, queue-accepted,
}
use hostingservices.Rollback.{
  answered, request_of, rolling_of, queue_to, EngineRequest, Answer, broken, accepted, refused,
  refuse, pass, runtime_of, run_guarded, rollback_to, guard_rollback_to, guard_rows, guard_found,
  clashes,
}
use hostingservices.Rollback.Asked.{
  AsksFor, request_of-AsksFor, IsRolling, rolling_of-IsRolling, rolled, update-rolled,
}

-- Two repositories do not clash if they are the same wherever both are given and not empty.
pub clashes_iff :
    (o p : Option String)
    → (clashes o p ≡ false) ↔ ((a b : String) → o ≡ some a → p ≡ some b → a ≢ "" → b ≢ "" → a ≡ b)
clashes_iff none p = (λ h a b i. cc, λ h. refl)
clashes_iff (some x) none = (λ h a b i j. cc, λ h. refl)
clashes_iff (some x) (some y) =
    (λ h a b i j m n. ground (arith, eq_iff a "", eq_iff b "", eq_iff a b), λ h. agree h)
  where
    agree :
        ((a b : String) → some x ≡ some a → some y ≡ some b → a ≢ "" → b ≢ "" → a ≡ b)
        → clashes (some x) (some y) ≡ false
    agree h = ground (arith, eq_iff x "", eq_iff y "", eq_iff x y, h x y refl refl)

-- `target` is a version that `current` may be rolled back to.
pub record IsTarget (current target : Deployment) : Type 0 where
  pub was_ready : current.status ≡ ready
  pub is_healthy : target.status ≡ ready
  pub project : target.project_id ≡ current.project_id
  pub repo : (a b : String) → current.repo ≡ some a → target.repo ≡ some b → a ≢ "" → b ≢ "" → a ≡ b
  pub image : target.image ≢ ""

pub ready_of : (s : Status) → is_ready s ≡ true → s ≡ ready
unfolding is_ready
ready_of s h = ground arith

guard_rows-IsTarget :
    (c t : Deployment) {x y : Deployment} → guard_rows c t ≡ pass x y → IsTarget c t
unfolding guard_rows
guard_rows-IsTarget c t h = record {
  was_ready = ready_of c.status (ground arith);
  is_healthy = ready_of t.status (ground arith);
  project = (eq_iff t.project_id c.project_id).0 (ground arith);
  repo = (clashes_iff c.repo t.repo).0 (ground arith);
  image = λ e. ground (arith, eq_iff t.image "");
}

guard_rows-same :
    (c t : Deployment) {x y : Deployment} → guard_rows c t ≡ pass x y → (c ≡ x) × (t ≡ y)
unfolding guard_rows
guard_rows-same c t h = ground arith

pub guard_rows_of : (c t : Deployment) → IsTarget c t → guard_rows c t ≡ pass c t
unfolding guard_rows is_ready
guard_rows_of c t h =
    rw (h.was_ready, h.is_healthy, (clashes_iff c.repo t.repo).1 h.repo)
      (ground (arith, eq_iff t.project_id c.project_id, eq_iff t.image ""))

pub guard_found-pass :
    (a b : Option Deployment) {c t : Deployment}
    → guard_found a b ≡ pass c t
    → (a ≡ some c) × (b ≡ some t) × IsTarget c t
guard_found-pass none b h = cc
guard_found-pass (some x) none h = cc
guard_found-pass (some x) (some y) {c} {t} h =
    let same = guard_rows-same x y h in
    let h' = subst (λ a. IsTarget x a) same.1 (guard_rows-IsTarget x y h) in
    (ap some same.0, ap some same.1, subst (λ a. IsTarget a t) same.0 h')

-- What a request that passes the checks of `rollback-to` fulfils.
pub record IsAllowed (is_user : Bool) (id : String) (body : Option String) (t : Table)
    (current target : Deployment) : Type 0 where
  pub user : is_user ≡ true
  pub names : body ≡ some target.id
  pub other : target.id ≢ id
  pub is_current : find_id id (list_deployments t) ≡ some current
  pub is_found : find_id target.id (list_deployments t) ≡ some target
  pub is_target : IsTarget current target

guard_rollback_to-found :
    (u : Bool) (id : String) (body : Option String) (table : Table) {c t : Deployment}
    → guard_rollback_to u id body table ≡ pass c t
    → (u ≡ true)
      × (get_or body "" ≢ "")
      × (get_or body "" ≢ id)
      × (guard_found
            (find_id id (list_deployments table))
            (find_id (get_or body "") (list_deployments table))
          ≡ pass c t)
unfolding guard_rollback_to
guard_rollback_to-found u id body table h =
    ground (arith, eq_iff (get_or body "") "", eq_iff (get_or body "") id)

body_of : (body : Option String) → get_or body "" ≢ "" → body ≡ some (get_or body "")
body_of none h = absurd (h refl)
body_of (some b) h = refl

pub guard_rollback_to-pass :
    (u : Bool) (id : String) (body : Option String) (table : Table) {c t : Deployment}
    → guard_rollback_to u id body table ≡ pass c t
    → IsAllowed u id body table c t
guard_rollback_to-pass u id body table {c} {t} h =
    let f = guard_rollback_to-found u id body table h in
    let ds = list_deployments table in
    let g = guard_found-pass (find_id id ds) (find_id (get_or body "") ds) f.3 in
    let named = (find_id_sound (get_or body "") ds g.1).0 in
    record {
      user = f.0;
      names = body_of body f.1 ∙ ap some (sym named);
      other = λ e. f.2 (sym named ∙ e);
      is_current = g.0;
      is_found = subst (λ j. find_id j ds ≡ some t) (sym named) g.1;
      is_target = g.2;
    }

pub guard_rollback_to_of :
    (u : Bool) (id : String) (body : Option String) (table : Table) {c t : Deployment}
    → IsAllowed u id body table c t
    → t.id ≢ ""
    → guard_rollback_to u id body table ≡ pass c t
unfolding guard_rollback_to
guard_rollback_to_of u id body table {c} {t} h e =
    rw (h.user, h.names)
      (ground (
        arith,
        eq_iff t.id "",
        eq_iff t.id id,
        guard_rows_of c t h.is_target,
        h.is_current,
        h.is_found,
        h.other,
      ))

module _ (engine : EngineRequest → Answer) (u : Bool) (id : String) (body : Option String)
    (t : Table) where
  pub rollback_to-queue :
      {c d : Deployment}
      → guard_rollback_to u id body t ≡ pass c d
      → rollback_to engine u id body t ≡ queue_to engine id t c d
  unfolding rollback_to
  rollback_to-queue g = ap (λ x. run_guarded x t (queue_to engine id t)) g

  pub rollback_to-refuse :
      {code : ℕ} {e : String}
      → guard_rollback_to u id body t ≡ refuse code e
      → rollback_to engine u id body t ≡ record { table = t; sent = []; response = refused code e }
  unfolding rollback_to
  rollback_to-refuse g = ap (λ x. run_guarded x t (queue_to engine id t)) g

  -- A rollback that is refused changes no row of the table of deployments and makes no call of the
  -- engine.
  pub rollback_to-refused :
      (code : ℕ) (e : String)
      → (rollback_to engine u id body t).response ≡ refused code e
      → IsIdle t (rollback_to engine u id body t)
  unfolding queue_to
  rollback_to-refused code e h = elim (Guarded-cases (guard_rollback_to u id body t)) [
    | inl (c, f, g) ↦ rw (rollback_to-refuse g) (refl, refl)
    | inr (c, d, g) ↦ absurd (
        queue-passes engine (request_of id c d) id d (runtime_of c) (rolling_of c d) t code e
          (ap (λ x. x.response) (sym (rollback_to-queue g)) ∙ h))
  ]

  -- A rollback is accepted only for a caller that is signed in, a current row and a target row
  -- that the listing has under the two different ids, both ready, of one project, of repositories
  -- that do not differ, where the target has an image. Then the engine was called once, under a
  -- key of the two ids, for the target's image with the settings of the current runtime, and gave
  -- the job; the rows of the id are `rolling_back`, with the current runtime that names the target
  -- and its image, and no other row is changed.
  pub rollback_to-accepted :
      (i tid image job : String)
      → (rollback_to engine u id body t).response ≡ accepted i tid image job
      → (c : Deployment) × (d : Deployment) × IsAllowed u id body t c d
        × (i ≡ id)
        × (tid ≡ d.id)
        × (image ≡ d.image)
        × (q : EngineRequest) × AsksFor id c d q
        × (engine q ≡ answered job)
        × ((rollback_to engine u id body t).sent ≡ q ∷ [])
        × (r : Runtime) × IsRolling c d r
        × ((rollback_to engine u id body t).table ≡ map (rolled id r) t)
  unfolding queue_to
  rollback_to-accepted i tid image job h = elim (Guarded-cases (guard_rollback_to u id body t)) [
    | inl (c, f, g) ↦ let e = ap (λ x. x.response) (sym (rollback_to-refuse g)) ∙ h in cc
    | inr (c, d, g) ↦
        let (same, named, shown, queued) =
          queue-accepted engine (request_of id c d) id d (runtime_of c) (rolling_of c d) t
            (ap (λ x. x.response) (sym (rollback_to-queue g)) ∙ h) in
        (
          c,
          d,
          guard_rollback_to-pass u id body t g,
          same,
          named,
          shown,
          request_of id c d,
          request_of-AsksFor id c d,
          queued.answer,
          ap (λ x. x.sent) (rollback_to-queue g) ∙ queued.sent,
          rolling_of c d,
          rolling_of-IsRolling c d,
          ap (λ x. x.table) (rollback_to-queue g)
              ∙ queued.table
              ∙ update-rolled id (rolling_of c d) t,
        )
  ]

  -- A request that passes the checks, with a target that has an id, is not refused: if the engine
  -- does not take it, the caller is told its error, and the rows of the id have failed, with their
  -- runtime and that error.
  pub rollback_to-failed :
      (c d : Deployment) (error : String)
      → IsAllowed u id body t c d
      → d.id ≢ ""
      → engine (request_of id c d) ≡ broken error
      → HasFailed id (runtime_of c) error t (rollback_to engine u id body t)
  unfolding queue_to
  rollback_to-failed c d error a n h =
      let g = guard_rollback_to_of u id body t a n in
      rw (rollback_to-queue g)
        (queue-fails engine (request_of id c d) id d (runtime_of c) (rolling_of c d) t h)
