-- ===== src/EngineApi/Callers.antt =====
-- Who may call the engine of apps/engine/src/index.ts, and what its callers get: the secret of
-- apps/engine/src/node-auth.ts, and the call that the rollback of
-- apps/api/src/deployment-history.ts makes.
use Prim.Native.String.{◌++◌ as ◌+++◌, len}
use hostingservices.Common.{
  ℕ, String, Bool, true, false, Option, none, some, [], ◌≡◌, ◌≢◌, ◌↔◌, ◌⊎◌, inl, inr, refl, ap, ◌∙◌,
  sym, arith, get_or, str_eq, eq_iff, if◌then◌else◌, In, ==_iff, Bool-cases, subst, leb, ltb, ◌&&◌,
}
use hostingservices.Database.{Deployment, Table}
use hostingservices.EngineApi.{
  DeployBody, Request, Added, job, not_added, hung_up, max_body, queue_added, read_body, reply,
  Served, serve, is_protected, deploy_path, rollback_path, validate, queue_valid,
  verify_internal_secret, internal_auth_header,
}
use hostingservices.EngineApi.Validation.{IsValid, validate-IsValid}
use hostingservices.Rollback.{
  EngineRequest, Answer, answered, broken, rollback_to, request_of, runtime_of,
}
use hostingservices.Rollback.Requests.{HasFailed}
use hostingservices.Rollback.Acceptance.{IsAllowed, rollback_to-failed}

module _ (sign : String → String) where
  -- A value passes exactly if a secret is configured and the value is its signature, which is not
  -- empty.
  pub verify_internal_secret_iff :
      (secret value : Option String)
      → (verify_internal_secret sign secret value ≡ true) ↔ (
          (get_or secret "" ≢ "")
          × (get_or value "" ≢ "")
          × (get_or value "" ≡ sign (get_or secret "")))
  unfolding verify_internal_secret
  verify_internal_secret_iff secret value = (
    λ h. (
      λ e. ground (arith, eq_iff (get_or secret "") ""),
      λ e. ground (arith, eq_iff (get_or value "") ""),
      (eq_iff (get_or value "") (sign (get_or secret ""))).0 (ground arith),
    ),
    λ h. ground (
      arith,
      eq_iff (get_or secret "") "",
      eq_iff (get_or value "") "",
      eq_iff (get_or value "") (sign (get_or secret "")),
      ap len h.2,
      ==_iff (len (get_or value "")) (len (sign (get_or secret ""))),
    ),
  )

  -- The header that a caller makes from a secret passes the engine that has the same secret.
  pub verify-header :
      (secret : Option String) (header : String)
      → internal_auth_header sign secret ≡ some header
      → header ≢ ""
      → verify_internal_secret sign secret (some header) ≡ true
  unfolding internal_auth_header
  verify-header secret header h n =
      (verify_internal_secret_iff secret (some header)).1
        (λ e. ground (arith, eq_iff (get_or secret "") ""), n, ground arith)

module _ (sign : String → String) (add : DeployBody → Added) (secret : Option String) where
  -- A call of a protected path without the secret is answered 401, and queues nothing.
  pub serve-unauthorized :
      (r : Request)
      → is_protected r.path ≡ true
      → verify_internal_secret sign secret r.engine_secret ≡ false
      → serve sign add secret r
        ≡ some (record { response = reply 401 "Unauthorized engine request"; jobs = [] })
  unfolding serve
  serve-unauthorized r p v = ground (arith, p, v)

  queue_valid-In :
      (b x : DeployBody) (o : Option String)
      → In x (queue_valid add b o).jobs
      → (o ≡ none) × (b ≡ x)
  queue_valid-In b x none h = (refl, queue_added-In (add b) h)
    where
      queue_added-In : (a : Added) → In x (queue_added b a).jobs → b ≡ x
      queue_added-In (job id) (inl e) = e
      queue_added-In (job id) (inr i) = absurd i
      queue_added-In (not_added error) i = absurd i
  queue_valid-In b x (some e) h = absurd h

  some-inj : {x y : Served} → some x ≡ some y → x ≡ y
  some-inj h = cc

  read_body-In :
      (rollback : Bool) (r : Request) (b : DeployBody)
      → In b (read_body add rollback r).jobs
      → (validate rollback r.body ≡ none) × (r.body ≡ b)
  read_body-In rollback r b i = elim (Bool-cases (ltb max_body r.body_length)) [
    | inl e ↦ absurd (rw e at i)
    | inr e ↦ queue_valid-In r.body b (validate rollback r.body) (rw e at i)
  ]

  read_body-IsValid :
      (rollback : Bool) (r : Request) (v : Served) (b : DeployBody)
      → some (read_body add rollback r) ≡ some v
      → In b v.jobs
      → (r.body ≡ b) × IsValid rollback b
  read_body-IsValid rollback r v b h i =
      let s = some-inj h in
      let q = read_body-In rollback r b (subst (λ (x : Served). In b x.jobs) (sym s) i) in
      (q.1, subst (IsValid rollback) q.1 (validate-IsValid rollback r.body q.0))

  serve-path :
      (r : Request) (v : Served) (b : DeployBody)
      → verify_internal_secret sign secret r.engine_secret ≡ true
      → serve sign add secret r ≡ some v
      → In b v.jobs
      → (r.body ≡ b)
        × (((r.path ≡ deploy_path) × IsValid false b) ⊎ ((r.path ≡ rollback_path) × IsValid true b))
  unfolding serve
  serve-path r v b e h i = elim (Bool-cases (str_eq r.path deploy_path)) [
    | inl d ↦
        let (same, valid) = read_body-IsValid false r v b (ground (arith, d, e)) i in
        (same, inl ((eq_iff r.path deploy_path).0 d, valid))
    | inr d ↦ elim (Bool-cases (str_eq r.path rollback_path)) [
      | inl k ↦
          let (same, valid) = read_body-IsValid true r v b (ground (arith, d, e, k)) i in
          (same, inr ((eq_iff r.path rollback_path).0 k, valid))
      | inr k ↦ ground (arith, d, e, k)
    ]
  ]

  -- What a request of a protected path puts in the engine's queue is its body; it came from a
  -- caller with the secret, and it keeps the bounds for a deployment or for a rollback, whichever
  -- the path is for.
  pub serve-IsValid :
      (r : Request) (v : Served) (b : DeployBody)
      → is_protected r.path ≡ true
      → serve sign add secret r ≡ some v
      → In b v.jobs
      → (verify_internal_secret sign secret r.engine_secret ≡ true)
        × (r.body ≡ b)
        × (((r.path ≡ deploy_path) × IsValid false b) ⊎ ((r.path ≡ rollback_path) × IsValid true b))
  serve-IsValid r v b p h i =
      elim (Bool-cases (verify_internal_secret sign secret r.engine_secret)) [
        | inl e ↦ let (same, valid) = serve-path r v b e h i in (e, same, valid)
        | inr e ↦
            let s : record { response = reply 401 "Unauthorized engine request"; jobs = [] } ≡ v =
              some-inj (sym (serve-unauthorized r p e) ∙ h) in
            absurd (subst (λ (x : Served). In b x.jobs) (sym s) i)
      ]

  -- The call that the API's rollback makes: it has the headers `content-type` and
  -- `Idempotency-Key`, and no `x-engine-secret`.
  abbrev pub body_of : EngineRequest → DeployBody
  body_of q = record {
    name = some q.name;
    image = none;
    previous_image = some q.previous_image;
    strategy = none;
    canary_steps = none;
    replicas = none;
    autoscale = none;
    command = none;
    health_mode = q.health_mode;
    cpu_nano_cpus = none;
    memory_bytes = none;
    pids_limit = none;
    volume_binds = none;
  }

  abbrev pub answer_of : Option Served → Answer
  answer_of none = broken "Error: {\"error\":\"Not found\"}"
  answer_of (some v) = elim v.response [
    | hung_up ↦ broken "TypeError: fetch failed"
    | reply code body ↦
        if leb 200 code && ltb code 300
        then answered body
        else broken ("Error: {\"error\":\"" +++ (body +++ "\"}"))
  ]

  -- `size` is the length of the call's body.
  unfoldable pub call_engine : (size : EngineRequest → ℕ) → EngineRequest → Answer
  call_engine size q = answer_of (
      serve sign add secret (record {
        path = rollback_path;
        engine_secret = none;
        body_length = size q;
        body = body_of q;
      }))

  abbrev pub unauthorized : String
  unauthorized = "Error: {\"error\":\"Unauthorized engine request\"}"

  unverified : verify_internal_secret sign secret none ≡ false
  unfolding verify_internal_secret
  unverified = ground arith

  call_engine-unauthorized :
      (size : EngineRequest → ℕ) (q : EngineRequest) → call_engine size q ≡ broken unauthorized
  unfolding call_engine
  call_engine-unauthorized size q = ap answer_of (
      serve-unauthorized
        (record {
          path = rollback_path;
          engine_secret = none;
          body_length = size q;
          body = body_of q;
        })
        refl unverified)

  -- Whatever the engine's secret is, a rollback that passes every check of the API, to a target
  -- with an id, fails when the engine is called as the API calls it: the engine answers 401, since
  -- the call has no secret, and the rows of the deployment, which was healthy, are marked as
  -- failed.
  pub rollback_to-unauthorized :
      (size : EngineRequest → ℕ) (id : String) (t : Table) (c d : Deployment)
      → IsAllowed true id (some d.id) t c d
      → d.id ≢ ""
      → HasFailed id
          (runtime_of c)
          unauthorized
          t
          (rollback_to (call_engine size) true id (some d.id) t)
  rollback_to-unauthorized size id t c d a n =
      rollback_to-failed (call_engine size) true id (some d.id) t c d unauthorized a n
        (call_engine-unauthorized size (request_of id c d))
