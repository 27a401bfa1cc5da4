-- ===== src/Api/Forwarding.antt =====
-- The call that apps/api/src/index.ts makes for a deployment, at the engine of
-- apps/engine/src/index.ts.
use Prim.Native.String.{◌++◌ as ◌+++◌, slice}
use hostingservices.Common.{
  ℕ, ◌≤◌, ltb, String, Bool, true, false, Option, none, some, [], ◌∷◌, ◌≡◌, ◌≢◌, refl, sym, ◌∙◌,
  ◌&&◌, ◌||◌, not, get_or, str_eq, eq_iff, arith, &&-parts, Bool-cases, inl, inr, if◌then◌else◌,
}
use hostingservices.EngineApi.{
  whole, DeployBody, is_bad_number, is_outside, is_one_of, ends_early, check, validate, reply,
  serve, deploy_path, Added, job, max_body,
}
use hostingservices.EngineApi.Callers.{verify_internal_secret_iff}
use hostingservices.Api.Bodies.{
  DeployRequest, if_given, passes, is_filled, is_command, is_autoscale, are_steps, is_canary_plan,
  strategy_of, service_type_of, runtime_passes, source_passes, network_passes,
}
use hostingservices.Api.Calls.{Node, Setting, deploy_call, engine_secret, image_of, health_mode_of}
use hostingservices.Api.Schema.{
  modes, strategies, append-filled, filled, known, given-false, not-true, steps, command, autoscale,
}

check-false :
    (bad : Bool) (e : String) (rest : Option String)
    → bad ≡ false
    → rest ≡ none
    → check bad e rest ≡ none
check-false true e rest h k = cc
check-false false e rest h k = k

module _ (is_url is_name : String → Bool) (e : Setting) (node : Node) (b : DeployRequest) where
  -- What the schema says of the fields that the engine checks.
  record Parts : Type 0 where
    pub source : source_passes is_url is_name b ≡ true
    pub command : if_given b.command is_command ≡ true
    pub health : if_given b.health_mode (is_one_of modes) ≡ true
    pub replicas : not (is_bad_number 1 20 (get_or b.replicas (whole 1))) ≡ true
    pub strategy : is_one_of strategies (strategy_of b) ≡ true
    pub steps : if_given b.canary_steps are_steps ≡ true
    pub scale : if_given b.autoscale is_autoscale ≡ true
    pub cpu : if_given b.cpu_nano_cpus (λ n. not (is_outside 10000000 64000000000 n)) ≡ true
    pub memory : if_given b.memory_bytes (λ n. not (is_outside 16777216 274877906944 n)) ≡ true
    pub pids : if_given b.pids_limit (λ n. not (is_bad_number 32 100000 n)) ≡ true
    pub plan : is_canary_plan b ≡ true

  schema_parts : passes is_url is_name b ≡ true → Parts
  unfolding passes
  schema_parts h =
      let (front, plan) =
        &&-parts
          (source_passes is_url is_name b
            && network_passes is_url is_name b
            && runtime_passes is_url is_name b)
          (is_canary_plan b) h in
      let (before, runtime) =
        &&-parts (source_passes is_url is_name b && network_passes is_url is_name b)
          (runtime_passes is_url is_name b) front in
      let (source, network) =
        &&-parts (source_passes is_url is_name b) (network_passes is_url is_name b) before in
      let (r8, c9) = &&-parts _ _ runtime in
      let (r7, c8) = &&-parts _ _ r8 in
      let (r6, c7) = &&-parts _ _ r7 in
      let (r5, c6) = &&-parts _ _ r6 in
      let (r4, c5) = &&-parts _ _ r5 in
      let (r3, c4) = &&-parts _ _ r4 in
      let (r2, c3) = &&-parts _ _ r3 in
      let (c1, c2) = &&-parts _ _ r2 in
      record {
        source = source;
        command = c1;
        health = c2;
        replicas = c3;
        strategy = c4;
        steps = c5;
        scale = c6;
        cpu = c7;
        memory = c8;
        pids = c9;
        plan = plan;
      }

  image-filled : source_passes is_url is_name b ≡ true → str_eq (image_of e.id b) "" ≡ false
  image-filled h =
      elim b.image
          as (λ image.
            if_given image is_filled ≡ true
            → str_eq (get_or image ("nexus/build:" +++ slice e.id 0 12)) "" ≡ false) [
              | none ↦ λ i. append-filled "nexus/build:" _ (omega arith)
              | some v ↦ λ i. filled v i
            ]
        (ground (arith, h))

  health-known :
      if_given b.health_mode (is_one_of modes) ≡ true → is_one_of modes (health_mode_of b) ≡ true
  health-known h =
      elim b.health_mode
          as (λ mode.
            if_given mode (is_one_of modes) ≡ true
            → is_one_of modes (get_or mode (health_mode_of (record b { health_mode = none })))
              ≡ true) [
                | none ↦ λ i.
                    elim (str_eq (service_type_of b) "worker" || str_eq (service_type_of b) "cron")
                      as (λ c. is_one_of modes (if c then "process" else "auto") ≡ true) [
                        | true ↦ refl
                        | false ↦ refl
                      ]
                | some v ↦ λ i. i
              ]
        h

  canary : is_canary_plan b ≡ true → ends_early (some (strategy_of b)) b.canary_steps ≡ false
  canary h = elim (Bool-cases (str_eq (strategy_of b) "canary")) [
    | inr k ↦ rw k refl
    | inl k ↦
        elim b.canary_steps
            as (λ steps.
              is_canary_plan (record b { canary_steps = steps }) ≡ true
              → ends_early (some (strategy_of b)) steps ≡ false) [
                | none ↦ λ i. ground (arith, k)
                | some s ↦ λ i. ground (arith, k, i)
              ]
          h
  ]

  -- The engine's checks take the call that is made from a body that the API's schema takes.
  pub validate-deploy_call :
      passes is_url is_name b ≡ true → validate false (deploy_call e node b).checked ≡ none
  unfolding passes validate deploy_call
  validate-deploy_call h =
      let parts = schema_parts h in
      check-false _ _ _
        (ground
          (arith, append-filled "nexus-" (slice e.id 0 8) (omega arith), image-filled parts.source))
        (check-false _ _ _ (not-true _ parts.replicas) (
          check-false _ "strategy must be rolling, blue_green or canary" _
            (known strategies (strategy_of b) parts.strategy)
            (check-false _ "canarySteps must contain up to 10 integer percentages from 1 to 100" _
              (given-false b.canary_steps are_steps _ steps parts.steps)
              (check-false _ "canarySteps must end at 100" _ (canary parts.plan) (
                check-false _ "cpuNanoCpus must be between 10m and 64 CPUs" _
                  (given-false b.cpu_nano_cpus _ _ (λ n. not-true _) parts.cpu)
                  (check-false _ "memoryBytes must be between 16MiB and 256GiB" _
                    (given-false b.memory_bytes _ _ (λ n. not-true _) parts.memory)
                    (check-false _ "pidsLimit must be between 32 and 100000" _
                      (given-false b.pids_limit _ _ (λ n. not-true _) parts.pids)
                      (check-false _ "volumeBinds must contain at most 16 strings" _ refl (
                        check-false _
                          "autoscale must have 1<=min<=max<=20, cpuPercent 1-100 and intervalSeconds 10-300"
                          _ (given-false b.autoscale is_autoscale _ autoscale parts.scale)
                          (check-false _ "command must be an array of up to 32 strings" _
                            (given-false b.command is_command _ command parts.command)
                            (check-false _ "invalid healthMode" _
                              (known modes (health_mode_of b) (health-known parts.health))
                              refl)))))))))))

deploy_call-secret :
    (e : Setting) (node : Node) (b : DeployRequest)
    → (deploy_call e node b).engine_secret ≡ e.engine_secret
unfolding deploy_call
deploy_call-secret e node b = refl

engine_secret-sign :
    (sign : String → String) (secret : String)
    → secret ≢ ""
    → engine_secret sign (some secret) ≡ sign secret
unfolding engine_secret
engine_secret-sign sign secret n = elim (Bool-cases (str_eq secret "")) [
  | inl k ↦ absurd (n ((eq_iff secret "").0 k))
  | inr k ↦ rw k refl
]

-- The engine that has the API's secret puts every deployment in its queue that the API's schema
-- takes and whose call is of 1,000,000 characters at most, if its queue does not fail: the call
-- carries the engine's header and passes all checks of its body.
pub serve-deploy_call :
    (sign : String → String) (add : DeployBody → Added) (secret : String)
    (is_url is_name : String → Bool) (e : Setting) (node : Node) (b : DeployRequest) (length : ℕ)
    (id : String)
    → length ≤ max_body
    → add (deploy_call e node b).checked ≡ job id
    → secret ≢ ""
    → sign secret ≢ ""
    → e.engine_secret ≡ engine_secret sign (some secret)
    → passes is_url is_name b ≡ true
    → serve sign add (some secret) (record {
      path = deploy_path;
      engine_secret = some (deploy_call e node b).engine_secret;
      body_length = length;
      body = (deploy_call e node b).checked;
    })
      ≡ some (record { response = reply 202 id; jobs = (deploy_call e node b).checked ∷ [] })
unfolding serve
serve-deploy_call sign add secret is_url is_name e node b length id short added n m same h =
    let own = engine_secret-sign sign secret n in
    let header : (deploy_call e node b).engine_secret ≡ sign secret =
      deploy_call-secret e node b ∙ same ∙ own in
    let not_longer : ltb max_body length ≡ false = ground (arith, short) in
    rw
      (
        (verify_internal_secret_iff sign (some secret)
              (some (deploy_call e node b).engine_secret)).1
            (n, λ k. m (sym header ∙ k), header),
        not_longer,
        validate-deploy_call is_url is_name e node b h,
        added,
      )
      refl
