-- ===== src/Web/DeployForm.antt =====
-- The form of the page that deploys a repository (`deploy` of apps/web/app/deploy/page.tsx): what
-- it asks for, and the body that it sends. Two functions read numbers: `to_step` is
-- `Math.round(Number(text))`, none if the number is not finite and `not_whole` if it is negative,
-- and `to_port` is `Number(text)`, taken to be a whole number, or none.
use Prim.Native.String.{slice}
use hostingservices.Common.{
  ℕ, String, Bool, true, false, Option, none, some, List, [], ◌∷◌, ◌++◌, ◌&&◌, ◌||◌, ◌==◌, not, any,
  get_or, str_eq, if◌then◌else◌,
}
use hostingservices.Common.Texts.{Text, text, split, trim}
use hostingservices.EngineApi.{Number, is_bad_number, ends_at}
use hostingservices.Api.Bodies.{DeployRequest}
use hostingservices.Web.RollbackButton.{Answer, value, failure, exception, or_text}
use hostingservices.Web.DeployPage.{PageState, Detection, Shown}

abbrev numbers : (Text → Option Number) → List Text → List Number
numbers to_step [] = []
numbers to_step (t ∷ ts) = elim (to_step (trim t)) [
  | none ↦ numbers to_step ts
  | some n ↦ n ∷ numbers to_step ts
]

-- `parsedCanary`
unfoldable pub parsed_canary : (Text → Option Number) → Text → List Number
unfolding split
parsed_canary to_step t = let (part, parts) = split b',' t in numbers to_step (part ∷ parts)

-- The steps of a canary are refused.
abbrev pub are_bad_steps : List Number → Bool
are_bad_steps steps = not (ends_at 100 steps) || any (is_bad_number 1 100) steps

abbrev has_services : Option Detection → Bool
has_services none = false
has_services (some d) = elim (get_or d.available_services []) [ [] ↦ false | x ∷ xs ↦ true ]

abbrev pub filled : String → String → String
filled v other = if str_eq v "" then other else v

abbrev pub given : String → Option String
given v = if str_eq v "" then none else some v

abbrev pub port_of : Option ℕ → ℕ
port_of none = 80
port_of (some n) = if n == 0 then 80 else n

module _ (to_step : Text → Option Number) (to_port : Text → Option ℕ) where
  -- The first thing that is missing.
  unfoldable pub complaint : PageState → Option String
  unfolding parsed_canary
  complaint s =
      if str_eq s.project_id ""
      then some "Select or create a project first."
      else if str_eq s.repo ""
      then some "Enter a Git repository URL first."
      else if has_services s.detection && str_eq s.service ""
      then some "Select a repository service before deploying."
      else if str_eq s.strategy "canary" && are_bad_steps (parsed_canary to_step s.canary_steps)
      then some "Canary steps must be percentages from 1 to 100 and must end at 100."
      else none

  -- The body of the request.
  unfoldable pub form_body : PageState → DeployRequest
  unfolding parsed_canary
  form_body s =
      let is_web = str_eq s.service_type "web" in
      record {
        project_id = s.project_id;
        repo = some s.repo;
        ref = some (filled s.ref "main");
        image = none;
        service = given s.service;
        service_type = some s.service_type;
        command = none;
        is_public = some is_web;
        health_mode = some (if is_web then "auto" else "process");
        host_port = none;
        container_port = some (port_of (to_port s.container_port));
        health_path = if is_web then some (filled s.health_path "/") else none;
        domain = none;
        replicas = none;
        zero_downtime = none;
        rollback_on_failure = none;
        strategy = some s.strategy;
        canary_steps =
            if str_eq s.strategy "canary"
            then some (parsed_canary to_step s.canary_steps)
            else none;
        autoscale = none;
        env = none;
        region = none;
        cpu_nano_cpus = none;
        memory_bytes = none;
        pids_limit = none;
      }

  abbrev queued_message : String → Text
  queued_message id =
      text "Queued: "
      ++ text (slice id 0 8)
      ++ text ". Nexus will update this screen as the deployment progresses."

  abbrev finish : Answer Shown → PageState → PageState
  finish (value d) s = record s { deployment = some d; message = queued_message d.id }
  finish (failure detail error) s = record s {
    message = text (or_text detail (or_text error "Deployment failed"));
  }
  finish (exception message) s = record s { message = text (get_or message "Deployment failed") }

  -- `deploy`, with the body that it sends, if it does.
  unfoldable pub deploy : Answer Shown → PageState → PageState × Option DeployRequest
  unfolding complaint form_body
  deploy answer s = elim (complaint s) [
    | some c ↦ (record s { message = text c }, none)
    | none ↦
        (record (finish answer (record s { logs = none })) { busy = false }, some (form_body s))
  ]
