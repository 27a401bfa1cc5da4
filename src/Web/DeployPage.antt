-- ===== src/Web/DeployPage.antt =====
-- The page that deploys a repository (apps/web/app/deploy/page.tsx): its state and its handlers,
-- and what its timers do with the API's answers. The rendering is left out.
use hostingservices.Common.{
  String, Bool, false, Option, none, some, List, [], ◌∷◌, ◌++◌, ◌&&◌, ◌||◌, ◌==◌, not, any, find,
  get_or, str_eq, if◌then◌else◌,
}
use hostingservices.Common.Texts.{Text, text, text_eq, is_blank}
use hostingservices.Web.RollbackButton.{Answer, value, failure, exception, or_text}

pub record Detection : Type 0 where
  pub runtime : Option String
  pub selected_service : Option String
  pub available_services : Option (List String)

-- A deployment as the page knows it.
pub record Shown : Type 0 where
  pub id : String
  pub status : Text

pub record Logs : Type 0 where
  pub build : Text
  pub runtime : Text
  pub logs : Text

pub record ProjectItem : Type 0 where
  pub id : String
  pub repo : Option String

pub record PageState : Type 0 where
  pub project_id : String
  pub repo : String
  pub ref : String
  pub service : String
  pub service_type : String
  pub container_port : Text
  pub health_path : String
  pub strategy : String
  pub canary_steps : Text
  pub projects : List ProjectItem
  pub detection : Option Detection
  pub detecting : Bool
  pub busy : Bool
  pub message : Text
  pub deployment : Option Shown
  pub logs : Option Logs

pub record Label : Type 0 where
  pub label : Text
  pub detail : Text

abbrev entry : Text → Text → Label
entry l d = record { label = l; detail = d }

abbrev lifecycle : List (Text × Label)
lifecycle =
    (text "queued", entry (text "Queued") (text "Waiting for a build worker"))
    ∷ (text "building", entry (text "Building") (text "Building source into a deployable image"))
    ∷ (text "starting", entry (text "Starting") (text "Starting the runtime and checking health"))
    ∷ (text "ready", entry (text "Running") (text "Runtime is healthy and serving traffic"))
    ∷ (text "failed", entry (text "Failed") (text "Deployment or health check failed"))
    ∷ (
      text "rolling_back",
      entry (text "Rolling back") (text "Restoring the previous healthy version"),
    )
    ∷ []

-- `status.replace(/_/g, ' ')`
abbrev spaced : Text → Text
spaced [] = []
spaced (c ∷ cs) = (if c == b'_' then b' ' else c) ∷ spaced cs

abbrev label_in : List (Text × Label) → Text → Label
label_in [] status =
    entry (if is_blank status then text "Unknown" else spaced status)
      (text "Deployment state reported by Nexus")
label_in ((name, l) ∷ rest) status = if text_eq name status then l else label_in rest status

-- `stateFor`; an absent status is an empty text.
unfoldable pub state_for : Text → Label
unfolding text_eq
state_for status = label_in lifecycle status

-- The projects are loaded, and the first of them is selected.
unfoldable pub show_projects : Option (List ProjectItem) → PageState → PageState
show_projects none s = record s { message = text "Nexus API is temporarily unavailable." }
show_projects (some []) s = record s { projects = [] }
show_projects (some (p ∷ ps)) s = record s {
  projects = p ∷ ps;
  project_id = p.id;
  repo = get_or p.repo "";
}

abbrev pub is_ended : Text → Bool
is_ended status = text_eq status (text "ready") || text_eq status (text "failed")

abbrev status_message : Text → Text
status_message status = let l = state_for status in l.label ++ text ": " ++ l.detail ++ text "."

-- What a tick of the timer does with the deployments that the API lists, if it does: the shown one
-- is followed until it has ended.
unfoldable pub poll : Option (List Shown) → PageState → PageState
unfolding state_for
poll none s = s
poll (some listed) s = elim s.deployment [
  | none ↦ s
  | some d ↦ if is_ended d.status then s else elim (find (λ (x : Shown). str_eq x.id d.id) listed) [
    | none ↦ s
    | some current ↦ record s { deployment = some current; message = status_message current.status }
  ]
]

abbrev block : Text → Text → List Text
block title [] = []
block title (c ∷ cs) = (title ++ c ∷ cs) ∷ []

abbrev blocks : List Text → Text
blocks [] = []
blocks (b ∷ []) = b
blocks (b ∷ c ∷ bs) = b ++ text "\n\n" ++ blocks (c ∷ bs)

-- The logs under their titles, those that there are.
unfoldable pub combined_logs : Option Logs → Text
combined_logs none = []
combined_logs (some l) = blocks (
    block (text "=== BUILD ===\n") l.build
    ++ block (text "=== RUNTIME ===\n") l.runtime
    ++ block (text "=== LOGS ===\n") l.logs)

-- The service that is selected after a detection: the one that the engine selected if it is there.
abbrev pub choose : Detection → List String → String → String
choose d [] service = service
choose d (x ∷ xs) service =
    let selected = get_or d.selected_service "" in
    if not (str_eq selected "") && any (str_eq selected) (x ∷ xs) then selected else x

module _ (detected : Detection → Text) where
  abbrev finish_detection : Answer Detection → PageState → PageState
  finish_detection (value d) s = record s {
    detection = some d;
    service = choose d (get_or d.available_services []) s.service;
    message = detected d;
  }
  finish_detection (failure detail error) s = record s {
    message = text (or_text detail (or_text error "Repository detection failed"));
  }
  finish_detection (exception message) s = record s {
    message = text (get_or message "Repository detection failed");
  }

  -- `detect`; `detected` is the message on what was found.
  unfoldable pub detect : Answer Detection → PageState → PageState
  detect answer s =
      if str_eq s.repo ""
      then record s { message = text "Enter a Git repository URL first." }
      else (let asked = record s { detection = none; service = "" } in
          record (finish_detection answer asked) { detecting = false })
