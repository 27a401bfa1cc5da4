-- ===== src/Web/Tests.antt =====
-- A redirect of the API to its page of projects, and a rollback to the version before.
use hostingservices.Common.{
  ◌==◌, ◌&&◌, ℕ, String, Bool, Option, if◌then◌else◌, ◌≡◌, ◌≢◌, ◌⊎◌, ap, ◌∙◌, refl, inl, inr, In,
  true, false, str_ne, none, some, List, [], ◌∷◌,
}
use hostingservices.Common.Texts.{Text, text, split, text_eq, starts_with}
use hostingservices.Web.{Request, Target, Parser, upstream}
use hostingservices.Database.{Deployment}
use hostingservices.Rollback.Listing.{Version, version_of}
use hostingservices.Rollback.Acceptance.{IsAllowed}
use hostingservices.Rollback.Sample.{table, old_row, new_row, listed, new_row_found, keyed}
use hostingservices.Web.RollbackButton.{
  ButtonState, value, exception, load_versions, rollback_previous,
}
use hostingservices.Web.Rollbacks.{rollback_previous-IsAllowed}
use hostingservices.EngineApi.{Number, whole}
use hostingservices.Api.Bodies.{passes}
use hostingservices.Web.DeployPage.{PageState, Shown}
use hostingservices.Web.DeployForm.{parsed_canary, form_body}
use hostingservices.Web.Bridge.{
  Input, address, url, bridged, on_click, bridged-upstream, rewrite_url,
}
use hostingservices.Web.Bridge

abbrev api : Text
api = text "http://api:4000"

abbrev target : Target
target = record {
  origin = api;
  pathname = text "/api/v1";
  search = text "?a=1";
  hash = [];
  href = text "http://api:4000/api/v1?a=1";
}

abbrev parse : Parser
parse location base = some target

abbrev request : Request
request = record {
  method = text "GET";
  path = text "api" ∷ text "v1" ∷ [];
  search = text "?a=1";
  headers = [];
  body = [];
}

-- Decodes an encoded slash, and nothing else.
abbrev decode_after : ℕ → Text → Text
decode_after c (d ∷ e ∷ t) = if c == b'%' && d == b'2' && e == b'F' then b'/' ∷ t else c ∷ d ∷ e ∷ t
decode_after c t = c ∷ t

abbrev with_slashes : Text → Text
with_slashes [] = []
with_slashes (c ∷ t) = decode_after c (with_slashes t)

-- A slash that is encoded in a segment is asked for as a slash.
encoded_slash :
    (upstream api (record request { path = with_slashes (text "a%2Fb") ∷ []; search = [] })).url
    ≡ text "http://api:4000/a/b"
unfolding upstream
encoded_slash = refl

abbrev versions_of_d2 : List Version
versions_of_d2 = version_of new_row new_row ∷ version_of new_row old_row ∷ []

has_image : (v : Version) → In v versions_of_d2 → v.image ≢ ""
has_image v (inl e) h = str_ne "image:2" "" refl (ap (λ (x : Version). x.image) e ∙ h)
has_image v (inr (inl e)) h = str_ne "image:1" "" refl (ap (λ (x : Version). x.image) e ∙ h)
has_image v (inr (inr i)) h = absurd i

abbrev idle : ButtonState
idle = record { busy = false; error = ""; versions = []; show_history = false }

rollback_previous-IsAllowed_example :
    let target =
      (rollback_previous true
        (value tt)
        (exception none)
        (load_versions (value (some versions_of_d2)) idle)).1.target in
    (target ≡ none)
    ⊎ ((d : Deployment) × (target ≡ some d.id) × IsAllowed true "d2" (some d.id) table new_row d)
rollback_previous-IsAllowed_example =
    rollback_previous-IsAllowed true "d2" "d2" table versions_of_d2 new_row true (value tt)
      (exception none) idle listed keyed new_row_found refl has_image

bridged-upstream_case :
    (bridged (address (text "http://localhost:4000/api/v1")) ≡ address (text "/api/nexus/api/v1"))
    × (bridged (url (text "http://localhost:4000") (text "http://localhost:4000/api/v1"))
        ≡ address (text "/api/nexus/api/v1"))
    × (bridged (Bridge.request (text "http://localhost:4000/api/v1"))
        ≡ Bridge.request (text "/api/nexus/api/v1"))
    × (on_click (some (text "http://localhost:4000/api/v1"))
        ≡ (some (text "/api/nexus/api/v1"), some (text "/api/nexus/api/v1")))
    × ((upstream api (record request { search = [] })).url ≡ text "http://api:4000/api/v1")
unfolding split
bridged-upstream_case =
    bridged-upstream api (text "api/v1") (record request { search = [] }) refl refl

-- Another port that begins with the same digits is taken for the API.
other_port : rewrite_url (text "http://localhost:40001/x") ≡ text "/api/nexus1/x"
unfolding rewrite_url starts_with
other_port = refl

-- The numbers that the tests use.
abbrev step_of : Text → Option Number
step_of t =
    if text_eq t (text "50")
    then some (whole 50)
    else if text_eq t (text "25")
    then some (whole 25)
    else if text_eq t (text "100")
    then some (whole 100)
    else none

abbrev port : Text → Option ℕ
port t = some 3000

abbrev form : PageState
form = record {
  project_id = "p";
  repo = "https://github.com/a/shop";
  ref = "main";
  service = "";
  service_type = "web";
  container_port = text "3000";
  health_path = "/";
  strategy = "canary";
  canary_steps = text "50, 25,100";
  projects = [];
  detection = none;
  detecting = false;
  busy = false;
  message = [];
  deployment = none;
  logs = none;
}

abbrev queued_form : Shown
queued_form = record { id = "0a1b2c3d-0000"; status = text "queued" }

abbrev anything : String → Bool
anything s = true

-- The page sends steps that go down, and the API refuses them.
steps_go_down : passes anything anything (form_body step_of port form) ≡ false
unfolding passes form_body parsed_canary split text_eq
steps_go_down = refl
