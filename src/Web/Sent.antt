-- ===== src/Web/Sent.antt =====
-- The bodies that apps/web/app/deploy/page.tsx sends, at the schema of apps/api/src/index.ts.
use Prim.Native.String.{len}
use Prim.Native.String.len
use text.Mathlib.Text.{starts_with}
use hostingservices.Common.{
  ◌≢◌, ◌≤◌, In, ℕ, String, Bool, true, Option, none, some, List, [], ◌∷◌, ◌≡◌, ◌&&◌, length, leb,
  str_eq, if◌then◌else◌,
}
use hostingservices.Common.Texts.{Text}
use hostingservices.EngineApi.{Number, is_one_of}
use hostingservices.Api.Bodies.{is_increasing}
use hostingservices.Web.DeployPage.{PageState}
use hostingservices.Web.DeployForm.{parsed_canary}

-- What the API's schema asks of the form beyond what the page checks, in words of the form.
pub record IsTaken (is_url is_name : String → Bool) (to_port : Text → Option ℕ) (s : PageState)
    (canary : List Number) : Type 0 where
  pub repo : is_url s.repo ≡ true
  pub service : s.service ≢ "" → (len s.service ≤ 100) × (is_name s.service ≡ true)
  pub service_type : In s.service_type ("web" ∷ "worker" ∷ "cron" ∷ "private" ∷ [])
  pub port : (n : ℕ) → to_port s.container_port ≡ some n → n ≤ 65535
  pub health_path :
      s.service_type ≡ "web"
      → s.health_path ≢ ""
      → (starts_with s.health_path "/" ≡ true) × (len s.health_path ≤ 200)
  pub strategy : In s.strategy ("rolling" ∷ "blue_green" ∷ "canary" ∷ [])
  pub steps : s.strategy ≡ "canary" → (length canary ≤ 10) × (is_increasing canary ≡ true)

-- A port that is read fits the schema; 0 and a text that is no number become 80.
abbrev fits_port : Option ℕ → Bool
fits_port none = true
fits_port (some n) = leb n 65535

abbrev is_path : String → Bool
is_path v = starts_with v "/" && leb (len v) 200

module _ (to_step : Text → Option Number) (to_port : Text → Option ℕ) where
  module _ (is_url is_name : String → Bool) (s : PageState) where
    -- The tests of the schema that the page has not made, on the form.
    abbrev source_tests : Bool
    source_tests =
        is_url s.repo
        && (if str_eq s.service "" then true else (leb (len s.service) 100 && is_name s.service))
        && is_one_of ("web" ∷ "worker" ∷ "cron" ∷ "private" ∷ []) s.service_type

    abbrev network_tests : Bool
    network_tests =
        fits_port (to_port s.container_port)
        && (if str_eq s.service_type "web"
            then (if str_eq s.health_path "" then true else is_path s.health_path)
            else true)

    abbrev runtime_tests : Bool
    runtime_tests =
        is_one_of ("rolling" ∷ "blue_green" ∷ "canary" ∷ []) s.strategy
        && (if str_eq s.strategy "canary"
            then (leb (length (parsed_canary to_step s.canary_steps)) 10
                && is_increasing (parsed_canary to_step s.canary_steps))
            else true)
