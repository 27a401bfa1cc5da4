-- ===== src/ProductionGuard.antt =====
-- The check of the environment that the API makes before it starts in production:
-- apps/api/src/production-guard.ts. The environment is a function, an error that is thrown is the
-- value `throws`. `trim`, the parser of URLs (the protocol and the host name of a URL that it
-- takes) and `lower`, the case folding of the two regular expressions, are parameters.
pub mod Guarantees
mod Tests
use Prim.Native.String.{◌++◌ as ◌+++◌, len}
use text.Mathlib.Text.{starts_with}
use hostingservices.Common.{
  ℕ, String, Bool, true, false, Option, none, some, List, [], ◌∷◌, ◌||◌, any, str_eq, ltb, get_or,
  if◌then◌else◌,
}

pub data Checked (A : Type 0) : Type 0 where
  throws : String → Checked A
  returns : A → Checked A

-- What follows runs on what was returned; an error passes.
abbrev pub and_then : {A B : Type 0} → Checked A → (A → Checked B) → Checked B
and_then (throws e) k = throws e
and_then (returns a) k = k a

abbrev pub insecure_defaults : List String
insecure_defaults =
    "change-this-secret-in-production" ∷ "local-auth-secret-change-before-production"
    ∷ "local-engine-internal-secret" ∷ "local-engine-callback-secret" ∷ []

abbrev pub is_insecure : String → Bool
is_insecure v = any (str_eq v) insecure_defaults

-- A variable that is set, and not to the empty text.
abbrev pub is_set : Option String → Bool
is_set none = false
is_set (some v) = if str_eq v "" then false else true

abbrev pub Url : Type 0
Url = String × String

module _ (trim lower : String → String) (parse_url : String → Option Url)
    (env : String → Option String) where
  abbrev pub trimmed : Option String → String
  trimmed none = ""
  trimmed (some v) = trim v

  unfoldable pub required : String → Checked String
  required name =
      let value = trimmed (env name) in
      if str_eq value ""
      then throws (name +++ " is required in production")
      else if is_insecure value
      then throws (name +++ " is using an insecure development default")
      else returns value

  abbrev pub is_local : String → Bool
  is_local host =
      str_eq (lower host) "localhost"
      || str_eq (lower host) "127.0.0.1"
      || str_eq (lower host) "0.0.0.0"

  abbrev pub check_url : String → String → Option Url → Checked String
  check_url name value none = throws (name +++ " must be a valid absolute URL")
  check_url name value (some (protocol, host)) =
      if str_eq protocol "https:"
      then if is_local host
        then throws (name +++ " cannot point to localhost in production")
        else returns value
      else throws (name +++ " must use HTTPS in production")

  unfoldable pub assert_public_url : String → Checked String
  assert_public_url name =
      and_then (required name) (λ value. check_url name value (parse_url value))

  -- The test `/^https?:\/\//i`.
  abbrev pub is_http : String → Bool
  is_http v = starts_with (lower v) "http://" || starts_with (lower v) "https://"

  unfoldable pub check_engine : String → Checked Unit
  check_engine v =
      if is_http v
      then returns tt
      else throws "ENGINE_URL must be an absolute HTTP(S) URL in production"

  unfoldable pub check_github : Checked Unit
  check_github =
      if is_set (env "GITHUB_CLIENT_ID")
      then if is_set (env "GITHUB_CLIENT_SECRET")
        then returns tt
        else throws "GITHUB_CLIENT_SECRET is required when GITHUB_CLIENT_ID is configured"
      else if is_set (env "GITHUB_CLIENT_SECRET")
      then throws "GITHUB_CLIENT_ID is required when GITHUB_CLIENT_SECRET is configured"
      else returns tt

  -- The length counts the bytes of the secret, which is ASCII.
  unfoldable pub check_webhook : Option String → Checked Unit
  check_webhook none = returns tt
  check_webhook (some v) =
      if str_eq v ""
      then returns tt
      else if ltb (len v) 32
      then throws "GITHUB_WEBHOOK_SECRET must be at least 32 characters in production"
      else returns tt

  -- What is checked in production.
  unfoldable pub check_all : Checked Unit
  check_all = and_then (required "DATABASE_URL") (λ a. and_then (required "AUTH_SECRET") (λ b.
      and_then (required "ENGINE_INTERNAL_SECRET") (λ c.
        and_then (required "ENGINE_CALLBACK_SECRET") (λ d.
          and_then (required "SECRETS_ENCRYPTION_KEY") (λ e.
            and_then (assert_public_url "WEB_URL") (λ f.
              and_then (assert_public_url "PUBLIC_API_URL") (λ g.
                and_then (required "ENGINE_URL") (λ v. and_then (check_engine v) (λ h.
                  and_then check_github (λ i. check_webhook (env "GITHUB_WEBHOOK_SECRET")))))))))))

  unfoldable pub assert_production_configuration : Checked Unit
  assert_production_configuration =
      if str_eq (get_or (env "NODE_ENV") "") "production" then check_all else returns tt
