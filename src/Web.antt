-- ===== src/Web.antt =====
-- The gateway of the web interface to the API (apps/web/app/api/nexus/[...path]/route.ts). What
-- the API answers and the parser of URLs are arguments; the segments of a path are those that the
-- framework gives, which has decoded them. The functions of the seven methods are one.
pub mod Following
pub mod RollbackButton
pub mod DeployPage
pub mod DeployForm
pub mod Conditions
pub mod Sent
pub mod Bridge
pub mod Rollbacks
mod Tests
use hostingservices.Common.{
  ℕ, Bool, true, false, Option, none, some, List, [], ◌∷◌, ◌++◌, ◌||◌, not, ◌==◌, get_or, keep,
  if◌then◌else◌,
}
use hostingservices.Common.Texts.{Text, text, text_eq, is_blank, or_else, join, trim}

-- NEXUS_INTERNAL_URL, NEXUS_API_URL, PUBLIC_API_URL and NEXT_PUBLIC_NEXUS_API_URL.
pub record Env : Type 0 where
  pub internal_url : Option Text
  pub api_url : Option Text
  pub public_api_url : Option Text
  pub next_public_api_url : Option Text

abbrev trimmed : Option Text → Text
trimmed value = trim (get_or value [])

-- `value.replace(/\/$/, '')`
abbrev pub without_slash : Text → Text
without_slash [] = []
without_slash (c ∷ []) = if c == b'/' then [] else c ∷ []
without_slash (c ∷ d ∷ cs) = c ∷ without_slash (d ∷ cs)

-- `getApiUrl`; none where it throws.
unfoldable pub get_api_url : Env → Option Text
get_api_url env =
    let value = or_else (trimmed env.internal_url) (
      or_else (trimmed env.api_url)
        (or_else (trimmed env.public_api_url) (trimmed env.next_public_api_url))) in
    if is_blank value then none else some (without_slash value)

pub record Request : Type 0 where
  pub method : Text
  pub path : List Text
  pub search : Text
  pub headers : List (Text × Text)
  pub body : Text

pub record Upstream : Type 0 where
  pub url : Text
  pub method : Text
  pub headers : List (Text × Text)
  pub body : Option Text

-- A URL that `new URL(location, apiUrl)` parses.
pub record Target : Type 0 where
  pub origin : Text
  pub pathname : Text
  pub search : Text
  pub hash : Text
  pub href : Text

pub record Response : Type 0 where
  pub status : ℕ
  pub location : Option Text
  pub headers : List (Text × Text)
  pub body : Text

abbrev is_not : Text → (Text × Text) → Bool
is_not name header = not (text_eq header.0 name)

abbrev pub has_body : Text → Bool
has_body method = not (text_eq method (text "GET") || text_eq method (text "HEAD"))

abbrev pub upstream_url : Text → List Text → Text → Text
upstream_url api path search = api ++ b'/' ∷ (join b'/' path ++ search)

unfoldable pub upstream : (api : Text) → Request → Upstream
upstream api r = record {
  url = upstream_url api r.path r.search;
  method = r.method;
  headers = keep (is_not (text "content-length")) (keep (is_not (text "host")) r.headers);
  body = if has_body r.method then some r.body else none;
}

-- The parser of URLs: of a location against the API's URL, none where it throws.
abbrev pub Parser : Type 0
Parser = Text → Text → Option Target

abbrev pub through_proxy : Target → Text
through_proxy target = text "/api/nexus" ++ (target.pathname ++ (target.search ++ target.hash))

-- The location that the browser gets.
unfoldable pub rewrite : Parser → (api location : Text) → Text
rewrite parse api location = elim (parse location api) [
  | none ↦ location
  | some target ↦ elim (parse api api) [
    | none ↦ location
    | some base ↦ if text_eq target.origin base.origin then through_proxy target else target.href
  ]
]

abbrev rewrite_location : Parser → (api : Text) → Option Text → Option Text
rewrite_location parse api none = none
rewrite_location parse api (some location) =
    if is_blank location then some location else some (rewrite parse api location)

abbrev unavailable : Response
unavailable = record {
  status = 503;
  location = none;
  headers = [];
  body = text "nexus-api-gateway";
}

-- `fetch` answers or throws.
unfoldable pub proxy : Parser → Env → (fetch : Upstream → Option Response) → Request → Response
unfolding get_api_url upstream rewrite
proxy parse env fetch r = elim (get_api_url env) [
  | none ↦ unavailable
  | some api ↦ elim (fetch (upstream api r)) [
    | none ↦ unavailable
    | some answer ↦ record {
      status = answer.status;
      location = rewrite_location parse api answer.location;
      headers = keep (is_not (text "content-length")) answer.headers;
      body = answer.body;
    }
  ]
]
