-- ===== src/Auth/States.antt =====
-- The settings of sign-in, its cookies and the signed state of OAuth
-- (apps/api/src/auth-routes.ts).
use hostingservices.Common.{
  Bool, true, false, Option, none, some, List, [], ◌∷◌, ◌++◌, ◌&&◌, ◌||◌, not, ltb, ◌==◌, length,
  get_or, if◌then◌else◌,
}
use hostingservices.Common.Texts.{Text, text, text_eq, is_blank, split, starts_with, join, trim}
use hostingservices.Auth.{Crypto}
use hostingservices.Auth.Secrets.{part, parts}

pub data Provider : Type 0 where
  github google : Provider

abbrev pub name : Provider → Text
name github = text "github"
name google = text "google"

-- The environment; `auth_secret` is AUTH_SECRET if it is set, and the other three are given for
-- each provider.
pub record Env : Type 0 where
  pub is_production : Bool
  pub web_url : Text
  pub api_url : Text
  pub auth_secret : Option Text
  pub client_id : Provider → Option Text
  pub client_secret : Provider → Option Text
  pub callback_url : Provider → Option Text

pub data StartError : Type 0 where
  short_auth_secret web_url_not_https public_api_url_not_https : StartError

abbrev pub is_https : Text → Bool
is_https url = starts_with (text "https://") url

abbrev pub is_short : Option Text → Bool
is_short none = true
is_short (some secret) = is_blank secret || ltb (length secret) 32

-- `requireProductionUrl`: true where it throws.
unfoldable pub is_insecure_url : Env → Text → Bool
is_insecure_url env url = env.is_production && not (is_https url)

-- The checks of the module when it is loaded.
unfoldable pub start_error : Env → Option StartError
unfolding is_insecure_url
start_error env =
    if env.is_production && is_short env.auth_secret
    then some short_auth_secret
    else if is_insecure_url env env.web_url
    then some web_url_not_https
    else if is_insecure_url env env.api_url
    then some public_api_url_not_https
    else none

abbrev pub effective_auth_secret : Env → Text
effective_auth_secret env = get_or env.auth_secret (text "nexus-dev-auth-secret-change-me")

pub record OauthConfig : Type 0 where
  pub id : Text
  pub secret : Text
  pub callback : Text

pub data Configured : Type 0 where
  unavailable : Configured
  configured : OauthConfig → Configured
  insecure_callback : Configured

abbrev pub default_callback : Env → Provider → Text
default_callback env p = env.api_url ++ text "/api/auth/" ++ name p ++ text "/callback"

unfoldable pub oauth_config : Env → Provider → Configured
oauth_config env p =
    let id = get_or (env.client_id p) [] in
    let secret = get_or (env.client_secret p) [] in
    let callback = get_or (env.callback_url p) (default_callback env p) in
    if is_blank id || is_blank secret
    then unavailable
    else if env.is_production && not (is_https callback)
    then insecure_callback
    else configured (record { id = id; secret = secret; callback = callback })

abbrev pub secure_flag : Env → Text
secure_flag env = if env.is_production then text "; Secure" else []

-- `getCookie`: the value of the first part with the name.
unfoldable pub find_cookie : Text → List Text → Option Text
find_cookie wanted [] = none
find_cookie wanted (p ∷ ps) =
    let rest = find_cookie wanted ps in
    let (key, values) = split b'=' (trim p) in
    if text_eq key wanted then some (join b'=' values) else rest

abbrev pub timing_safe_equal : Text → Text → Option Bool
timing_safe_equal a b = if length a == length b then some (text_eq a b) else none

module _ (c : Crypto) where
  unfoldable pub cookie : Env → (token max_age : Text) → Text
  cookie env token max_age =
      text "nexus_session="
      ++ c.encode_uri token
      ++ text "; Path=/; Max-Age="
      ++ max_age
      ++ text "; HttpOnly; SameSite=Lax"
      ++ secure_flag env

  unfoldable pub clear_cookie : Env → Text
  clear_cookie env =
      text "nexus_session=; Path=/; Max-Age=0; HttpOnly; SameSite=Lax" ++ secure_flag env

  unfoldable pub state_cookie : Env → Text → Text
  state_cookie env state =
      text "nexus_oauth_state="
      ++ c.encode_uri state
      ++ text "; Path=/; Max-Age=600; HttpOnly; SameSite=Lax"
      ++ secure_flag env

  unfoldable pub get_cookie : (header : Option Text) → (wanted : Text) → Option Text
  unfolding find_cookie
  get_cookie header wanted = elim (find_cookie wanted (parts b';' (get_or header []))) [
    | none ↦ none
    | some value ↦ some (c.decode_uri value)
  ]

  abbrev pub signature : Env → Text → Text
  signature env value = c.hex (c.hmac (effective_auth_secret env) value)

  unfoldable pub signed_state : Env → Provider → (bytes : Text) → Text
  signed_state env p bytes =
      let value = name p ++ b':' ∷ c.hex bytes in value ++ b'.' ∷ signature env value

  unfoldable pub valid_signature : Env → Provider → (value sig : Text) → Option Bool
  valid_signature env p value sig =
      if is_blank value || is_blank sig || not (starts_with (name p ++ text ":") value)
      then some false
      else let expected = signature env value in
        if length sig == length expected
        then timing_safe_equal (c.utf8 sig) (c.utf8 expected)
        else some false

  -- `none` where `timingSafeEqual` throws on buffers of different lengths.
  unfoldable pub valid_state : Env → Option Text → Provider → Option Bool
  unfolding valid_signature
  valid_state env none p = some false
  valid_state env (some state) p =
      let ps = parts b'.' state in
      if is_blank state then some false else valid_signature env p (part 0 ps) (part 1 ps)
