-- ===== src/Auth/Callbacks.antt =====
-- The start of OAuth and its callbacks (apps/api/src/auth-routes.ts). What GitHub and Google
-- answer is given.
use hostingservices.Common.{
  ℕ, Bool, true, false, Option, none, some, List, [], ◌++◌, ◌&&◌, ◌||◌, not, find, get_or,
  if◌then◌else◌,
}
use hostingservices.Common.Texts.{Text, text, text_eq, is_blank, or_else}
use hostingservices.Auth.{Crypto}
use hostingservices.Auth.Accounts.{PublicUser, Store, OauthInput, upsert_oauth_account}
use hostingservices.Auth.Secrets.{encrypt_token}
use hostingservices.Auth.Sessions.{start_session, new_session_token}
use hostingservices.Auth.States.{
  Provider, github, google, name, Env, unavailable, configured, insecure_callback, oauth_config,
  effective_auth_secret, cookie, state_cookie, get_cookie, signed_state, valid_state,
}

-- Replies and exceptions, each with the store that is left.
pub data Reply : Type 0 where
  redirect : (location : Text) (set_cookie : Option Text) → Reply
  error : (status : ℕ) (message : Text) → Reply
  signed_in : (status : ℕ) (user : PublicUser) (set_cookie : Text) → Reply
  signed_out : (set_cookie : Text) → Reply

pub data Handled : Type 0 where
  replied : Reply → Store → Handled
  thrown : Store → Handled

pub record OauthRequest : Type 0 where
  pub code : Option Text
  pub state : Option Text
  pub cookies : Option Text

pub record Email : Type 0 where
  pub email : Option Text
  pub is_primary : Bool
  pub verified : Bool

-- `emails` is none where the answer is no array; `id` is none where it is missing or 0.
pub record GithubAnswers : Type 0 where
  pub access_token : Option Text
  pub user_ok : Bool
  pub id : Option Text
  pub login : Text
  pub full_name : Option Text
  pub email : Option Text
  pub avatar_url : Option Text
  pub emails : Option (List Email)

pub record GoogleAnswers : Type 0 where
  pub access_token : Option Text
  pub info_ok : Bool
  pub sub : Option Text
  pub email : Option Text
  pub full_name : Option Text
  pub picture : Option Text

-- What is drawn at random.
pub record Fresh : Type 0 where
  pub user_id : Text
  pub session_bytes : Text
  pub iv : Text

-- Whom the provider names, the error that its answers amount to, or an exception.
pub record Identity : Type 0 where
  pub account_id : Text
  pub email : Text
  pub full_name : Text
  pub avatar_url : Option Text
  pub access_token : Text

pub data Identified : Type 0 where
  identified : Identity → Identified
  failed : (suffix : Text) → Identified
  crashed : Identified

abbrev pub is_missing : Option Text → Bool
is_missing none = true
is_missing (some t) = is_blank t

-- `found?.email ?? other`.
abbrev pub email_of : Option Email → Option Text → Option Text
email_of none other = other
email_of (some e) other = elim e.email [ none ↦ other | some t ↦ some t ]

unfoldable pub choose_email : List Email → Option Text → Option Text
choose_email emails public_email =
    email_of (find (λ (e : Email). e.is_primary && e.verified) emails)
      (email_of (find (λ (e : Email). e.verified) emails) public_email)

unfoldable pub github_identity : GithubAnswers → Identified
unfolding choose_email
github_identity a =
    if is_missing a.access_token
    then failed (text "_token_exchange_failed")
    else if not a.user_ok || is_missing a.id
    then failed (text "_user_lookup_failed")
    else elim a.emails [
      | none ↦ crashed
      | some emails ↦
          let email = choose_email emails a.email in
          if is_missing email
          then failed (text "_email_unavailable")
          else identified (record {
            account_id = get_or a.id [];
            email = get_or email [];
            full_name = or_else (get_or a.full_name []) a.login;
            avatar_url = a.avatar_url;
            access_token = get_or a.access_token [];
          })
    ]

unfoldable pub google_identity : GoogleAnswers → Identified
google_identity a =
    if is_missing a.access_token
    then failed (text "_token_exchange_failed")
    else if not a.info_ok || is_missing a.sub || is_missing a.email
    then failed (text "_user_lookup_failed")
    else identified (record {
      account_id = get_or a.sub [];
      email = get_or a.email [];
      full_name = or_else (get_or a.full_name []) (get_or a.email []);
      avatar_url = a.picture;
      access_token = get_or a.access_token [];
    })

-- The page of the web interface that shows an error.
abbrev pub login_page : Env → Text → Text
login_page env code = env.web_url ++ text "/login?error=" ++ code

-- `oauthUnavailable`.
abbrev oauth_unavailable : Env → Provider → Store → Handled
oauth_unavailable env p s =
    replied (redirect (login_page env (name p ++ text "_oauth_unavailable")) none) s

abbrev pub same_text : Option Text → Option Text → Bool
same_text none none = true
same_text none (some b) = false
same_text (some a) none = false
same_text (some a) (some b) = text_eq a b

module _ (c : Crypto) where
  -- `setLogin`, then the page that follows.
  unfoldable pub set_login :
      Env → Fresh → ℕ → (user_id : Text) → (reply : Text → Reply) → Store → Handled
  unfolding start_session cookie
  set_login env fresh now user_id reply s =
      elim (start_session c fresh.session_bytes user_id now s) [
        | none ↦ thrown s
        | some s ↦
            replied
              (reply (cookie c env (new_session_token c fresh.session_bytes) (text "2592000"))) s
      ]

  abbrev authorize_url : Provider → (id callback state : Text) → Text
  authorize_url github id callback state =
      text "https://github.com/login/oauth/authorize?client_id="
      ++ c.encode_uri id
      ++ text "&redirect_uri="
      ++ c.encode_uri callback
      ++ text "&scope="
      ++ c.encode_uri (text "read:user user:email repo")
      ++ text "&state="
      ++ c.encode_uri state
  authorize_url google id callback state =
      text "https://accounts.google.com/o/oauth2/v2/auth?client_id="
      ++ c.encode_uri id
      ++ text "&redirect_uri="
      ++ c.encode_uri callback
      ++ text "&response_type=code&scope="
      ++ c.encode_uri (text "openid email profile")
      ++ text "&access_type=offline&prompt=select_account&state="
      ++ c.encode_uri state

  -- The routes that start the sign-in.
  unfoldable pub start : Env → Provider → (bytes : Text) → Store → Handled
  unfolding signed_state state_cookie oauth_config
  start env p bytes s = elim (oauth_config env p) [
    | insecure_callback ↦ thrown s
    | unavailable ↦ oauth_unavailable env p s
    | configured config ↦
        let state = signed_state c env p bytes in
        replied
          (redirect (authorize_url p config.id config.callback state)
            (some (state_cookie c env state)))
          s
  ]

  abbrev pub input_of : Env → Provider → Fresh → Identity → OauthInput
  input_of env p fresh i = record {
    provider = name p;
    provider_account_id = i.account_id;
    email = some i.email;
    name = i.full_name;
    avatar_url = i.avatar_url;
    access_token = some (encrypt_token c (effective_auth_secret env) fresh.iv i.access_token);
  }

  -- The end of a callback: the account is stored and its user signed in.
  unfoldable pub sign_in : Env → Provider → Fresh → ℕ → Identity → Store → Handled
  unfolding upsert_oauth_account set_login
  sign_in env p fresh now i s =
      elim (upsert_oauth_account (input_of env p fresh i) fresh.user_id now s) [
        | none ↦ thrown s
        | some (user_id, s) ↦
            set_login env fresh now user_id
              (λ set_cookie. redirect (env.web_url ++ text "/?auth=success") (some set_cookie)) s
      ]

  unfoldable pub after_code : Env → Provider → Fresh → ℕ → Identified → Store → Handled
  unfolding sign_in
  after_code env p fresh now (identified i) s = sign_in env p fresh now i s
  after_code env p fresh now (failed suffix) s =
      replied (redirect (login_page env (name p ++ suffix)) none) s
  after_code env p fresh now crashed s = thrown s

  unfoldable pub check_state : Env → Provider → OauthRequest → Option Bool
  unfolding valid_state get_cookie
  check_state env p r = elim (valid_state c env r.state p) [
    | none ↦ none
    | some valid ↦
        some (valid && same_text r.state (get_cookie c r.cookies (text "nexus_oauth_state")))
  ]

  unfoldable pub callback : Env → Provider → OauthRequest → Identified → Fresh → ℕ → Store → Handled
  unfolding oauth_config check_state after_code
  callback env p r answers fresh now s = elim (oauth_config env p) [
    | insecure_callback ↦ thrown s
    | unavailable ↦ oauth_unavailable env p s
    | configured config ↦ elim (check_state env p r) [
      | none ↦ thrown s
      | some false ↦ replied (redirect (login_page env (text "invalid_oauth_state")) none) s
      | some true ↦
          if is_missing r.code
          then replied (redirect (login_page env (name p ++ text "_cancelled")) none) s
          else after_code env p fresh now answers s
    ]
  ]

  unfoldable pub github_callback : Env → OauthRequest → GithubAnswers → Fresh → ℕ → Store → Handled
  unfolding callback github_identity
  github_callback env r answers fresh now s =
      callback env github r (github_identity answers) fresh now s

  unfoldable pub google_callback : Env → OauthRequest → GoogleAnswers → Fresh → ℕ → Store → Handled
  unfolding callback google_identity
  google_callback env r answers fresh now s =
      callback env google r (google_identity answers) fresh now s
