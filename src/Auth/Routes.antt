-- ===== src/Auth/Routes.antt =====
-- The routes of e-mail and password, of the session and of GitHub's repositories
-- (apps/api/src/auth-routes.ts).
use hostingservices.Common.{
  ℕ, ◌≤◌, ◌≡◌, Bool, true, false, Option, none, some, [], ◌||◌, ltb, length, get_or, min, max,
  is_some, subst, refl, if◌then◌else◌, arith,
}
use hostingservices.Common.Texts.{Text, text, is_blank, or_else, split, trim, lower}
use hostingservices.Auth.{Crypto}
use hostingservices.Auth.Accounts.{
  User, PublicUser, public_user, Store, create_user, get_user_by_email, get_oauth_access_token,
}
use hostingservices.Auth.Secrets.{hash_password, verify_password, decrypt_token, decrypted, refused}
use hostingservices.Auth.Sessions.{user_from_token, end_session, user_from_token-end_session}
use hostingservices.Auth.States.{
  Env, github, google, Configured, configured, unavailable, insecure_callback, oauth_config,
  clear_cookie, get_cookie, effective_auth_secret,
}
use hostingservices.Auth.Callbacks.{
  Reply, error, signed_in, signed_out, Handled, replied, thrown, Fresh, set_login,
}

pub record RegisterBody : Type 0 where
  pub email : Option Text
  pub password : Option Text
  pub name : Option Text

pub record LoginBody : Type 0 where
  pub email : Option Text
  pub password : Option Text

-- `body.email?.trim().toLowerCase()`.
abbrev pub normalized : Option Text → Text
normalized none = []
normalized (some email) = lower (trim email)

-- `body.name?.trim() || email?.split('@')[0] || ''`.
abbrev pub name_or_local_part : Option Text → Text → Text
name_or_local_part given email = or_else (trim (get_or given [])) (split b'@' email).0

-- `Boolean(oauthConfig(provider))`, or an exception.
abbrev pub is_configured : Configured → Option Bool
is_configured unavailable = some false
is_configured (configured config) = some true
is_configured insecure_callback = none

unfoldable pub providers : Env → Option (Bool × Bool)
unfolding oauth_config
providers env = elim (is_configured (oauth_config env github)) [
  | none ↦ none
  | some has_github ↦ elim (is_configured (oauth_config env google)) [
    | none ↦ none
    | some has_google ↦ some (has_github, has_google)
  ]
]

abbrev pub user_of_login : LoginBody → Store → Option User
user_of_login b s = elim b.email [
  | none ↦ none
  | some email ↦ if is_blank email then none else get_user_by_email (lower (trim email)) s
]

-- The request for repositories: an error, or the token and the page that GitHub is asked for.
-- The numbers of the query are whole numbers.
pub data ReposRequest : Type 0 where
  denied : (status : ℕ) (message : Text) → ReposRequest
  ask : (token : Text) (page per_page : ℕ) → ReposRequest

module _ (c : Crypto) where
  abbrev pub session_of : Option Text → Option Text
  session_of cookies = get_cookie c cookies (text "nexus_session")

  unfoldable pub me : (cookies : Option Text) → ℕ → Store → Option PublicUser
  unfolding get_cookie user_from_token
  me cookies now s = user_from_token c (session_of cookies) now s

  abbrev pub new_user : (id email name password : Text) (salt : Text) (now : ℕ) → User
  new_user id email name password salt now = record {
    id = id;
    email = some email;
    name = name;
    avatar_url = none;
    password_hash = some (hash_password c salt password);
    created_at = now;
  }

  unfoldable pub register : Env → RegisterBody → Fresh → (salt : Text) → ℕ → Store → Handled
  unfolding get_user_by_email create_user hash_password set_login
  register env b fresh salt now s =
      let email = normalized b.email in
      let password = get_or b.password [] in
      let name = name_or_local_part b.name email in
      let user = new_user fresh.user_id email name password salt now in
      if is_blank email || ltb (length password) 8 || is_blank name
      then replied
          (error 400 (text "name, email and a password of at least 8 characters are required")) s
      else if is_some (get_user_by_email email s)
      then replied (error 409 (text "An account with this email already exists")) s
      else elim (create_user user s) [
        | none ↦ thrown s
        | some s ↦ set_login c env fresh now user.id (signed_in 201 (public_user user)) s
      ]

  -- `user?.passwordHash` and the password.
  abbrev pub accepts : LoginBody → Option User → Bool
  accepts b none = false
  accepts b (some u) = elim u.password_hash [
    | none ↦ false
    | some stored ↦
        if is_blank stored then false else verify_password c (get_or b.password []) stored
  ]

  unfoldable pub login : Env → LoginBody → Fresh → ℕ → Store → Handled
  unfolding get_user_by_email verify_password set_login
  login env b fresh now s =
      let found = user_of_login b s in
      elim found [
        | none ↦ replied (error 401 (text "Invalid email or password")) s
        | some user ↦
            if accepts b (some user)
            then set_login c env fresh now user.id (signed_in 200 (public_user user)) s
            else replied (error 401 (text "Invalid email or password")) s
      ]

  unfoldable pub logout : Env → (cookies : Option Text) → Store → Handled
  unfolding get_cookie end_session clear_cookie
  logout env cookies s =
      replied (signed_out (clear_cookie c env)) (end_session c (session_of cookies) s)

  unfoldable pub repos_request :
      Env → (cookies : Option Text) → (page per_page : Option ℕ) → ℕ → Store → ReposRequest
  unfolding me get_oauth_access_token decrypt_token
  repos_request env cookies page per_page now s = elim (me cookies now s) [
    | none ↦ denied 401 (text "Authentication required")
    | some user ↦
        let stored = get_or (get_oauth_access_token user.id (text "github") s) [] in
        if is_blank stored
        then denied 409 (text "Connect GitHub to browse repositories")
        else elim (decrypt_token c (effective_auth_secret env) stored) [
          | refused e ↦ denied 409 (text "GitHub connection needs to be reconnected")
          | decrypted token ↦
              ask token (max 1 (get_or page 1)) (min 100 (max 1 (get_or per_page 50)))
        ]
  ]

module _ (c : Crypto) where
  -- GitHub is asked for pages from 1 on, of 1 to 100 repositories, and only for a user who is
  -- signed in.
  pub repos_request-ask :
      (env : Env) (cookies : Option Text) (page per_page : Option ℕ) (now : ℕ) (s : Store)
      {token : Text} {n size : ℕ}
      → repos_request c env cookies page per_page now s ≡ ask token n size
      → (1 ≤ n) × (1 ≤ size) × (size ≤ 100) × (is_some (me c cookies now s) ≡ true)
  unfolding repos_request
  repos_request-ask env cookies page per_page now s h = ground (arith, h)

  -- After a logout the session's cookie gives no user.
  pub logout-me :
      (env : Env) (cookies : Option Text) (now : ℕ) (s : Store) {r : Reply} {s' : Store}
      → logout c env cookies s ≡ replied r s'
      → me c cookies now s' ≡ none
  unfolding logout me user_from_token end_session
  logout-me env cookies now s {r = r} {s' = s'} h =
      subst (λ t. user_from_token c (session_of c cookies) now t ≡ none) (left h)
        (ended (session_of c cookies))
    where
      left : logout c env cookies s ≡ replied r s' → end_session c (session_of c cookies) s ≡ s'
      left h = ground (arith, h)

      ended : (o : Option Text) → user_from_token c o now (end_session c o s) ≡ none
      ended none = refl
      ended (some token) = user_from_token-end_session c token now s
