-- ===== src/Auth/Registration.antt =====
-- Who has registered can log in.
use hostingservices.Common.{
  ◌≢◌, ◌<◌, ◌+◌, ◌*◌, Bool, Bool-cases, List, In, any, ltb, ℕ, ◌≡◌, refl, true, false, Option, none,
  some, [], ◌∷◌, ◌++◌, get_or, is_some, arith, find, ap, ◌∙◌, Option-cases, inl, inr,
}
use hostingservices.Common.Texts.{Text, text, text_eq, text_eq_iff, is_blank, lower}
use hostingservices.Auth.{Crypto, Documented}
use hostingservices.Auth.Accounts.{
  Session, has_id, get_user_by_id, User, PublicUser, public_user, Store, create_session,
  create_user, get_user_by_email, has_email,
}
use hostingservices.Auth.Secrets.{hash_password}
use hostingservices.Auth.SecretLaws.{verify_password-hash_password}
use hostingservices.Auth.Sessions.{
  user_if, session_days, start_session, token_hash, new_session_token, user_from_token,
  user_from_token-start_session, find-last,
}
use hostingservices.Auth.States.{Env, cookie}
use hostingservices.Auth.Callbacks.{Reply, replied, signed_in, Fresh, set_login}
use hostingservices.Auth.Routes.{
  RegisterBody, LoginBody, register, login, normalized, name_or_local_part, new_user, accepts,
  user_of_login,
}
use hostingservices.Auth.Owners.{find-none-any}

abbrev pub same_login : RegisterBody → LoginBody
same_login b = record { email = b.email; password = b.password }

module _ (c : Crypto) (laws : Documented c) where
  -- The user whom a registration stores.
  abbrev pub user_of : RegisterBody → Fresh → (salt : Text) → ℕ → User
  user_of b fresh salt now =
      let email = normalized b.email in
      new_user c fresh.user_id email (name_or_local_part b.name email) (get_or b.password []) salt
        now

  set_login-users :
      (env : Env) (fresh : Fresh) (now : ℕ) (id : Text) (reply : Text → Reply) (s : Store)
      {status : ℕ} {user : PublicUser} {token : Text} {s' : Store}
      → set_login c env fresh now id reply s ≡ replied (signed_in status user token) s'
      → s'.users ≡ s.users
  unfolding set_login start_session create_session
  set_login-users env fresh now id reply s h = ground (arith, h)

  -- A registration that signs in has found no user with the email, and added one.
  register-steps :
      (env : Env) (b : RegisterBody) (fresh : Fresh) (salt : Text) (now : ℕ) (s : Store)
      {status : ℕ} {user : PublicUser} {token : Text} {s' : Store}
      → register c env b fresh salt now s ≡ replied (signed_in status user token) s'
      → (is_blank (normalized b.email) ≡ false)
        × (is_some (get_user_by_email (normalized b.email) s) ≡ false)
        × (t : Store) × (create_user (user_of b fresh salt now) s ≡ some t)
        × (set_login c env fresh now fresh.user_id
              (signed_in 201 (public_user (user_of b fresh salt now)))
              t
            ≡ replied (signed_in status user token) s')
  unfolding register
  register-steps env b fresh salt now s h =
      elim (Option-cases (create_user (user_of b fresh salt now) s)) [
        | inl e ↦ ground (arith, h, e)
        | inr (t, e) ↦ (ground (arith, h), ground (arith, h), t, e, ground (arith, h, e))
      ]

  user_of_login-normalized :
      (email password : Option Text) (s : Store)
      → is_blank (normalized email) ≡ false
      → user_of_login (record { email = email; password = password }) s
        ≡ get_user_by_email (normalized email) s
  user_of_login-normalized none password s h = cc
  user_of_login-normalized (some []) password s h = cc
  user_of_login-normalized (some (x ∷ xs)) password s h = refl

  has_own_email :
      (b : RegisterBody) (fresh : Fresh) (salt : Text) (now : ℕ)
      → has_email (normalized b.email) (user_of b fresh salt now) ≡ true
  has_own_email b fresh salt now =
      (text_eq_iff (lower (normalized b.email)) (lower (normalized b.email))).1 refl

  none_of_is_some : {A : Type 0} (o : Option A) → is_some o ≡ false → o ≡ none
  none_of_is_some none h = refl
  none_of_is_some (some a) h = cc

  find-created :
      (b : RegisterBody) (fresh : Fresh) (salt : Text) (now : ℕ) (s t : Store)
      → is_some (get_user_by_email (normalized b.email) s) ≡ false
      → create_user (user_of b fresh salt now) s ≡ some t
      → get_user_by_email (normalized b.email) t ≡ some (user_of b fresh salt now)
  unfolding create_user get_user_by_email
  find-created b fresh salt now s t missing h =
      let user = user_of b fresh salt now in
      let test = has_email (normalized b.email) in
      ap (find test) (users_of_created h)
      ∙ find-last test s.users user (find-none-any test s.users (none_of_is_some _ missing))
      ∙ rw (has_own_email b fresh salt now) refl
    where
      users_of_created :
          create_user (user_of b fresh salt now) s ≡ some t
          → t.users ≡ s.users ++ user_of b fresh salt now ∷ []
      users_of_created h = ground (arith, h)

  nonblank-hash_password :
      (salt password : Text)
      → is_blank salt ≡ false
      → is_blank (hash_password c salt password) ≡ false
  unfolding hash_password
  nonblank-hash_password salt password h =
      nonblank_append (c.hex salt) _ (laws.is_blank-hex salt ∙ h)
    where
      nonblank_append : (a b : Text) → is_blank a ≡ false → is_blank (a ++ b) ≡ false
      nonblank_append [] b e = cc
      nonblank_append (x ∷ a) b e = refl

  accepts-created :
      (b : RegisterBody) (fresh : Fresh) (salt : Text) (now : ℕ)
      → is_blank salt ≡ false
      → accepts c (same_login b) (some (user_of b fresh salt now)) ≡ true
  accepts-created b fresh salt now h =
      rw
        (
          nonblank-hash_password salt (get_or b.password []) h,
          (verify_password-hash_password c laws salt (get_or b.password []) (get_or b.password [])
                h).1
              refl,
        )
        refl

  login-found :
      (env : Env) (b : LoginBody) (fresh : Fresh) (now : ℕ) (s : Store) {user : User}
      → user_of_login b s ≡ some user
      → accepts c b (some user) ≡ true
      → login c env b fresh now s
        ≡ set_login c env fresh now user.id (signed_in 200 (public_user user)) s
  unfolding login
  login-found env b fresh now s e a = ground (arith, e, a)

  -- The login after a registration begins a session.
  login_of-register :
      (env : Env) (b : RegisterBody) (fresh again : Fresh) (salt : Text) (now later : ℕ) (s : Store)
      {status : ℕ} {user : PublicUser} {token : Text} {s' : Store}
      → is_blank salt ≡ false
      → register c env b fresh salt now s ≡ replied (signed_in status user token) s'
      → login c env (same_login b) again later s'
        ≡ set_login c env again later fresh.user_id
            (signed_in 200 (public_user (user_of b fresh salt now)))
            s'
  unfolding get_user_by_email
  login_of-register env b fresh again salt now later s {s' = s'} given h =
      let (nonblank, missing, t, created, signed) = register-steps env b fresh salt now s h in
      let users = set_login-users env fresh now fresh.user_id _ t signed in
      login-found env (same_login b) again later s'
        (user_of_login-normalized b.email b.password s' nonblank
          ∙ same_users (normalized b.email) t s' users
          ∙ find-created b fresh salt now s t missing created)
        (accepts-created b fresh salt now given)
    where
      same_users :
          (email : Text) (t s' : Store)
          → s'.users ≡ t.users
          → get_user_by_email email s' ≡ get_user_by_email email t
      same_users email t s' e = ap (find (has_email email)) e

  -- The user whom a registration added is found by the id.
  created_id :
      (b : RegisterBody) (fresh : Fresh) (salt : Text) (now : ℕ) (s t : Store)
      → create_user (user_of b fresh salt now) s ≡ some t
      → find (has_id fresh.user_id) t.users ≡ some (user_of b fresh salt now)
  unfolding create_user
  created_id b fresh salt now s t h =
      let user = user_of b fresh salt now in
      let free : any (has_id fresh.user_id) s.users ≡ false = ground (arith, h) in
      let users : t.users ≡ s.users ++ user ∷ [] = ground (arith, h) in
      ap (find (has_id fresh.user_id)) users
      ∙ find-last (has_id fresh.user_id) s.users user free
      ∙ rw ((text_eq_iff fresh.user_id fresh.user_id).1 refl) refl

  any-find :
      {A : Type 0} (p : A → Bool) (xs : List A) {x : A} → find p xs ≡ some x → any p xs ≡ true
  any-find p [] h = cc
  any-find p (y ∷ xs) {x} h = ground (arith, any-find p xs {x = x})

  none_has :
      (hash : Text) (ts : List Session)
      → ((t : Session) → In t ts → t.token_hash ≢ hash)
      → any (λ (t : Session). text_eq t.token_hash hash) ts ≡ false
  none_has hash [] h = refl
  none_has hash (t ∷ ts) h = elim (Bool-cases (text_eq t.token_hash hash)) [
    | inl e ↦ absurd (h t (inl refl) ((text_eq_iff t.token_hash hash).0 e))
    | inr e ↦ rw e (none_has hash ts (λ u i. h u (inr i)))
  ]

  starts :
      (bytes id : Text) (now : ℕ) (s : Store)
      → any (has_id id) s.users ≡ true
      → any
          (λ (t : Session). text_eq t.token_hash (token_hash c (new_session_token c bytes)))
          s.sessions
        ≡ false
      → (s' : Store) × (start_session c bytes id now s ≡ some s') × (s'.users ≡ s.users)
  unfolding start_session create_session
  starts bytes id now s h k = (
    record s {
      sessions =
          s.sessions
          ++ record {
            user_id = id;
            token_hash = token_hash c (new_session_token c bytes);
            expires_at = now + session_days * 86_400_000;
          }
            ∷ [];
    },
    rw (h, k) refl,
    refl,
  )

  set_login-started :
      (env : Env) (fresh : Fresh) (now : ℕ) (id : Text) (reply : Text → Reply) (s t : Store)
      → start_session c fresh.session_bytes id now s ≡ some t
      → set_login c env fresh now id reply s
        ≡ replied
            (reply (cookie c env (new_session_token c fresh.session_bytes) (text "2592000")))
            t
  unfolding set_login
  set_login-started env fresh now id reply s t h = rw (set_login, h) refl

  user_if-found :
      (live : Bool) (id : Text) (s : Store) {u : User}
      → live ≡ true
      → find (has_id id) s.users ≡ some u
      → user_if live id s ≡ some (public_user u)
  unfolding get_user_by_id
  user_if-found live id s h k = rw (h, get_user_by_id, k) refl

  -- Who has registered can log in with the same email and password, if no session has the token
  -- that the login draws: the reply is 200 with the user whom the registration stored and the
  -- cookie of the token, and for 30 days the token gives this user. The salt and the token are not
  -- empty.
  pub login-register :
      (env : Env) (b : RegisterBody) (fresh again : Fresh) (salt : Text) (now later : ℕ) (s : Store)
      {status : ℕ} {user : PublicUser} {token : Text} {s' : Store}
      → is_blank salt ≡ false
      → is_blank (c.base64url again.session_bytes) ≡ false
      → register c env b fresh salt now s ≡ replied (signed_in status user token) s'
      → ((t : Session)
          → In t s'.sessions
          → t.token_hash ≢ token_hash c (new_session_token c again.session_bytes))
      → let stored = public_user (user_of b fresh salt now) in
        let drawn = new_session_token c again.session_bytes in
        (t : Store) × (login c env (same_login b) again later s'
          ≡ replied (signed_in 200 stored (cookie c env drawn (text "2592000"))) t)
        × ((at : ℕ)
            → at < later + 30 * 86_400_000
            → user_from_token c (some drawn) at t ≡ some stored)
  login-register env b fresh again salt now later s {s' = s'} given filled h free =
      let (nonblank, missing, u, created, signed) = register-steps env b fresh salt now s h in
      let users : s'.users ≡ u.users =
        set_login-users env fresh now fresh.user_id
          (signed_in 201 (public_user (user_of b fresh salt now))) u signed in
      let found : find (has_id fresh.user_id) s'.users ≡ some (user_of b fresh salt now) =
        ap (find (has_id fresh.user_id)) users ∙ created_id b fresh salt now s u created in
      let (t, started, same) =
        starts again.session_bytes fresh.user_id later s'
          (any-find (has_id fresh.user_id) s'.users found)
          (none_has (token_hash c (new_session_token c again.session_bytes)) s'.sessions free) in
      (
        t,
        login_of-register env b fresh again salt now later s given h
            ∙ set_login-started env again later fresh.user_id
                (signed_in 200 (public_user (user_of b fresh salt now))) s' t started,
        λ at early.
            user_from_token-start_session c again.session_bytes fresh.user_id later at s' filled
              started
            ∙ user_if-found (ltb at (later + session_days * 86_400_000)) fresh.user_id t
                (ltb_of early) (ap (find (has_id fresh.user_id)) same ∙ found),
      )
    where
      ltb_of : {m n : ℕ} → m < n → ltb m n ≡ true
      ltb_of h = ground arith
