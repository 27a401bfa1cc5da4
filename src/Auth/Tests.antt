-- ===== src/Auth/Tests.antt =====
-- Sign-in on concrete users, with a toy cryptography that meets the laws.
use hostingservices.Common.{
  ap, ◌∙◌, ◌≢◌, ◌<◌, In, inl, inr, ℕ, ◌+◌, ◌-◌, ◌*◌, ◌≡◌, ◌↔◌, refl, true, false, none, some, [],
  ◌∷◌, ◌++◌, arith, ap₂, ltb,
}
use hostingservices.Common.Texts.{
  Text, text, text_eq_iff, Plain, is_blank, split, starts_with, text_eq,
}
use hostingservices.Auth.{Crypto, Documented}
use hostingservices.Auth.Accounts.{
  Store, User, Session, public_user, OauthInput, upsert_oauth_account, account_of,
}
use hostingservices.Auth.Secrets.{
  decrypted, encrypt_token, decrypt_token, hash_password, verify_password,
}
use hostingservices.Auth.SecretLaws.{decrypt_token-encrypt_token, verify_password-hash_password}
use hostingservices.Auth.Sessions.{
  user_if, user_from_token, token_hash, new_session_token, session_days,
}
use hostingservices.Auth.States.{github, google, Env, signed_state, valid_state, get_cookie, cookie}
use hostingservices.Auth.Callbacks.{
  OauthRequest, identified, Identity, Fresh, replied, redirect, signed_in, callback, sign_in,
  same_text, is_missing, input_of,
}
use hostingservices.Auth.Guarantees.{valid_state-signed_state, callback-cookie}
use hostingservices.Auth.Owners.{callback-owner, upsert_oauth_account-again, owner}
use hostingservices.Auth.Routes.{RegisterBody, register, login}
use hostingservices.Auth.Registration.{login-register, same_login}

-- Every byte becomes a letter that is no dot and no colon.
abbrev shift : Text → Text
shift [] = []
shift (c ∷ cs) = (c + 100) ∷ shift cs

abbrev unshift : Text → Text
unshift [] = []
unshift (c ∷ cs) = (c - 100) ∷ unshift cs

unshift-shift : (b : Text) → unshift (shift b) ≡ b
unshift-shift [] = refl
unshift-shift (c ∷ cs) = ap₂ ◌∷◌ (omega arith) (unshift-shift cs)

shift-Plain_dot : (b : Text) → Plain b'.' (shift b)
shift-Plain_dot [] = tt
shift-Plain_dot (c ∷ cs) = (omega arith, shift-Plain_dot cs)

shift-Plain_colon : (b : Text) → Plain b':' (shift b)
shift-Plain_colon [] = tt
shift-Plain_colon (c ∷ cs) = (omega arith, shift-Plain_colon cs)

is_blank-shift : (b : Text) → is_blank (shift b) ≡ is_blank b
is_blank-shift [] = refl
is_blank-shift (c ∷ cs) = refl

abbrev toy : Crypto
toy = record {
  base64url = shift;
  from_base64url = unshift;
  hex = shift;
  from_hex = unshift;
  utf8 = λ s. s;
  sha256 = λ s. s;
  hmac = λ key message. 0 ∷ key ++ message;
  scrypt = λ password salt. 0 ∷ password ++ salt;
  seal = λ key iv message. (message, 1 ∷ []);
  unseal = λ key iv tag body. some body;
  encode_uri = λ s. s;
  decode_uri = λ s. s;
}

abbrev toy_laws : Documented toy
toy_laws = record {
  from_base64url-base64url = unshift-shift;
  from_hex-hex = unshift-shift;
  base64url-Plain = shift-Plain_dot;
  hex-Plain_dot = shift-Plain_dot;
  hex-Plain_colon = shift-Plain_colon;
  is_blank-base64url = is_blank-shift;
  is_blank-hex = is_blank-shift;
  unseal-seal = λ key iv message. refl;
  is_blank-seal = λ key iv message. refl;
  tag-nonempty = λ key iv message. refl;
  scrypt-nonempty = λ password salt. refl;
  hmac-nonempty = λ key message. refl;
  utf8-hex = λ s b e. e;
}

abbrev salt : Text
salt = 1 ∷ 2 ∷ []

decrypt_token-encrypt_token_example :
    decrypt_token toy (text "key") (encrypt_token toy (text "key") salt (text "gho_1"))
    ≡ decrypted (text "gho_1")
decrypt_token-encrypt_token_example =
    decrypt_token-encrypt_token toy toy_laws (text "key") salt (text "gho_1") refl

verify_password-hash_password_case :
    (verify_password toy (text "guess") (hash_password toy salt (text "secret")) ≡ true)
    ↔ (toy.scrypt (text "guess") (toy.hex salt) ≡ toy.scrypt (text "secret") (toy.hex salt))
verify_password-hash_password_case =
    verify_password-hash_password toy toy_laws salt (text "secret") (text "guess") refl

abbrev env : Env
env = record {
  is_production = false;
  web_url = text "http://w";
  api_url = text "http://a";
  auth_secret = some (text "s");
  client_id = λ p. some (text "id");
  client_secret = λ p. some (text "cs");
  callback_url = λ p. none;
}

valid_state-signed_state_example :
    valid_state toy env (some (signed_state toy env github salt)) google ≡ some false
valid_state-signed_state_example = valid_state-signed_state toy toy_laws env github google salt

abbrev empty_store : Store
empty_store = record { users = []; accounts = []; sessions = [] }

abbrev fresh : Fresh
fresh = record { user_id = text "u1"; session_bytes = 3 ∷ []; iv = salt }

abbrev again : Fresh
again = record { user_id = text "u2"; session_bytes = 4 ∷ []; iv = salt }

abbrev ann : RegisterBody
ann = record { email = some (text " Ann@x "); password = some (text "long enough"); name = none }

abbrev ann_user : User
ann_user = record {
  id = text "u1";
  email = some (text "ann@x");
  name = text "ann";
  avatar_url = none;
  password_hash = some (hash_password toy salt (text "long enough"));
  created_at = 10;
}

abbrev ann_cookie : Text
ann_cookie = cookie toy env (shift (3 ∷ [])) (text "2592000")

abbrev ann_session : Text → ℕ → Session
ann_session id now = record {
  user_id = id;
  token_hash = shift (shift (3 ∷ []));
  expires_at = now + 2_592_000_000;
}

abbrev with_ann : Store
with_ann = record {
  users = ann_user ∷ [];
  accounts = [];
  sessions = ann_session (text "u1") 10 ∷ [];
}

register-ann :
    register toy env ann fresh salt 10 empty_store
    ≡ replied (signed_in 201 (public_user ann_user) ann_cookie) with_ann
unfolding register split text_eq
register-ann = refl

no_such_token :
    (t : Session)
    → In t with_ann.sessions
    → t.token_hash ≢ token_hash toy (new_session_token toy (4 ∷ []))
unfolding token_hash new_session_token text_eq
no_such_token t (inl e) h =
    let same = (text_eq_iff (203 ∷ []) (204 ∷ [])).1 (ap (λ x. x.token_hash) e ∙ h) in cc same
no_such_token t (inr i) h = absurd i

login-register_example :
    (t : Store) × (login toy env (same_login ann) again 20 with_ann
      ≡ replied
          (signed_in 200 (public_user ann_user) (cookie toy env (shift (4 ∷ [])) (text "2592000")))
          t)
    × ((at : ℕ)
        → at < 20 + 30 * 86_400_000
        → user_from_token toy (some (shift (4 ∷ []))) at t ≡ some (public_user ann_user))
unfolding split new_session_token
login-register_example =
    login-register toy toy_laws env ann fresh again salt 10 20 empty_store refl refl register-ann
      no_such_token

abbrev octocat : Identity
octocat = record {
  account_id = text "1";
  email = text "ann@x";
  full_name = text "Octo";
  avatar_url = none;
  access_token = text "gho_1";
}

abbrev state : Text
state = signed_state toy env github (5 ∷ [])

abbrev request : OauthRequest
request = record {
  code = some (text "c");
  state = some state;
  cookies = some (text "a=b; nexus_oauth_state=" ++ state);
}

abbrev linked : Store
linked = record {
  users = ann_user ∷ [];
  accounts = account_of (input_of toy env github fresh octocat) (text "u1") ∷ [];
  sessions = ann_session (text "u1") 30 ∷ [];
}

abbrev only_ann : Store
only_ann = record { users = ann_user ∷ []; accounts = []; sessions = [] }

abbrev success : Text
success = text "http://w/?auth=success"

octocat_signs_in :
    callback toy env github request (identified octocat) fresh 30 only_ann
    ≡ replied (redirect success (some ann_cookie)) linked
unfolding callback signed_state split starts_with text_eq
octocat_signs_in = refl

callback-cookie_example :
    (valid_state toy env (some state) github ≡ some true)
    × (same_text (some state) (get_cookie toy request.cookies (text "nexus_oauth_state")) ≡ true)
    × (is_missing request.code ≡ false)
    × (i : Identity) × (identified octocat ≡ identified i)
    × (sign_in toy env github fresh 30 i only_ann
        ≡ replied (redirect success (some ann_cookie)) linked)
callback-cookie_example =
    callback-cookie toy env github request (identified octocat) fresh 30 only_ann octocat_signs_in

callback-owner_example :
    (u : Text) × (owner (text "github") (text "1") linked ≡ some u)
    × (user_from_token toy (some (new_session_token toy (3 ∷ []))) 40 linked
        ≡ user_if (ltb 40 (30 + session_days * 86_400_000)) u linked)
callback-owner_example =
    callback-owner toy env github request octocat fresh 30 40 only_ann refl octocat_signs_in

abbrev first_input : OauthInput
first_input = input_of toy env github fresh octocat

abbrev next_input : OauthInput
next_input =
    input_of toy env github again (record octocat { email = text "new@y"; full_name = text "New" })

abbrev linked_once : Store
linked_once = record {
  users = ann_user ∷ [];
  accounts = account_of first_input (text "u1") ∷ [];
  sessions = [];
}

abbrev linked_again : Store
linked_again = record {
  users = record ann_user { name = text "New"; avatar_url = none } ∷ [];
  accounts = account_of next_input (text "u1") ∷ [];
  sessions = [];
}

links_once :
    upsert_oauth_account first_input (text "u9") 30 only_ann ≡ some (text "u1", linked_once)
unfolding upsert_oauth_account text_eq
links_once = refl

links_again :
    upsert_oauth_account next_input (text "u9") 40 linked_once ≡ some (text "u1", linked_again)
unfolding upsert_oauth_account text_eq
links_again = refl

upsert_oauth_account-again_case : text "u1" ≡ text "u1"
upsert_oauth_account-again_case =
    upsert_oauth_account-again first_input next_input (text "u9") (text "u9") 30 40 only_ann
      links_once refl refl links_again
