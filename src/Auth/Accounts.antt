-- ===== src/Auth/Accounts.antt =====
-- The tables `users`, `oauth_accounts` and `sessions`, and the queries on them
-- (apps/api/src/db.ts). `none` is a query that throws on a constraint of its table. Times are
-- milliseconds.
use hostingservices.Common.{
  ℕ, Bool, false, Option, none, some, List, [], ◌∷◌, ◌++◌, ◌&&◌, ◌||◌, not, ltb, any, find, keep,
  map, if◌then◌else◌,
}
use hostingservices.Common.Texts.{Text, text_eq, is_blank, lower}

pub record User : Type 0 where
  pub id : Text
  pub email : Option Text
  pub name : Text
  pub avatar_url : Option Text
  pub password_hash : Option Text
  pub created_at : ℕ

-- The columns that are selected for others: all but the hash of the password.
pub record PublicUser : Type 0 where
  pub id : Text
  pub email : Option Text
  pub name : Text
  pub avatar_url : Option Text
  pub created_at : ℕ

abbrev pub public_user : User → PublicUser
public_user u = record {
  id = u.id;
  email = u.email;
  name = u.name;
  avatar_url = u.avatar_url;
  created_at = u.created_at;
}

pub record Session : Type 0 where
  pub user_id : Text
  pub token_hash : Text
  pub expires_at : ℕ

pub record Account : Type 0 where
  pub user_id : Text
  pub provider : Text
  pub provider_account_id : Text
  pub access_token : Option Text

pub record Store : Type 0 where
  pub users : List User
  pub accounts : List Account
  pub sessions : List Session

abbrev pub has_id : Text → User → Bool
has_id id u = text_eq u.id id

unfoldable pub get_user_by_id : Text → Store → Option PublicUser
get_user_by_id id s = elim (find (has_id id) s.users) [
  | none ↦ none
  | some u ↦ some (public_user u)
]

abbrev pub same_email : Option Text → User → Bool
same_email none u = false
same_email (some email) u = elim u.email [ none ↦ false | some e ↦ text_eq e email ]

-- The row is inserted unless its key or its email stands in the table.
unfoldable pub create_user : User → Store → Option Store
create_user u s =
    if any (has_id u.id) s.users || any (same_email u.email) s.users
    then none
    else some (record s { users = s.users ++ u ∷ [] })

-- `WHERE lower(email)=lower($1) LIMIT 1`.
abbrev pub has_email : Text → User → Bool
has_email email u = elim u.email [ none ↦ false | some e ↦ text_eq (lower e) (lower email) ]

unfoldable pub get_user_by_email : Text → Store → Option User
get_user_by_email email s = find (has_email email) s.users

-- The token must be new and the user must exist.
unfoldable pub create_session : Session → Store → Option Store
create_session new s =
    if any (has_id new.user_id) s.users
      && not (any (λ (t : Session). text_eq t.token_hash new.token_hash) s.sessions)
    then some (record s { sessions = s.sessions ++ new ∷ [] })
    else none

abbrev pub is_live : Text → ℕ → Session → Bool
is_live hash now t = text_eq t.token_hash hash && ltb now t.expires_at

-- `sessions s JOIN users u`; a hash stands in one session at most.
unfoldable pub get_user_by_session : Text → ℕ → Store → Option PublicUser
unfolding get_user_by_id
get_user_by_session hash now s = elim (find (is_live hash now) s.sessions) [
  | none ↦ none
  | some t ↦ get_user_by_id t.user_id s
]

unfoldable pub delete_session : Text → Store → Store
delete_session hash s = record s {
  sessions = keep (λ (t : Session). not (text_eq t.token_hash hash)) s.sessions;
}

abbrev pub is_account : Text → Text → Account → Bool
is_account provider id a = text_eq a.provider provider && text_eq a.provider_account_id id

-- `upsertOAuthAccount`'s input, and the id that a new user gets.
pub record OauthInput : Type 0 where
  pub provider : Text
  pub provider_account_id : Text
  pub email : Option Text
  pub name : Text
  pub avatar_url : Option Text
  pub access_token : Option Text

abbrev pub set_token : OauthInput → Account → Account
set_token i a =
    if is_account i.provider i.provider_account_id a
    then record a { access_token = i.access_token }
    else a

abbrev pub set_profile : Text → OauthInput → User → User
set_profile id i u =
    if has_id id u then record u { name = i.name; avatar_url = i.avatar_url } else u

-- `input.email ? await getUserByEmail(input.email) : undefined`.
abbrev pub by_email : Option Text → Store → Option User
by_email none s = none
by_email (some email) s = if is_blank email then none else get_user_by_email email s

-- The user of a new account: the one with the email, or a new one.
unfoldable pub owner_of_new : OauthInput → Text → ℕ → Store → Option (Text × Store)
unfolding create_user get_user_by_email
owner_of_new i id now s = elim (by_email i.email s) [
  | some u ↦ some (u.id, s)
  | none ↦
      elim (create_user
        (record {
          id = id;
          email = i.email;
          name = i.name;
          avatar_url = i.avatar_url;
          password_hash = none;
          created_at = now;
        })
        s) [ none ↦ none | some s ↦ some (id, s) ]
]

abbrev pub account_of : OauthInput → Text → Account
account_of i user_id = record {
  user_id = user_id;
  provider = i.provider;
  provider_account_id = i.provider_account_id;
  access_token = i.access_token;
}

-- The id of the account's user, and the store.
unfoldable pub upsert_oauth_account : OauthInput → Text → ℕ → Store → Option (Text × Store)
unfolding owner_of_new
upsert_oauth_account i id now s =
    elim (find (is_account i.provider i.provider_account_id) s.accounts) [
      | some a ↦ some (
        a.user_id,
        record s {
          accounts = map (set_token i) s.accounts;
          users = map (set_profile a.user_id i) s.users;
        },
      )
      | none ↦ elim (owner_of_new i id now s) [
        | none ↦ none
        | some (owner, s) ↦
            some (owner, record s { accounts = s.accounts ++ account_of i owner ∷ [] })
      ]
    ]

-- The first row of the user and the provider.
unfoldable pub get_oauth_access_token : Text → Text → Store → Option Text
get_oauth_access_token user_id provider s =
    elim (find (λ (a : Account). text_eq a.user_id user_id && text_eq a.provider provider)
      s.accounts) [ none ↦ none | some a ↦ a.access_token ]
