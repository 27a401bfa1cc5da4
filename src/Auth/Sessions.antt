-- ===== src/Auth/Sessions.antt =====
-- Sessions: what is started lasts until it expires or is ended (apps/api/src/auth.ts).
use hostingservices.Common.{
  ℕ, ◌+◌, ◌*◌, ◌≡◌, refl, Bool, true, false, Option, none, some, List, [], ◌∷◌, ◌++◌, &&-parts, not,
  ltb, any, find, keep, arith, Bool-cases, inl, inr, if◌then◌else◌, sym, subst,
}
use hostingservices.Common.Texts.{Text, text_eq, text_eq_iff, is_blank}
use hostingservices.Auth.{Crypto}
use hostingservices.Auth.Accounts.{
  PublicUser, Session, Store, create_session, get_user_by_session, get_user_by_id, delete_session,
  is_live,
}

abbrev pub session_days : ℕ
session_days = 30

module _ (c : Crypto) where
  unfoldable pub new_session_token : Text → Text
  new_session_token bytes = c.base64url bytes

  unfoldable pub token_hash : Text → Text
  token_hash token = c.hex (c.sha256 token)

  unfoldable pub start_session : (bytes user_id : Text) (now : ℕ) → Store → Option Store
  unfolding create_session new_session_token token_hash
  start_session bytes user_id now s =
      create_session
        (record {
          user_id = user_id;
          token_hash = token_hash (new_session_token bytes);
          expires_at = now + session_days * 86_400_000;
        })
        s

  unfoldable pub user_from_token : Option Text → ℕ → Store → Option PublicUser
  unfolding get_user_by_session token_hash
  user_from_token none now s = none
  user_from_token (some token) now s =
      if is_blank token then none else get_user_by_session (token_hash token) now s

  unfoldable pub end_session : Option Text → Store → Store
  unfolding delete_session token_hash
  end_session none s = s
  end_session (some token) s = if is_blank token then s else delete_session (token_hash token) s

-- Only the last of a list may pass the test.
pub find-last :
    {A : Type 0} (p : A → Bool) (xs : List A) (x : A)
    → any p xs ≡ false
    → find p (xs ++ x ∷ []) ≡ (if p x then some x else none)
find-last p [] x h = refl
find-last p (y ∷ xs) x h = ground (arith, find-last p xs x)

-- What `keep` removes is not found.
find-keep-not :
    {A : Type 0} (p q : A → Bool) (xs : List A)
    → ((x : A) → p x ≡ true → q x ≡ true)
    → find p (keep (λ x. not (q x)) xs) ≡ none
find-keep-not p q [] h = refl
find-keep-not p q (x ∷ xs) h = ground (arith, h x, find-keep-not p q xs h)

any_weaken :
    {A : Type 0} (p q : A → Bool) (xs : List A)
    → ((x : A) → p x ≡ true → q x ≡ true)
    → any q xs ≡ false
    → any p xs ≡ false
any_weaken p q [] h k = refl
any_weaken p q (x ∷ xs) h k = ground (arith, h x, any_weaken p q xs h)

abbrev has_hash : Text → Session → Bool
has_hash hash t = text_eq t.token_hash hash

live_has_hash :
    (hash : Text) (now : ℕ) (t : Session) → is_live hash now t ≡ true → has_hash hash t ≡ true
live_has_hash hash now t h = (&&-parts (has_hash hash t) (ltb now t.expires_at) h).0

create_session-some :
    (new : Session) (s : Store) {s' : Store}
    → create_session new s ≡ some s'
    → (any (has_hash new.token_hash) s.sessions ≡ false)
      × (s' ≡ record s { sessions = s.sessions ++ new ∷ [] })
unfolding create_session
create_session-some new s h = ground (arith, h)

live_last : (new : Session) (now : ℕ) → is_live new.token_hash now new ≡ ltb now new.expires_at
live_last new now = rw ((text_eq_iff new.token_hash new.token_hash).1 refl) refl

abbrev pub user_if : Bool → Text → Store → Option PublicUser
user_if b id s = if b then get_user_by_id id s else none

get_user_by_session-create_session :
    (new : Session) (now : ℕ) (s : Store) {s' : Store}
    → create_session new s ≡ some s'
    → get_user_by_session new.token_hash now s' ≡ user_if (ltb now new.expires_at) new.user_id s'
unfolding get_user_by_session
get_user_by_session-create_session new now s h =
    let (fresh, same) = create_session-some new s h in
    subst
      (λ t.
        get_user_by_session new.token_hash now t ≡ user_if (ltb now new.expires_at) new.user_id t)
      (sym same) (found fresh)
  where
    found :
        any (has_hash new.token_hash) s.sessions ≡ false
        → get_user_by_session new.token_hash now (record s { sessions = s.sessions ++ new ∷ [] })
          ≡ user_if (ltb now new.expires_at) new.user_id s
    found fresh =
        rw
          (
            get_user_by_session,
            find-last (is_live new.token_hash now) s.sessions new (
                any_weaken (is_live new.token_hash now) (has_hash new.token_hash) s.sessions
                  (live_has_hash new.token_hash now) fresh),
            live_last new now,
          )
          (elim (Bool-cases (ltb now new.expires_at)) [ inl e ↦ rw e refl | inr e ↦ rw e refl ])

module _ (c : Crypto) where
  -- The token of a session that `startSession` has just started gives the session's user until 30
  -- days later, and from then on none; the token is not empty.
  pub user_from_token-start_session :
      (bytes user_id : Text) (now later : ℕ) (s : Store) {s' : Store}
      → is_blank (c.base64url bytes) ≡ false
      → start_session c bytes user_id now s ≡ some s'
      → user_from_token c (some (new_session_token c bytes)) later s'
        ≡ user_if (ltb later (now + session_days * 86_400_000)) user_id s'
  unfolding user_from_token start_session new_session_token
  user_from_token-start_session bytes user_id now later s given h =
      rw given (get_user_by_session-create_session _ later s h)

  -- A token whose session is ended gives no user.
  pub user_from_token-end_session :
      (token : Text) (now : ℕ) (s : Store)
      → user_from_token c (some token) now (end_session c (some token) s) ≡ none
  unfolding user_from_token end_session get_user_by_session delete_session
  user_from_token-end_session token now s =
      let hash = token_hash c token in
      elim (Bool-cases (is_blank token)) [
        | inl e ↦ rw e refl
        | inr e ↦
            rw
              (
                e,
                get_user_by_session,
                delete_session,
                find-keep-not (is_live hash now) (has_hash hash) s.sessions
                    (live_has_hash hash now),
              )
              refl
      ]
