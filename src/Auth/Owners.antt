-- ===== src/Auth/Owners.antt =====
-- The user of a provider's account stays the same, and owns the session that a sign-in leaves.
use hostingservices.Common.{
  ℕ, ◌+◌, ◌*◌, ◌≡◌, ◌⊎◌, refl, Bool, true, false, Option, none, some, List, [], ◌∷◌, ◌++◌, ltb, any,
  find, map, arith, ap, ap₂, ◌∙◌, Option-cases, inl, inr,
}
use hostingservices.Common.Texts.{Text, text_eq_iff, is_blank}
use hostingservices.Auth.{Crypto}
use hostingservices.Auth.Accounts.{
  Store, Account, OauthInput, upsert_oauth_account, owner_of_new, is_account, set_token, account_of,
  create_user, create_session,
}
use hostingservices.Auth.Sessions.{
  start_session, new_session_token, user_from_token, user_from_token-start_session, find-last,
  user_if, session_days,
}
use hostingservices.Auth.States.{Provider, name, Env}
use hostingservices.Auth.Guarantees.{callback_passed}
use hostingservices.Auth.Callbacks.{
  Handled, replied, redirect, Reply, identified, Identity, Fresh, OauthRequest, callback,
  after_code, sign_in, set_login, input_of,
}

-- The user that owns the account of a provider.
abbrev pub owner : Text → Text → Store → Option Text
owner provider id s = elim (find (is_account provider id) s.accounts) [
  | none ↦ none
  | some a ↦ some a.user_id
]

pub find-none-any : {A : Type 0} (p : A → Bool) (xs : List A) → find p xs ≡ none → any p xs ≡ false
find-none-any p [] h = refl
find-none-any p (x ∷ xs) h = ground (arith, find-none-any p xs)

-- A change that keeps the test and the owner keeps the owner that is found.
owner_of_map :
    (p : Account → Bool) (f : Account → Account) (xs : List Account)
    → ((a : Account) → p (f a) ≡ p a)
    → ((a : Account) → (f a).user_id ≡ a.user_id)
    → {a : Account} → find p xs ≡ some a
    → find p (map f xs) ≡ some (f a)
owner_of_map p f [] same keeps {a} h = cc
owner_of_map p f (x ∷ xs) same keeps {a} h =
    rw (same x) (ground (arith, owner_of_map p f xs same keeps {a = a}))

set_token-is_account :
    (i : OauthInput) (provider id : Text) (a : Account)
    → is_account provider id (set_token i a) ≡ is_account provider id a
set_token-is_account i provider id a = ground arith

set_token-user_id : (i : OauthInput) (a : Account) → (set_token i a).user_id ≡ a.user_id
set_token-user_id i a = ground arith

own_account :
    (i : OauthInput) (u : Text)
    → is_account i.provider i.provider_account_id (account_of i u) ≡ true
own_account i u =
    rw
      (
        (text_eq_iff i.provider i.provider).1 refl,
        (text_eq_iff i.provider_account_id i.provider_account_id).1 refl,
      )
      refl

owner_of_new-accounts :
    (i : OauthInput) (id : Text) (now : ℕ) (s : Store) {o : Text} {t : Store}
    → owner_of_new i id now s ≡ some (o, t)
    → t.accounts ≡ s.accounts
unfolding owner_of_new create_user
owner_of_new-accounts i id now s h = ground (arith, h)

module _ (i : OauthInput) (id : Text) (now : ℕ) (s : Store) where
  abbrev is_own : Account → Bool
  is_own = is_account i.provider i.provider_account_id

  added :
      {u : Text} {s' : Store}
      → find is_own s.accounts ≡ none
      → upsert_oauth_account i id now s ≡ some (u, s')
      → s'.accounts ≡ s.accounts ++ account_of i u ∷ []
  unfolding upsert_oauth_account
  added {u = u} {s' = s'} e h = elim (Option-cases (owner_of_new i id now s)) [
    | inl none_new ↦ ground (arith, e, h, none_new)
    | inr ((o, t), new) ↦ ground (arith, e, h, new, owner_of_new-accounts i id now s new)
  ]

  -- The account was there, or it is put at the end.
  upsert-cases :
      {u : Text} {s' : Store}
      → upsert_oauth_account i id now s ≡ some (u, s')
      → ((a : Account) × (find is_own s.accounts ≡ some a)
          × (a.user_id ≡ u)
          × (s'.accounts ≡ map (set_token i) s.accounts))
        ⊎ ((find is_own s.accounts ≡ none) × (s'.accounts ≡ s.accounts ++ account_of i u ∷ []))
  unfolding upsert_oauth_account
  upsert-cases {u = u} {s' = s'} h = elim (Option-cases (find is_own s.accounts)) [
    | inr (a, e) ↦ inl (a, e, ground (arith, h, e), ground (arith, h, e))
    | inl e ↦ inr (e, added e h)
  ]

  find-upsert :
      {u : Text} {s' : Store}
      → upsert_oauth_account i id now s ≡ some (u, s')
      → (a : Account) × (find is_own s'.accounts ≡ some a) × (a.user_id ≡ u)
  find-upsert {u = u} {s' = s'} h = elim (upsert-cases h) [
    | inl (a, e, mine, same) ↦ (
      set_token i a,
      ap (find is_own) same
          ∙ owner_of_map is_own (set_token i) s.accounts
              (set_token-is_account i i.provider i.provider_account_id) (set_token-user_id i) e,
      set_token-user_id i a ∙ mine,
    )
    | inr (e, same) ↦ (
      account_of i u,
      ap (find is_own) same
          ∙ find-last is_own s.accounts (account_of i u) (find-none-any is_own s.accounts e)
          ∙ rw (own_account i u) refl,
      refl,
    )
  ]

  upsert-found :
      {a : Account} {u : Text} {s' : Store}
      → find is_own s.accounts ≡ some a
      → upsert_oauth_account i id now s ≡ some (u, s')
      → u ≡ a.user_id
  unfolding upsert_oauth_account
  upsert-found e h = ground (arith, e, h)

-- After the account is stored, the user that is returned owns it.
pub owner-upsert_oauth_account :
    (i : OauthInput) (id : Text) (now : ℕ) (s : Store) {u : Text} {s' : Store}
    → upsert_oauth_account i id now s ≡ some (u, s')
    → owner i.provider i.provider_account_id s' ≡ some u
owner-upsert_oauth_account i id now s h =
    let (a, e, mine) = find-upsert i id now s h in rw (owner, e) (ap some mine)

-- The user whom a sign-in with a provider's account returns is the one whom the next sign-in with
-- the same account returns, whatever name, email and token come with it.
pub upsert_oauth_account-again :
    (i j : OauthInput) (id id' : Text) (now later : ℕ) (s : Store) {u u' : Text} {s' s'' : Store}
    → upsert_oauth_account i id now s ≡ some (u, s')
    → j.provider ≡ i.provider
    → j.provider_account_id ≡ i.provider_account_id
    → upsert_oauth_account j id' later s' ≡ some (u', s'')
    → u' ≡ u
upsert_oauth_account-again i j id id' now later s {u = u} {s' = s'} h p q k =
    let (a, e, mine) = find-upsert i id now s h in
    let found = ap₂ (λ x y. find (is_account x y) s'.accounts) p q ∙ e in
    upsert-found j id' later s' found k ∙ mine

module _ (c : Crypto) where
  create_session-accounts :
      (bytes user_id : Text) (now : ℕ) (s : Store) {s' : Store}
      → start_session c bytes user_id now s ≡ some s'
      → s'.accounts ≡ s.accounts
  unfolding start_session create_session
  create_session-accounts bytes user_id now s h = ground (arith, h)

  owner_of_accounts :
      (provider id : Text) (s s' : Store)
      → s'.accounts ≡ s.accounts
      → owner provider id s' ≡ owner provider id s
  owner_of_accounts provider id s s' e = rw (owner, e) refl

  -- The two steps of a sign-in that succeeds.
  sign_in-steps :
      (env : Env) (p : Provider) (fresh : Fresh) (now : ℕ) (i : Identity) (s : Store)
      {reply : Reply} {s' : Store}
      → sign_in c env p fresh now i s ≡ replied reply s'
      → (u : Text) × (t : Store) × (upsert_oauth_account
            (input_of c env p fresh i)
            fresh.user_id
            now
            s
          ≡ some (u, t))
        × (start_session c fresh.session_bytes u now t ≡ some s')
  unfolding sign_in set_login
  sign_in-steps env p fresh now i s {reply = reply} {s' = s'} h =
      elim (Option-cases (upsert_oauth_account (input_of c env p fresh i) fresh.user_id now s)) [
        | inl e ↦ ground (arith, h, e)
        | inr ((u, t), e) ↦ (u, t, e, started u t e h)
      ]
    where
      started :
          (u : Text) (t : Store)
          → upsert_oauth_account (input_of c env p fresh i) fresh.user_id now s ≡ some (u, t)
          → sign_in c env p fresh now i s ≡ replied reply s'
          → start_session c fresh.session_bytes u now t ≡ some s'
      started u t e h = ground (arith, e, h)

  -- A callback that sets a session's cookie leaves a session of the user who owns the provider's
  -- account: the session's token gives this user until 30 days later, and from then on none. The
  -- token is not empty.
  pub callback-owner :
      (env : Env) (p : Provider) (r : OauthRequest) (i : Identity) (fresh : Fresh) (now later : ℕ)
      (s : Store) {location token : Text} {s' : Store}
      → is_blank (c.base64url fresh.session_bytes) ≡ false
      → callback c env p r (identified i) fresh now s ≡ replied (redirect location (some token)) s'
      → (u : Text) × (owner (name p) i.account_id s' ≡ some u)
        × (user_from_token c (some (new_session_token c fresh.session_bytes)) later s'
            ≡ user_if (ltb later (now + session_days * 86_400_000)) u s')
  unfolding after_code
  callback-owner env p r i fresh now later s {s' = s'} given h =
      let (checked, code, after) = callback_passed c env p r (identified i) fresh now s h in
      let (u, t, stored, started) = sign_in-steps env p fresh now i s (after_identified after) in
      let input = input_of c env p fresh i in
      (
        u,
        owner_of_accounts (name p) i.account_id t s'
              (create_session-accounts fresh.session_bytes u now t started)
            ∙ owner-upsert_oauth_account input fresh.user_id now s stored,
        user_from_token-start_session c fresh.session_bytes u now later t given started,
      )
    where
      after_identified :
          {h : Handled}
          → after_code c env p fresh now (identified i) s ≡ h
          → sign_in c env p fresh now i s ≡ h
      after_identified e = e
