-- ===== src/Auth/Guarantees.antt =====
-- Who is signed in: the signed state, the callbacks, the accounts and the sessions that they
-- leave.
use hostingservices.Common.{
  ℕ, ◌≡◌, refl, Bool, true, false, none, some, [], ◌∷◌, ◌++◌, not, arith, ap, ◌∙◌, length,
  if◌then◌else◌, ==_iff,
}
use hostingservices.Common.Texts.{Text, text, text_eq, text_eq_iff, is_blank, Plain, starts_with}
use hostingservices.Auth.{Crypto, Documented}
use hostingservices.Auth.Secrets.{part, parts}
use hostingservices.Auth.SecretLaws.{parts_of_two}
use hostingservices.Auth.Accounts.{Store}
use hostingservices.Auth.States.{
  Provider, github, google, name, Env, signature, signed_state, valid_state, valid_signature,
  effective_auth_secret, get_cookie,
}
use hostingservices.Auth.Callbacks.{
  replied, redirect, Identified, identified, failed, crashed, Identity, Fresh, OauthRequest,
  is_missing, same_text, check_state, callback, after_code, sign_in, set_login,
}

Plain-append : (sep : ℕ) (a b : Text) → Plain sep a → Plain sep b → Plain sep (a ++ b)
Plain-append sep [] b p q = q
Plain-append sep (x ∷ a) b p q = (p.0, Plain-append sep a b p.1 q)

name-Plain : (p : Provider) → Plain b'.' (name p ++ b':' ∷ [])
name-Plain github = ground arith
name-Plain google = ground arith

abbrev pub same_provider : Provider → Provider → Bool
same_provider github github = true
same_provider github google = false
same_provider google github = false
same_provider google google = true

starts_with-name :
    (p q : Provider) (rest : Text)
    → starts_with (name q ++ text ":") (name p ++ b':' ∷ rest) ≡ same_provider p q
unfolding starts_with
starts_with-name github github rest = refl
starts_with-name github google rest = refl
starts_with-name google github rest = refl
starts_with-name google google rest = refl

nonblank-name : (p : Provider) (rest : Text) → is_blank (name p ++ b':' ∷ rest) ≡ false
nonblank-name github rest = refl
nonblank-name google rest = refl

not-not : (b : Bool) → (if not b then some false else some true) ≡ some b
not-not true = refl
not-not false = refl

module _ (c : Crypto) (laws : Documented c) where
  value-Plain : (p : Provider) (b : Text) → Plain b'.' (name p ++ b':' ∷ c.hex b)
  value-Plain github b =
      Plain-append b'.' (text "github:") (c.hex b) (name-Plain github) (laws.hex-Plain_dot b)
  value-Plain google b =
      Plain-append b'.' (text "google:") (c.hex b) (name-Plain google) (laws.hex-Plain_dot b)

  valid_signature-own :
      (env : Env) (q : Provider) (value : Text)
      → is_blank value ≡ false
      → valid_signature c env q value (signature c env value)
        ≡ some (starts_with (name q ++ text ":") value)
  unfolding valid_signature
  valid_signature-own env q value given =
      let sig = signature c env value in
      rw
        (
          given,
          laws.is_blank-hex (c.hmac (effective_auth_secret env) value),
          laws.hmac-nonempty (effective_auth_secret env) value,
          (==_iff (length sig) (length sig)).1 refl,
          (==_iff (length (c.utf8 sig)) (length (c.utf8 sig))).1 refl,
          (text_eq_iff (c.utf8 sig) (c.utf8 sig)).1 refl,
        )
        (not-not (starts_with (name q ++ text ":") value))

  valid_state_of_parts :
      (env : Env) (q : Provider) (state value sig : Text)
      → is_blank state ≡ false
      → parts b'.' state ≡ value ∷ sig ∷ []
      → valid_state c env (some state) q ≡ valid_signature c env q value sig
  unfolding valid_state
  valid_state_of_parts env q state value sig given e = rw (given, e) refl

  nonblank-signed_state :
      (env : Env) (p : Provider) (bytes : Text) → is_blank (signed_state c env p bytes) ≡ false
  unfolding signed_state
  nonblank-signed_state env github bytes = refl
  nonblank-signed_state env google bytes = refl

  parts-signed_state :
      (env : Env) (p : Provider) (bytes : Text)
      → let value = name p ++ b':' ∷ c.hex bytes in
        parts b'.' (signed_state c env p bytes) ≡ value ∷ signature c env value ∷ []
  unfolding signed_state
  parts-signed_state env p bytes =
      let value = name p ++ b':' ∷ c.hex bytes in
      parts_of_two b'.' value (signature c env value) (value-Plain p bytes) (laws.hex-Plain_dot _)

  -- A signed state is valid for the provider that it was signed for, and for no other.
  pub valid_state-signed_state :
      (env : Env) (p q : Provider) (bytes : Text)
      → valid_state c env (some (signed_state c env p bytes)) q ≡ some (same_provider p q)
  valid_state-signed_state env p q bytes =
      let value = name p ++ b':' ∷ c.hex bytes in
      valid_state_of_parts env q (signed_state c env p bytes) value (signature c env value)
        (nonblank-signed_state env p bytes) (parts-signed_state env p bytes)
      ∙ valid_signature-own env q value (nonblank-name p (c.hex bytes))
      ∙ ap some (starts_with-name p q (c.hex bytes))

  valid_signature_sound :
      (env : Env) (p : Provider) (value sig : Text)
      → valid_signature c env p value sig ≡ some true
      → (starts_with (name p ++ text ":") value ≡ true) × (sig ≡ signature c env value)
  unfolding valid_signature
  valid_signature_sound env p value sig h =
      let (begins, same) = tests env p value sig h in
      (
        begins,
        laws.utf8-hex sig (c.hmac (effective_auth_secret env) value)
            ((text_eq_iff (c.utf8 sig) (c.utf8 (signature c env value))).0 same),
      )
    where
      tests :
          (env : Env) (p : Provider) (value sig : Text)
          → valid_signature c env p value sig ≡ some true
          → (starts_with (name p ++ text ":") value ≡ true)
            × (text_eq (c.utf8 sig) (c.utf8 (signature c env value)) ≡ true)
      tests env p value sig h = ground (arith, h)

  -- A state that is valid for a provider is its first part, which begins with the provider's name,
  -- and the signature of that part with the secret.
  pub valid_state_sound :
      (env : Env) (p : Provider) (state : Text)
      → valid_state c env (some state) p ≡ some true
      → let ps = parts b'.' state in
        (starts_with (name p ++ text ":") (part 0 ps) ≡ true)
        × (part 1 ps ≡ signature c env (part 0 ps))
  unfolding valid_state
  valid_state_sound env p state h =
      let ps = parts b'.' state in
      valid_signature_sound env p (part 0 ps) (part 1 ps) (ground (arith, h))

module _ (c : Crypto) where
  check_state_passed :
      (env : Env) (p : Provider) (r : OauthRequest)
      → check_state c env p r ≡ some true
      → (valid_state c env r.state p ≡ some true)
        × (same_text r.state (get_cookie c r.cookies (text "nexus_oauth_state")) ≡ true)
  unfolding check_state
  check_state_passed env p r h = ground (arith, h)

  pub callback_passed :
      (env : Env) (p : Provider) (r : OauthRequest) (answers : Identified) (fresh : Fresh) (now : ℕ)
      (s : Store) {location token : Text} {s' : Store}
      → callback c env p r answers fresh now s ≡ replied (redirect location (some token)) s'
      → (check_state c env p r ≡ some true)
        × (is_missing r.code ≡ false)
        × (after_code c env p fresh now answers s ≡ replied (redirect location (some token)) s')
  unfolding callback
  callback_passed env p r answers fresh now s h = ground (arith, h)

  after_code-cookie :
      (env : Env) (p : Provider) (fresh : Fresh) (now : ℕ) (answers : Identified) (s : Store)
      {location token : Text} {s' : Store}
      → after_code c env p fresh now answers s ≡ replied (redirect location (some token)) s'
      → (i : Identity) × (answers ≡ identified i)
        × (sign_in c env p fresh now i s ≡ replied (redirect location (some token)) s')
  unfolding after_code
  after_code-cookie env p fresh now (identified i) s h = (i, refl, h)
  after_code-cookie env p fresh now (failed suffix) s h = ground (arith, h)
  after_code-cookie env p fresh now crashed s h = ground (arith, h)

  -- A callback sets a session's cookie only if the state of the request is valid for the provider
  -- and equals the cookie's, a code is given, the provider names the user, and the account and the
  -- session are stored.
  pub callback-cookie :
      (env : Env) (p : Provider) (r : OauthRequest) (answers : Identified) (fresh : Fresh) (now : ℕ)
      (s : Store) {location token : Text} {s' : Store}
      → callback c env p r answers fresh now s ≡ replied (redirect location (some token)) s'
      → (valid_state c env r.state p ≡ some true)
        × (same_text r.state (get_cookie c r.cookies (text "nexus_oauth_state")) ≡ true)
        × (is_missing r.code ≡ false)
        × (i : Identity) × (answers ≡ identified i)
        × (sign_in c env p fresh now i s ≡ replied (redirect location (some token)) s')
  callback-cookie env p r answers fresh now s h =
      let (checked, code, after) = callback_passed env p r answers fresh now s h in
      let (valid, same) = check_state_passed env p r checked in
      let (i, named, stored) = after_code-cookie env p fresh now answers s after in
      (valid, same, code, i, named, stored)

  -- A callback that replies without a session's cookie leaves the store as it was.
  pub callback-unchanged :
      (env : Env) (p : Provider) (r : OauthRequest) (answers : Identified) (fresh : Fresh) (now : ℕ)
      (s : Store) {location : Text} {s' : Store}
      → callback c env p r answers fresh now s ≡ replied (redirect location none) s'
      → s' ≡ s
  unfolding callback after_code sign_in set_login
  callback-unchanged env p r answers fresh now s h = ground (arith, h)
