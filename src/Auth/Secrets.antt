-- ===== src/Auth/Secrets.antt =====
-- Encrypted tokens and secrets, and the hashes of passwords (apps/api/src/auth.ts and
-- packages/secrets/src/index.ts).
use hostingservices.Common.{
  ℕ, zero, suc, Bool, false, Option, none, some, List, [], ◌∷◌, ◌++◌, ◌&&◌, ◌||◌, ◌==◌, length,
  if◌then◌else◌,
}
use hostingservices.Common.Texts.{Text, text_eq, is_blank, split}
use hostingservices.Auth.{Crypto}

-- The parts that `const [a, b, c] = s.split('.')` names; a part that is missing is as empty as
-- `''` for the tests that follow.
abbrev pub part : ℕ → List Text → Text
part i [] = []
part zero (p ∷ ps) = p
part (suc i) (p ∷ ps) = part i ps

abbrev pub parts : ℕ → Text → List Text
parts sep s = (split sep s).0 ∷ (split sep s).1

pub data SecretError : Type 0 where
  key_required invalid_payload not_authentic : SecretError

pub data Decrypted : Type 0 where
  decrypted : Text → Decrypted
  refused : SecretError → Decrypted

abbrev pub authentic : Option Text → Decrypted
authentic none = refused not_authentic
authentic (some message) = decrypted message

module _ (c : Crypto) where
  unfoldable pub encrypt : (key iv value : Text) → Text
  encrypt key iv value =
      let sealed = c.seal key iv value in
      c.base64url iv ++ b'.' ∷ (c.base64url sealed.1 ++ b'.' ∷ c.base64url sealed.0)

  unfoldable pub decrypt : (key value : Text) → Decrypted
  decrypt key value =
      let ps = parts b'.' value in
      let iv_raw = part 0 ps in
      let tag_raw = part 1 ps in
      let data_raw = part 2 ps in
      if is_blank iv_raw || is_blank tag_raw || is_blank data_raw
      then refused invalid_payload
      else authentic (
          c.unseal key (c.from_base64url iv_raw) (c.from_base64url tag_raw)
            (c.from_base64url data_raw))

  -- `authKey` and `encryptToken`, `decryptToken`: the secret has a default.
  abbrev pub auth_key : Text → Text
  auth_key secret = c.sha256 secret

  unfoldable pub encrypt_token : (secret iv value : Text) → Text
  unfolding encrypt
  encrypt_token secret iv value = encrypt (auth_key secret) iv value

  unfoldable pub decrypt_token : (secret value : Text) → Decrypted
  unfolding decrypt
  decrypt_token secret value = decrypt (auth_key secret) value

  -- `key` of packages/secrets: NEXUS_SECRETS_KEY must be set.
  unfoldable pub secrets_key : Option Text → Option Text
  secrets_key none = none
  secrets_key (some secret) = if is_blank secret then none else some (c.sha256 secret)

  unfoldable pub encrypt_secret : Option Text → (iv value : Text) → Option Text
  unfolding secrets_key encrypt
  encrypt_secret secret iv value = elim (secrets_key secret) [
    | none ↦ none
    | some key ↦ some (encrypt key iv value)
  ]

  -- The payload is checked before the key is read.
  unfoldable pub decrypt_secret : Option Text → (payload : Text) → Decrypted
  unfolding secrets_key decrypt
  decrypt_secret secret payload =
      let ps = parts b'.' payload in
      if is_blank (part 0 ps) || is_blank (part 1 ps) || is_blank (part 2 ps)
      then refused invalid_payload
      else elim (secrets_key secret) [
        | none ↦ refused key_required
        | some key ↦ decrypt key payload
      ]

  unfoldable pub hash_password : (salt_bytes password : Text) → Text
  hash_password salt_bytes password =
      let salt = c.hex salt_bytes in salt ++ b':' ∷ c.hex (c.scrypt password salt)

  unfoldable pub verify_password : (password stored : Text) → Bool
  verify_password password stored =
      let ps = parts b':' stored in
      let salt = part 0 ps in
      let hex = part 1 ps in
      if is_blank salt || is_blank hex
      then false
      else let actual = c.scrypt password salt in
        let expected = c.from_hex hex in length actual == length expected && text_eq actual expected
