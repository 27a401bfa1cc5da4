-- ===== src/Auth/SecretLaws.antt =====
-- What is encrypted can be decrypted unless it is empty, and which passwords a hash accepts.
use hostingservices.Common.{
  ℕ, ◌≡◌, refl, true, false, Option, some, [], ◌∷◌, ◌++◌, ◌&&◌, ◌==◌, length, arith, ap, ◌∙◌, ◌↔◌,
  ==_iff, if◌then◌else◌, Option-cases, inl, inr, &&-parts,
}
use hostingservices.Common.Texts.{
  Text, text_eq, text_eq_iff, is_blank, split-Plain, split-append, Plain,
}
use hostingservices.Auth.{Crypto, Documented}
use hostingservices.Auth.Secrets.{
  parts, Decrypted, decrypted, refused, invalid_payload, encrypt, decrypt, encrypt_secret,
  decrypt_secret, secrets_key, encrypt_token, decrypt_token, hash_password, verify_password,
}

parts_of_three :
    (sep : ℕ) (a b d : Text)
    → Plain sep a
    → Plain sep b
    → Plain sep d
    → parts sep (a ++ sep ∷ (b ++ sep ∷ d)) ≡ a ∷ b ∷ d ∷ []
parts_of_three sep a b d p q r =
    rw (split-append sep a (b ++ sep ∷ d) p, split-append sep b d q, split-Plain sep d r) refl

pub parts_of_two :
    (sep : ℕ) (a b : Text) → Plain sep a → Plain sep b → parts sep (a ++ sep ∷ b) ≡ a ∷ b ∷ []
parts_of_two sep a b p q = rw (split-append sep a b p, split-Plain sep b q) refl

-- The comparison of two buffers.
same_bytes : (a b : Text) → ((length a == length b && text_eq a b) ≡ true) ↔ (a ≡ b)
same_bytes a b = (
  λ h. (text_eq_iff a b).0 (&&-parts (length a == length b) (text_eq a b) h).1,
  λ h. rw (h, (==_iff (length b) (length b)).1 refl, (text_eq_iff b b).1 refl) refl,
)

module _ (c : Crypto) (laws : Documented c) where
  abbrev pub unless_blank : Text → Decrypted
  unless_blank value = if is_blank value then refused invalid_payload else decrypted value

  pub decrypt-encrypt :
      (key iv value : Text)
      → is_blank iv ≡ false
      → decrypt c key (encrypt c key iv value) ≡ unless_blank value
  unfolding decrypt encrypt
  decrypt-encrypt key iv value given =
      rw
        (
          parts_of_three b'.' (c.base64url iv) (c.base64url (c.seal key iv value).1)
              (c.base64url (c.seal key iv value).0) (laws.base64url-Plain _)
              (laws.base64url-Plain _) (laws.base64url-Plain _),
          laws.is_blank-base64url iv,
          laws.is_blank-base64url (c.seal key iv value).1,
          laws.is_blank-base64url (c.seal key iv value).0,
          given,
          laws.tag-nonempty key iv value,
          laws.is_blank-seal key iv value,
          laws.from_base64url-base64url iv,
          laws.from_base64url-base64url (c.seal key iv value).1,
          laws.from_base64url-base64url (c.seal key iv value).0,
          laws.unseal-seal key iv value,
        )
        refl

  decrypt_secret-keyed :
      (secret : Option Text) (key payload : Text)
      → secrets_key c secret ≡ some key
      → decrypt_secret c secret payload ≡ decrypt c key payload
  unfolding decrypt_secret decrypt
  decrypt_secret-keyed secret key payload e = ground (arith, e)

  -- What `encryptToken` returns for a text decrypts to it under the same secret, except for the
  -- empty text, which `decryptToken` refuses as invalid; the random bytes are not empty.
  pub decrypt_token-encrypt_token :
      (secret iv value : Text)
      → is_blank iv ≡ false
      → decrypt_token c secret (encrypt_token c secret iv value) ≡ unless_blank value
  unfolding decrypt_token encrypt_token
  decrypt_token-encrypt_token secret iv value given =
      decrypt-encrypt (c.sha256 secret) iv value given

  -- A hash of a password accepts exactly the passwords from which scrypt derives the same key with
  -- the same salt; the salt is not empty.
  pub verify_password-hash_password :
      (salt password given : Text)
      → is_blank salt ≡ false
      → (verify_password c given (hash_password c salt password) ≡ true)
        ↔ (c.scrypt given (c.hex salt) ≡ c.scrypt password (c.hex salt))
  unfolding verify_password hash_password
  verify_password-hash_password salt password given h =
      rw
        (
          parts_of_two b':' (c.hex salt) (c.hex (c.scrypt password (c.hex salt)))
              (laws.hex-Plain_colon _) (laws.hex-Plain_colon _),
          laws.is_blank-hex salt,
          laws.is_blank-hex (c.scrypt password (c.hex salt)),
          h,
          laws.scrypt-nonempty password (c.hex salt),
          laws.from_hex-hex (c.scrypt password (c.hex salt)),
        )
        (same_bytes (c.scrypt given (c.hex salt)) (c.scrypt password (c.hex salt)))

  -- What `encryptSecret` returns decrypts to the secret under the same NEXUS_SECRETS_KEY, except
  -- for the empty secret; without the key nothing is encrypted. The random bytes are not empty.
  pub decrypt_secret-encrypt_secret :
      (secret : Option Text) (iv value payload : Text)
      → is_blank iv ≡ false
      → encrypt_secret c secret iv value ≡ some payload
      → decrypt_secret c secret payload ≡ unless_blank value
  unfolding encrypt_secret
  decrypt_secret-encrypt_secret secret iv value payload given h =
      elim (Option-cases (secrets_key c secret)) [
        | inl e ↦ ground (arith, h, e)
        | inr (key, e) ↦
            decrypt_secret-keyed secret key payload e
            ∙ ap (decrypt c key) (sealed key e)
            ∙ decrypt-encrypt key iv value given
      ]
    where
      sealed : (key : Text) → secrets_key c secret ≡ some key → payload ≡ encrypt c key iv value
      sealed key e = ground (arith, h, e)
