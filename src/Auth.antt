-- ===== src/Auth.antt =====
-- Accounts, sessions and sign-in of the API (apps/api/src/auth.ts, apps/api/src/auth-routes.ts,
-- the users' tables of apps/api/src/db.ts and packages/secrets/src/index.ts).
--
-- Node's cryptography, its encodings of bytes and `encodeURIComponent` are a record of functions;
-- what their documentation promises is a record of laws. Texts and bytes are lists of numbers, and
-- what is drawn at random is an argument.
pub mod Secrets
pub mod SecretLaws
pub mod Accounts
pub mod Sessions
pub mod States
pub mod Callbacks
pub mod Guarantees
pub mod Owners
pub mod Routes
pub mod Registration
mod Tests
use hostingservices.Common.{◌≡◌, Bool, false, Option, some}
use hostingservices.Common.Texts.{Text, Plain, is_blank}

pub record Crypto : Type 0 where
  pub base64url : Text → Text
  pub from_base64url : Text → Text
  pub hex : Text → Text
  pub from_hex : Text → Text
  pub utf8 : Text → Text
  -- `createHash('sha256')`, `createHmac('sha256', key)` and `scryptSync(password, salt, 64)`
  pub sha256 : Text → Text
  pub hmac : (key message : Text) → Text
  pub scrypt : (password salt : Text) → Text
  -- 'aes-256-gcm': the ciphertext and the tag; `none` where `final` throws.
  pub seal : (key iv message : Text) → Text × Text
  pub unseal : (key iv tag body : Text) → Option Text
  pub encode_uri : Text → Text
  pub decode_uri : Text → Text

-- What the code relies on. The encodings give back the bytes; those of bytes use neither dots,
-- colons nor semicolons; what was sealed can be unsealed; the ciphertext is as empty as the
-- message; tags and keys derived from passwords are not empty; only a text of ASCII has the bytes
-- of a text of ASCII.
pub record Documented (c : Crypto) : Type 0 where
  pub from_base64url-base64url : (b : Text) → c.from_base64url (c.base64url b) ≡ b
  pub from_hex-hex : (b : Text) → c.from_hex (c.hex b) ≡ b
  pub base64url-Plain : (b : Text) → Plain b'.' (c.base64url b)
  pub hex-Plain_dot : (b : Text) → Plain b'.' (c.hex b)
  pub hex-Plain_colon : (b : Text) → Plain b':' (c.hex b)
  pub is_blank-base64url : (b : Text) → is_blank (c.base64url b) ≡ is_blank b
  pub is_blank-hex : (b : Text) → is_blank (c.hex b) ≡ is_blank b
  pub unseal-seal :
      (key iv message : Text)
      → c.unseal key iv (c.seal key iv message).1 (c.seal key iv message).0 ≡ some message
  pub is_blank-seal :
      (key iv message : Text) → is_blank (c.seal key iv message).0 ≡ is_blank message
  pub tag-nonempty : (key iv message : Text) → is_blank (c.seal key iv message).1 ≡ false
  pub scrypt-nonempty : (password salt : Text) → is_blank (c.scrypt password salt) ≡ false
  pub hmac-nonempty : (key message : Text) → is_blank (c.hmac key message) ≡ false
  pub utf8-hex : (s b : Text) → c.utf8 s ≡ c.utf8 (c.hex b) → s ≡ c.hex b
