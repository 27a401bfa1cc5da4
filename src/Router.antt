-- ===== src/Router.antt =====
-- The names of the router's files: `safe` of apps/engine/src/router.ts. The file of a runtime is
-- named by it, so that two runtimes whose names it makes the same share one file.
mod Tests
use hostingservices.Common.{
  ℕ, zero, suc, Bool, true, false, List, [], ◌∷◌, ◌&&◌, ◌||◌, leb, ◌==◌, if◌then◌else◌, String,
  Option, some, none, ◌≡◌, ◌≢◌, refl, arith,
}
use hostingservices.Common.Texts.{Text, text, text_eq, text_eq_iff, is_blank}

-- The characters that stay, `[a-zA-Z0-9.-]`.
abbrev is_safe_char : ℕ → Bool
is_safe_char c =
    (leb b'a' c && leb c b'z')
    || (leb b'A' c && leb c b'Z')
    || (leb b'0' c && leb c b'9')
    || c == b'.'
    || c == b'-'

-- `value.replace(/[^a-zA-Z0-9.-]/g, '-')`
abbrev hyphened : Text → Text
hyphened [] = []
hyphened (c ∷ cs) = (if is_safe_char c then c else b'-') ∷ hyphened cs

-- `replace(/^-+/, '')` and `replace(/-+$/, '')`
abbrev without_front : Text → Text
without_front [] = []
without_front (c ∷ cs) = if c == b'-' then without_front cs else c ∷ cs

abbrev put_front : ℕ → Text → Text
put_front c [] = if c == b'-' then [] else c ∷ []
put_front c (d ∷ cs) = c ∷ d ∷ cs

abbrev without_end : Text → Text
without_end [] = []
without_end (c ∷ cs) = put_front c (without_end cs)

abbrev take : ℕ → Text → Text
take zero cs = []
take (suc n) [] = []
take (suc n) (c ∷ cs) = c ∷ take n cs

abbrev or_service : Text → Text
or_service [] = text "service"
or_service (c ∷ cs) = c ∷ cs

unfoldable pub safe : Text → Text
safe name = or_service (take 100 (without_end (without_front (hyphened name))))

-- The files of the router, by name.
module _ {ℓ} {A : Type ℓ} where
  unfoldable pub file_of : Text → List (Text × A) → Option A
  file_of id [] = none
  file_of id ((other, route) ∷ files) = if text_eq other id then some route else file_of id files

  unfoldable pub write_file : Text → A → List (Text × A) → List (Text × A)
  write_file id route [] = (id, route) ∷ []
  write_file id route ((other, old) ∷ files) =
      if text_eq other id then (id, route) ∷ files else (other, old) ∷ write_file id route files

  -- What is written is read.
  pub file_of-write_file :
      (id : Text) (route : A) (files : List (Text × A))
      → file_of id (write_file id route files) ≡ some route
  unfolding file_of write_file
  file_of-write_file id route [] = rw ((text_eq_iff id id).1 refl) refl
  file_of-write_file id route ((other, old) ∷ files) =
      ground (arith, (text_eq_iff id id).1 refl, file_of-write_file id route files)
