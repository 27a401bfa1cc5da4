-- ===== src/Common/Texts.antt =====
-- Texts as lists of code units, for the code that takes texts apart: comparison, `split`, `join`,
-- `trim`, `toLowerCase` on the letters of ASCII.
use Prim.Native.Char.{code}
use Prim.Native.String.{String}
use hostingservices.Common.{
  ℕ, ◌+◌, ◌≡◌, ◌≢◌, refl, Bool, true, false, List, [], ◌∷◌, ◌++◌, ◌&&◌, ◌||◌, leb, ◌==◌, arith, ap₂,
  ◌↔◌, ==_iff, if◌then◌else◌, All, &&-parts,
}

abbrev pub Text : Type 0
Text = List ℕ

-- A literal as a text.
abbrev pub text : String → Text
text String.[] = []
text (String.◌∷◌ c s) = code c ∷ text s

-- `a === b`.
unfoldable pub text_eq : Text → Text → Bool
text_eq [] [] = true
text_eq [] (d ∷ b) = false
text_eq (c ∷ a) [] = false
text_eq (c ∷ a) (d ∷ b) = c == d && text_eq a b

pub text_eq_iff : (a b : Text) → (text_eq a b ≡ true) ↔ (a ≡ b)
unfolding text_eq
text_eq_iff [] [] = (λ h. refl, λ h. refl)
text_eq_iff [] (d ∷ b) = (λ h. cc, λ h. cc)
text_eq_iff (c ∷ a) [] = (λ h. cc, λ h. cc)
text_eq_iff (c ∷ a) (d ∷ b) = (
  λ h.
      let (same, rest) = &&-parts (c == d) (text_eq a b) h in
      ap₂ ◌∷◌ ((==_iff c d).0 same) ((text_eq_iff a b).0 rest),
  λ h. grind (arith, text_eq_iff a b),
)

-- `!text`.
abbrev pub is_blank : Text → Bool
is_blank [] = true
is_blank (c ∷ cs) = false

-- `a || b`.
abbrev pub or_else : Text → Text → Text
or_else [] b = b
or_else (c ∷ a) b = c ∷ a

unfoldable pub starts_with : Text → Text → Bool
starts_with [] s = true
starts_with (c ∷ p) [] = false
starts_with (c ∷ p) (d ∷ s) = c == d && starts_with p s

-- `s.split(sep)`: the part up to the first separator, and the parts after it.
unfoldable pub split : ℕ → Text → Text × List Text
split sep [] = ([], [])
split sep (c ∷ cs) =
    let (part, parts) = split sep cs in if c == sep then ([], part ∷ parts) else (c ∷ part, parts)

-- The text has no separator.
abbrev pub Plain : ℕ → Text → Type 0
Plain sep = All (λ c. c ≢ sep)

-- A text without the separator is one part, and ends the part that it begins.
pub split-Plain : (sep : ℕ) (s : Text) → Plain sep s → split sep s ≡ (s, [])
unfolding split
split-Plain sep [] h = refl
split-Plain sep (c ∷ s) h = rw (split-Plain sep s h.1) (ground arith)

pub split-append :
    (sep : ℕ) (s rest : Text)
    → Plain sep s
    → split sep (s ++ sep ∷ rest) ≡ (s, (split sep rest).0 ∷ (split sep rest).1)
unfolding split
split-append sep [] rest h = rw ((==_iff sep sep).1 refl) refl
split-append sep (c ∷ s) rest h = rw (split-append sep s rest h.1) (ground arith)

-- `parts.join(sep)`
abbrev pub join : ℕ → List Text → Text
join sep [] = []
join sep (p ∷ []) = p
join sep (p ∷ q ∷ ps) = p ++ sep ∷ join sep (q ∷ ps)

abbrev pub is_space : ℕ → Bool
is_space c = (leb 9 c && leb c 13) || c == b' '

abbrev pub trim_start : Text → Text
trim_start [] = []
trim_start (c ∷ cs) = if is_space c then trim_start cs else c ∷ cs

abbrev pub trim_end : Text → Text
trim_end [] = []
trim_end (c ∷ cs) = let rest = trim_end cs in if is_blank rest && is_space c then [] else c ∷ rest

-- `s.trim()`
abbrev pub trim : Text → Text
trim s = trim_end (trim_start s)

abbrev pub lower_char : ℕ → ℕ
lower_char c = if leb b'A' c && leb c b'Z' then c + 32 else c

-- `s.toLowerCase()`
abbrev pub lower : Text → Text
lower [] = []
lower (c ∷ cs) = lower_char c ∷ lower cs

check_text : text "a.b" ≡ b'a' ∷ b'.' ∷ b'b' ∷ []
check_text = refl

check_trim : lower (trim (text " Ann@X ")) ≡ text "ann@x"
check_trim = refl
