-- ===== src/Web/Following.antt =====
-- A redirect of the API, followed through the gateway, reaches what the API named.
use hostingservices.Common.{
  ℕ, ◌≡◌, refl, List, [], ◌∷◌, ◌==◌, ap, sym, ◌∙◌, Bool-cases, inl, inr, ==_iff, false,
}
use hostingservices.Common.Texts.{Text, is_blank, split, join}

-- The parts of a text, joined again, are the text.
pub join-split :
    (sep : ℕ) (s : Text) → let (part, parts) = split sep s in join sep (part ∷ parts) ≡ s
unfolding split
join-split sep [] = refl
join-split sep (c ∷ cs) = elim (Bool-cases (c == sep)) [
  | inl e ↦ rw e (ap (◌∷◌ sep) (join-split sep cs) ∙ ap (λ x. x ∷ cs) (sym ((==_iff c sep).0 e)))
  | inr e ↦ rw e (join-cons c (split sep cs).0 (split sep cs).1 ∙ ap (◌∷◌ c) (join-split sep cs))
]
  where
    join-cons :
        (c : ℕ) (p : Text) (ps : List Text) → join sep ((c ∷ p) ∷ ps) ≡ c ∷ join sep (p ∷ ps)
    join-cons c p [] = refl
    join-cons c p (q ∷ ps) = refl

-- The segments that the gateway gets for the path of a location below its prefix.
abbrev pub segments : Text → List Text
segments rest = (split b'/' rest).0 ∷ (split b'/' rest).1

-- A segment that stands in the URL as the framework gives it: it is not empty, and decoding it
-- changes nothing.
abbrev pub IsPlain : (Text → Text) → Text → Type 0
IsPlain decode part = (is_blank part ≡ false) × (decode part ≡ part)
