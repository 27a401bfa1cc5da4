-- ===== src/Deploy/BindLaws.antt =====
-- Which volume binds pass the check of apps/engine/src/deploy.ts.
use hostingservices.Common.{
  ℕ, ◌≤◌, ◌≡◌, ◌≢◌, refl, true, false, none, List, [], ◌∷◌, ◌++◌, ◌==◌, length, All, arith,
  Bool-cases, ap, ap₂, sym, subst, ◌∙◌, ◌↔◌, ==_iff, inl, inr,
}
use hostingservices.Deploy.Binds.{
  Text, split_from, split_colon, starts_with_slash, is_letter, is_drive_path, has_dot_dot,
  is_unsafe_source, check_parts, check_bind,
}

-- The text has no colon.
abbrev pub NoColon : Text → Type 0
NoColon = All (λ c. c ≢ b':')

-- The parts joined by colons.
abbrev pub join_from : Text → List Text → Text
join_from part [] = part
join_from part (p ∷ ps) = part ++ b':' ∷ join_from p ps

join_from-cons :
    (c : ℕ) (part : Text) (parts : List Text)
    → join_from (c ∷ part) parts ≡ c ∷ join_from part parts
join_from-cons c part [] = refl
join_from-cons c part (p ∷ ps) = refl

split_from-join :
    (text : Text)
    → let (part, parts) = split_from text in
      (join_from part parts ≡ text) × NoColon part × All NoColon parts
unfolding split_from
split_from-join [] = (refl, tt, tt)
split_from-join (c ∷ cs) =
    let (joined, first_part, others) = split_from-join cs in
    elim (Bool-cases (c == b':')) [
      | inl e ↦ rw e (ap₂ ◌∷◌ (sym ((==_iff c b':').0 e)) joined, tt, (first_part, others))
      | inr e ↦ rw e (
        join_from-cons c (split_from cs).0 (split_from cs).1 ∙ ap (◌∷◌ c) joined,
        (ground arith, first_part),
        others,
      )
    ]

split_from_of_join :
    (part : Text) (parts : List Text)
    → NoColon part
    → All NoColon parts
    → split_from (join_from part parts) ≡ (part, parts)
unfolding split_from
split_from_of_join [] [] h k = refl
split_from_of_join [] (p ∷ ps) h k = rw (split_from_of_join p ps k.0 k.1)
split_from_of_join (c ∷ cs) parts h k =
    rw (join_from-cons c cs parts) (ground (arith, split_from_of_join cs parts))

no_drive_of_NoColon : (source : Text) → NoColon source → is_drive_path source ≡ false
unfolding is_drive_path
no_drive_of_NoColon [] h = refl
no_drive_of_NoColon (c ∷ []) h = refl
no_drive_of_NoColon (c ∷ d ∷ []) h = refl
no_drive_of_NoColon (c ∷ d ∷ e ∷ rest) h = ground arith

-- A source that is not empty, does not begin with a slash and does not hold two dots in a row.
abbrev pub IsRelative : Text → Type 0
IsRelative source =
    (source ≢ []) × (starts_with_slash source ≡ false) × (has_dot_dot source ≡ false)

safe_iff : (source : Text) → NoColon source → (is_unsafe_source source ≡ false) ↔ IsRelative source
unfolding is_unsafe_source
safe_iff [] n = (λ h. cc, λ h. absurd (h.0 refl))
safe_iff (c ∷ cs) n = (λ h. ground arith, λ h. ground (arith, no_drive_of_NoColon (c ∷ cs)))

check_bind_of_join :
    (source : Text) (others : List Text)
    → 1 ≤ length others
    → length others ≤ 2
    → IsRelative source
    → NoColon source
    → All NoColon others
    → check_bind (join_from source others) ≡ none
unfolding check_bind split_colon check_parts
check_bind_of_join source others lo hi r k ks =
    rw (split_from_of_join source others k ks) (ground (arith, (safe_iff source k).1 r))

-- A bind passes the check exactly when it is two or three parts without colons, joined by colons,
-- of which the first is not empty, does not begin with a slash and does not hold two dots in a
-- row.
pub check_bind-none :
    (bind : Text)
    → (check_bind bind ≡ none) ↔ (
        (source : Text) × (others : List Text) × (join_from source others ≡ bind)
        × (1 ≤ length others)
        × (length others ≤ 2)
        × IsRelative source
        × NoColon source
        × All NoColon others)
unfolding check_bind split_colon check_parts
check_bind-none bind =
    let (joined, n, ns) = split_from-join bind in
    let s = safe_iff (split_from bind).0 n in
    (
      λ h. (
        (split_from bind).0,
        (split_from bind).1,
        joined,
        ground arith,
        ground arith,
        s.0 (ground arith),
        n,
        ns,
      ),
      λ (source, others, e, lo, hi, r, k, ks).
          subst (λ b. check_bind b ≡ none) e (check_bind_of_join source others lo hi r k ks),
    )

-- A bind of a path on a Windows drive passes the check, whatever the path, if it holds no other
-- colon: the drive is taken for the source.
pub drive_path-passes :
    (drive : ℕ) (path target : Text)
    → is_letter drive ≡ true
    → NoColon path
    → NoColon target
    → check_bind (drive ∷ b':' ∷ path ++ b':' ∷ target) ≡ none
unfolding is_letter has_dot_dot
drive_path-passes drive path target l p t =
    check_bind_of_join (drive ∷ []) (path ∷ target ∷ []) (omega arith) (omega arith)
      (λ e. cc, ground arith, refl) (ground arith, tt) (p, (t, tt))
