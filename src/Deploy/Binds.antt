-- ===== src/Deploy/Binds.antt =====
-- The check of volume binds (`safeVolumeBinds` of apps/engine/src/deploy.ts). A text is the list
-- of its code units.
use hostingservices.Common.{
  ℕ, Bool, true, false, Option, none, some, List, [], ◌∷◌, ◌&&◌, ◌||◌, not, leb, ltb, ◌==◌, length,
  if◌then◌else◌,
}

abbrev pub Text : Type 0
Text = List ℕ

-- `text.split(':')`: the part up to the first colon, and the parts after it.
unfoldable pub split_from : Text → Text × List Text
split_from [] = ([], [])
split_from (c ∷ cs) =
    let (part, parts) = split_from cs in if c == b':' then ([], part ∷ parts) else (c ∷ part, parts)

unfoldable pub split_colon : Text → List Text
unfolding split_from
split_colon text = (split_from text).0 ∷ (split_from text).1

abbrev pub starts_with_slash : Text → Bool
starts_with_slash [] = false
starts_with_slash (c ∷ cs) = c == b'/'

unfoldable pub is_letter : ℕ → Bool
is_letter c = (leb b'A' c && leb c b'Z') || (leb b'a' c && leb c b'z')

-- The test of `/^[A-Za-z]:[\\/]/`.
unfoldable pub is_drive_path : Text → Bool
unfolding is_letter
is_drive_path (c ∷ d ∷ e ∷ rest) = is_letter c && d == b':' && (e == 0x5c || e == b'/')
is_drive_path _ = false

-- `source.includes('..')`.
unfoldable pub has_dot_dot : Text → Bool
has_dot_dot [] = false
has_dot_dot (c ∷ []) = false
has_dot_dot (c ∷ d ∷ rest) = (c == b'.' && d == b'.') || has_dot_dot (d ∷ rest)

abbrev pub is_empty : Text → Bool
is_empty [] = true
is_empty (c ∷ cs) = false

unfoldable pub is_unsafe_source : Text → Bool
unfolding is_drive_path has_dot_dot
is_unsafe_source source =
    is_empty source || starts_with_slash source || is_drive_path source || has_dot_dot source

pub data BindError : Type 0 where
  disabled_in_production invalid_bind unsafe_path : BindError

-- One round of the loop: `none` if the bind passes.
unfoldable pub check_parts : List Text → Option BindError
unfolding is_unsafe_source
check_parts [] = some invalid_bind
check_parts (source ∷ parts) =
    if ltb (length (source ∷ parts)) 2 || ltb 3 (length (source ∷ parts))
    then some invalid_bind
    else if is_unsafe_source source
    then some unsafe_path
    else none

unfoldable pub check_bind : Text → Option BindError
unfolding split_colon check_parts
check_bind bind = check_parts (split_colon bind)

unfoldable pub check_binds : List Text → Option BindError
unfolding check_bind
check_binds [] = none
check_binds (b ∷ bs) = elim (check_bind b) [ some e ↦ some e | none ↦ check_binds bs ]

-- The error that `safeVolumeBinds` throws, if any. `allowed` is true where
-- ALLOW_RUNTIME_HOST_BINDS is 'true'.
unfoldable pub safe_volume_binds : Bool → Bool → List Text → Option BindError
unfolding check_binds
safe_volume_binds production allowed [] = none
safe_volume_binds production allowed (b ∷ bs) =
    if production && not allowed then some disabled_in_production else check_binds (b ∷ bs)
