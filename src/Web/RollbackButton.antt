-- ===== src/Web/RollbackButton.antt =====
-- The button that rolls a deployment back (apps/web/app/deploy/rollback-button.tsx): its state and
-- its handlers. What the API answers is given; the rendering is left out.
use hostingservices.Common.{
  String, Bool, true, false, Option, none, some, List, [], ◌||◌, not, any, find, str_eq, get_or,
  if◌then◌else◌,
}
use hostingservices.Rollback.Listing.{Version}

pub record ButtonState : Type 0 where
  pub busy : Bool
  pub error : String
  pub versions : List Version
  pub show_history : Bool

-- An answer of the API: its value, an error with its fields, or an exception with its message.
pub data Answer (A : Type 0) : Type 0 where
  value : A → Answer A
  failure : (detail error : Option String) → Answer A
  exception : Option String → Answer A

abbrev pub or_text : Option String → String → String
or_text none other = other
or_text (some s) other = if str_eq s "" then other else s

-- `loadVersions`
unfoldable pub load_versions : Answer (Option (List Version)) → ButtonState → ButtonState
load_versions (value vs) s = record s { versions = get_or vs [] }
load_versions (failure detail error) s = record s {
  error = or_text error "Could not load deployment history";
}
load_versions (exception message) s = record s {
  error = get_or message "Could not load deployment history";
}

abbrev set_busy : ButtonState → ButtonState
set_busy s = record s { busy = true; error = "" }

abbrev ended : ButtonState → ButtonState
ended s = record s { busy = false }

-- What a handler asks the API for, and whether `onComplete` is called.
pub record Effects : Type 0 where
  pub target : Option String
  pub completed : Bool

abbrev pub nothing : Effects
nothing = record { target = none; completed = false }

abbrev pub asked : String → Bool → Effects
asked id completed = record { target = some id; completed = completed }

-- `rollbackTo`: the confirmation, the request for the target, and the versions that are loaded
-- again.
unfoldable pub rollback_to :
    (confirmed : Bool)
    → Answer (Unit {0})
    → Answer (Option (List Version))
    → Version
    → ButtonState
    → ButtonState × Effects
unfolding load_versions
rollback_to false answer reload target s = (s, nothing)
rollback_to true (value v) reload target s =
    (ended (load_versions reload (set_busy s)), asked target.id true)
rollback_to true (failure detail error) reload target s = (
  ended (record (set_busy s) { error = or_text detail (or_text error "Rollback failed") }),
  asked target.id false,
)
rollback_to true (exception message) reload target s = (
  ended (record (set_busy s) { error = get_or message "Rollback failed" }),
  asked target.id false,
)

abbrev pub is_other : Version → Bool
is_other v = not v.current

-- `rollbackPrevious`
unfoldable pub rollback_previous :
    (confirmed : Bool)
    → Answer (Unit {0})
    → Answer (Option (List Version))
    → ButtonState
    → ButtonState × Effects
unfolding rollback_to
rollback_previous confirmed answer reload s = elim (find is_other s.versions) [
  | none ↦ (record s { error = "No previous healthy version is available for rollback." }, nothing)
  | some previous ↦ rollback_to confirmed answer reload previous s
]

-- Whether the button for the previous version is disabled.
unfoldable pub is_disabled : (disabled : Bool) → ButtonState → Bool
is_disabled disabled s = disabled || s.busy || not (any is_other s.versions)
