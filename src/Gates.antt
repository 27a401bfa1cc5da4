-- ===== src/Gates.antt =====
-- The release gates of a project (apps/api/src/release-gates.ts): what a gate decides, the gates
-- before and after a release, and which results block. The messages are left out; what the probe
-- of the runtime answers is given.
pub mod Blocking
mod Tests
use hostingservices.Common.{
  ℕ, Bool, true, false, Option, none, some, List, [], ◌∷◌, ◌++◌, ◌&&◌, ◌||◌, not, ltb, ◌==◌, get_or,
  any, keep, map, if◌then◌else◌,
}
use hostingservices.Common.Texts.{Text, text, text_eq, is_blank, lower}

pub data Status : Type 0 where
  passed failed skipped : Status

-- `config.required` and `config.expectedStatuses` are none where they are no arrays.
pub record GateConfig : Type 0 where
  pub id : Text
  pub name : Text
  pub kind : Text
  pub required : Bool
  pub required_keys : Option (List Text)
  pub expected_statuses : Option (List ℕ)

pub record GateResult : Type 0 where
  pub name : Text
  pub kind : Text
  pub required : Bool
  pub status : Status

-- The names that are set in the deployment's environment and in the process's, and what is known
-- of the build, the scan, the checks (`some false` for anything but true) and the runtime;
-- `response` is none where the request throws.
pub record Context : Type 0 where
  pub env : List Text
  pub process_env : List Text
  pub built : Bool
  pub security_findings : ℕ
  pub github_checks : Option Bool
  pub url : Option Text
  pub response : Option ℕ

abbrev pub underscored : Text → Text
underscored [] = []
underscored (c ∷ cs) = (if c == b'-' || c == b' ' then b'_' else c) ∷ underscored cs

-- `normalize`
unfoldable pub normalize : Text → Text
normalize v = underscored (lower v)

abbrev pub is_kind : Text → (first second : Text) → Bool
is_kind kind first second = text_eq kind first || text_eq kind second

abbrev pub has_key : List Text → Text → Bool
has_key keys key = any (λ k. text_eq k key) keys

unfoldable pub missing_keys : GateConfig → Context → List Text
missing_keys gate ctx =
    keep (λ key. not (has_key ctx.env key) && not (has_key ctx.process_env key))
      (get_or gate.required_keys [])

abbrev pub pass_if : Bool → Status
pass_if b = if b then passed else failed

abbrev pub is_empty : List Text → Bool
is_empty [] = true
is_empty (x ∷ xs) = false

-- The probe of a runtime with a URL; an exception is a failure.
unfoldable pub probe : GateConfig → Context → Status
probe gate ctx = if is_blank (get_or ctx.url []) then skipped else elim ctx.response [
  | none ↦ failed
  | some status ↦ pass_if (any (λ s. s == status) (get_or gate.expected_statuses (200 ∷ [])))
]

unfoldable pub status_of : GateConfig → Context → Status
unfolding normalize missing_keys probe
status_of gate ctx =
    let kind = normalize gate.kind in
    if is_kind kind (text "env_validation") (text "environment")
    then pass_if (is_empty (missing_keys gate ctx))
    else if text_eq kind (text "build")
    then (if ctx.built then passed else skipped)
    else if is_kind kind (text "security") (text "security_scan")
    then pass_if (ctx.security_findings == 0)
    else if is_kind kind (text "github_checks") (text "github")
    then elim ctx.github_checks [ none ↦ skipped | some ok ↦ pass_if ok ]
    else if is_kind kind (text "health") (text "smoke")
    then probe gate ctx
    else if is_kind kind (text "approval") (text "human_approval")
    then failed
    else skipped

abbrev result_with : GateConfig → Status → GateResult
result_with gate status = record {
  name = gate.name;
  kind = gate.kind;
  required = gate.required;
  status = status;
}

-- `runOne`
unfoldable pub run_one : GateConfig → Context → GateResult
unfolding status_of
run_one gate ctx = result_with gate (status_of gate ctx)

-- The gates that wait until the release is there.
unfoldable pub is_deferred : GateConfig → Bool
unfolding normalize
is_deferred gate =
    let kind = normalize gate.kind in
    text_eq kind (text "build") || text_eq kind (text "health") || text_eq kind (text "smoke")

abbrev pub is_failed : Status → Bool
is_failed failed = true
is_failed _ = false

abbrev pub blocks : GateResult → Bool
blocks r = r.required && is_failed r.status

-- The results, or the names in the error that is thrown.
pub data Released : Type 0 where
  released : List GateResult → Released
  blocked : (names : List Text) → Released

abbrev pub names_of : List GateResult → List Text
names_of = map (λ (r : GateResult). r.name)

-- The end of each of the three functions.
unfoldable pub conclude : List GateResult → Released
conclude results =
    let blocking = names_of (keep blocks results) in
    if is_empty blocking then released results else blocked blocking

unfoldable pub assert_pre_release_gates : List GateConfig → Context → Released
unfolding run_one is_deferred conclude
assert_pre_release_gates gates ctx =
    conclude (map (λ gate. run_one gate ctx) (keep (λ gate. not (is_deferred gate)) gates))

-- A row of `release_gate_results` and an event of the deployment.
pub record Record : Type 0 where
  pub results : List (Text × Status)
  pub events : List (Text × Status)

-- The upsert of a result by its name.
unfoldable pub ensure_result : GateResult → List (Text × Status) → List (Text × Status)
ensure_result r [] = (r.name, r.status) ∷ []
ensure_result r (old ∷ rows) =
    let rest = ensure_result r rows in
    if text_eq old.0 r.name then (r.name, r.status) ∷ rows else old ∷ rest

abbrev kept : GateResult → Record → Record
kept r s = record {
  results = ensure_result r s.results;
  events = s.events ++ (r.name, r.status) ∷ [];
}

-- One round of the loop after the other: the results and what is kept of them.
unfoldable pub run_all :
    (GateConfig → GateResult) → List GateConfig → Record → List GateResult × Record
unfolding ensure_result
run_all run [] s = ([], s)
run_all run (gate ∷ gates) s =
    let (results, t) = run_all run gates (kept (run gate) s) in (run gate ∷ results, t)

unfoldable pub run_pre_release_gates : List GateConfig → Context → Record → Released × Record
unfolding run_all run_one is_deferred conclude
run_pre_release_gates gates ctx s =
    let (results, t) =
      run_all (λ gate. run_one gate ctx) (keep (λ gate. not (is_deferred gate)) gates) s in
    (conclude results, t)

abbrev pub post_result : Context → GateConfig → GateResult
post_result ctx gate =
    if text_eq (normalize gate.kind) (text "build")
    then result_with gate (pass_if ctx.built)
    else run_one gate ctx

unfoldable pub run_post_release_gates : List GateConfig → Context → Record → Released × Record
unfolding run_all run_one is_deferred normalize conclude
run_post_release_gates gates ctx s =
    let (results, t) = run_all (post_result ctx) (keep is_deferred gates) s in (conclude results, t)
