-- ===== src/Gates/Tests.antt =====
-- Gates of a project before a release.
use hostingservices.Common.{◌≡◌, ◌↔◌, refl, Bool, true, false, none, some, List, [], ◌∷◌, All}
use hostingservices.Common.Texts.{Text, text, text_eq}
use hostingservices.Gates.{
  GateConfig, GateResult, Context, released, blocked, assert_pre_release_gates,
  run_pre_release_gates,
}
use hostingservices.Gates.Blocking.{
  Lets, assert_pre_release_gates-released, run_pre_release_gates-assert,
}

abbrev gate : Text → Bool → GateConfig
gate kind required = record {
  id = text "g";
  name = kind;
  kind = kind;
  required = required;
  required_keys = some (text "PORT" ∷ []);
  expected_statuses = none;
}

abbrev context : Context
context = record {
  env = text "PORT" ∷ [];
  process_env = [];
  built = false;
  security_findings = 2;
  github_checks = none;
  url = none;
  response = none;
}

abbrev gates : List GateConfig
gates =
    gate (text "Env-Validation") true
    ∷ gate (text "security scan") false
    ∷ gate (text "smoke") true
    ∷ []

assert_pre_release_gates-released_example :
    ((rs : List GateResult) × (assert_pre_release_gates gates context ≡ released rs))
    ↔ All (Lets context) gates
assert_pre_release_gates-released_example = assert_pre_release_gates-released gates context

run_pre_release_gates-assert_case :
    (run_pre_release_gates gates context (record { results = []; events = [] })).0
    ≡ assert_pre_release_gates gates context
run_pre_release_gates-assert_case =
    run_pre_release_gates-assert gates context (record { results = []; events = [] })

-- An approval that is required blocks, whatever else is known.
required_approval :
    assert_pre_release_gates (gate (text "approval") true ∷ []) context
    ≡ blocked (text "approval" ∷ [])
unfolding assert_pre_release_gates text_eq
required_approval = refl
