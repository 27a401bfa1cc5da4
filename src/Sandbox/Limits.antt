-- ===== src/Sandbox/Limits.antt =====
-- Whatever the environment holds, the build of apps/engine/src/sandbox.ts is confined.
use text.Mathlib.Text.{starts_with}
use hostingservices.Common.{
  Bool, false, ℕ, ◌≤◌, ◌≢◌, String, Option, none, some, List, [], ◌∷◌, arith, eq_iff, str_eq,
  get_or, if◌then◌else◌, Bool-cases, inl, inr,
}
use hostingservices.Sandbox.{
  Number, thousandths, Environment, positive_number, build_sandbox_policy, Argument, word, number,
}

-- The result lies within the bounds if the fallback does.
positive_number_bounds :
    (value : Option Number) (fallback lo hi : ℕ)
    → lo ≤ fallback
    → fallback ≤ hi
    → let n = positive_number value fallback lo hi in (lo ≤ n) × (n ≤ hi)
unfolding positive_number
positive_number_bounds none fallback lo hi h k = ground arith
positive_number_bounds (some (thousandths n)) fallback lo hi h k = ground arith
positive_number_bounds (some _) fallback lo hi h k = (h, k)

-- An argument that starts with a hyphen.
abbrev pub is_option : Argument → Bool
is_option (word w) = starts_with w "-"
is_option (number n) = false

abbrev Read : Type 0
Read = Option (List (Argument × Argument) × List Argument)

abbrev with_option : Argument × Argument → Read → Read
with_option o none = none
with_option o (some (options, operands)) = some (o ∷ options, operands)

abbrev with_operand : Argument → Read → Read
with_operand a none = none
with_operand a (some (options, operands)) = some (options, a ∷ operands)

abbrev pub is_pull : Argument → Bool
is_pull (word w) = str_eq w "--pull"
is_pull (number n) = false

-- What `docker build` reads from its arguments: an option that is no flag takes the
-- argument after it as its value, `--pull` is a flag, and what is left are the operands. The first
-- list holds the options with their values, the second the operands; an option without a value is
-- no command line.
abbrev pub read_args : List Argument → Read
read_args [] = some ([], [])
read_args (a ∷ []) = if is_option a then none else some ([], a ∷ [])
read_args (a ∷ b ∷ rest) =
    let after = read_args rest in
    let after_one = read_args (b ∷ rest) in
    if is_pull a
    then after_one
    else if is_option a
    then with_option (a, b) after
    else with_operand a after_one

-- An option with a value that keeps the build confined, for this Dockerfile and this tag.
pub data IsLimit (dockerfile tag : String) : Argument × Argument → Type 0 where
  network : (n : String) → n ≢ "host" → IsLimit dockerfile tag (word "--network", word n)
  memory : (m : String) → IsLimit dockerfile tag (word "--memory", word m)
  cpus : (n : ℕ) → 250 ≤ n → n ≤ 32_000 → IsLimit dockerfile tag (word "--cpus", number n)
  pids :
      (n : ℕ) → 64_000 ≤ n → n ≤ 4_096_000 → IsLimit dockerfile tag (word "--pids-limit", number n)
  privileges : IsLimit dockerfile tag (word "--security-opt", word "no-new-privileges")
  capabilities : IsLimit dockerfile tag (word "--cap-drop", word "ALL")
  file : IsLimit dockerfile tag (word "-f", word dockerfile)
  named : IsLimit dockerfile tag (word "-t", word tag)

not-host : (n : String) → (if str_eq n "host" then "bridge" else n) ≢ "host"
not-host n h = elim (Bool-cases (str_eq n "host")) [
  | inl e ↦ cc ((eq_iff "bridge" "host").1 (rw e at h))
  | inr e ↦ cc ((eq_iff n "host").1 (rw e at h))
]

-- For every environment the policy of the build is not the host's network, has between a quarter
-- of a processor and 32, between 64 and 4096 processes and between half a minute and an hour.
pub build_sandbox_policy_bounds :
    (env : Environment)
    → let p = build_sandbox_policy env in
      (p.network ≢ "host")
      × (250 ≤ p.cpus)
      × (p.cpus ≤ 32_000)
      × (64_000 ≤ p.pids)
      × (p.pids ≤ 4_096_000)
      × (30_000_000 ≤ p.timeout_ms)
      × (p.timeout_ms ≤ 3_600_000_000)
unfolding build_sandbox_policy
build_sandbox_policy_bounds env =
    let c = positive_number_bounds env.build_cpus 2_000 250 32_000 (omega arith) (omega arith) in
    let p =
      positive_number_bounds env.build_pids 512_000 64_000 4_096_000 (omega arith) (omega arith) in
    let t =
      positive_number_bounds env.build_timeout_ms 900_000_000 30_000_000 3_600_000_000 (omega arith)
        (omega arith) in
    (
      not-host (get_or env.build_network (if env.production then "bridge" else "bridge")),
      c.0,
      c.1,
      omega arith,
      omega arith,
      omega arith,
      omega arith,
    )

-- The names of the options.
abbrev pub names : List String
names =
    "--network" ∷ "--memory" ∷ "--cpus" ∷ "--pids-limit" ∷ "--security-opt" ∷ "--cap-drop" ∷ "-f"
    ∷ "-t" ∷ []

abbrev option : String → Argument → Argument × Argument
option name value = (word name, value)
