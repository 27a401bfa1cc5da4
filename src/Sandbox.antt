-- ===== src/Sandbox.antt =====
-- The limits of an image build and the arguments of `docker build`
-- (apps/engine/src/sandbox.ts). A number that `Number` reads from the environment is not a number,
-- infinite, negative, or a count of thousandths.
pub mod Limits
mod Tests
use hostingservices.Common.{
  ℕ, ◌+◌, ◌*◌, ◌/◌, String, Bool, true, false, Option, none, some, List, [], ◌∷◌, ◌&&◌, leb, get_or,
  str_eq, if◌then◌else◌,
}

pub data Number : Type 0 where
  nan infinite : Number
  negative : ℕ → Number
  thousandths : ℕ → Number

-- The settings of the environment; the numbers as `Number` reads them.
pub record Environment : Type 0 where
  pub production : Bool
  pub build_network : Option String
  pub build_memory : Option String
  pub build_cpus : Option Number
  pub build_pids : Option Number
  pub build_timeout_ms : Option Number

pub record BuildSandboxPolicy : Type 0 where
  pub network : String
  pub memory : String
  pub cpus : ℕ
  pub pids : ℕ
  pub timeout_ms : ℕ
  pub no_new_privileges : Bool
  pub cap_drop_all : Bool

-- The fallback and the bounds are in thousandths, and positive.
unfoldable pub positive_number : Option Number → ℕ → ℕ → ℕ → ℕ
positive_number value fallback lo hi = elim (get_or value (thousandths fallback)) [
  | thousandths n ↦ if leb lo n && leb n hi then n else fallback
  | _ ↦ fallback
]

-- `Math.floor`, of thousandths.
abbrev pub floor : ℕ → ℕ
floor n = n / 1000 * 1000

-- `cpus`, `pids` and `timeoutMs` are in thousandths.
unfoldable pub build_sandbox_policy : Environment → BuildSandboxPolicy
build_sandbox_policy env =
    let configured_network =
      get_or env.build_network (if env.production then "bridge" else "bridge") in
    record {
      network = if str_eq configured_network "host" then "bridge" else configured_network;
      memory = get_or env.build_memory "2g";
      cpus = positive_number env.build_cpus 2_000 250 32_000;
      pids = floor (positive_number env.build_pids 512_000 64_000 4_096_000);
      timeout_ms =
          floor (positive_number env.build_timeout_ms 900_000_000 30_000_000 3_600_000_000);
      no_new_privileges = true;
      cap_drop_all = true;
    }

-- An argument of the command line: a text, or a number that the template prints.
pub data Argument : Type 0 where
  word : String → Argument
  number : ℕ → Argument

unfoldable pub docker_build_args : BuildSandboxPolicy → String → String → String → List Argument
docker_build_args policy dockerfile tag context =
    word "build"
    ∷ word "--pull"
    ∷ word "--network"
    ∷ word policy.network
    ∷ word "--memory"
    ∷ word policy.memory
    ∷ word "--cpus"
    ∷ number policy.cpus
    ∷ word "--pids-limit"
    ∷ number policy.pids
    ∷ word "--security-opt"
    ∷ word "no-new-privileges"
    ∷ word "--cap-drop"
    ∷ word "ALL"
    ∷ word "-f"
    ∷ word dockerfile
    ∷ word "-t"
    ∷ word tag
    ∷ word context
    ∷ []
