-- ===== src/Build/Building.antt =====
-- The build of an image from a repository (`buildFromGit` of apps/engine/src/build.ts): the
-- commands that are run and the result. What a command prints, or that it fails, is an argument,
-- and so are the cloned repository and the id that the output of the inspection has; outputs are
-- trimmed. The texts of the log, the removal of the directory, and of the result the digest and
-- the time of the image are left out.
use hostingservices.Common.{String, Option, none, some, List, [], ◌∷◌, ◌++◌, str_eq, if◌then◌else◌}
use hostingservices.Sandbox.{Environment, Argument, build_sandbox_policy, docker_build_args}
use hostingservices.Build.Detecting.{
  Checkout, Detection, Detected, found, no_service, unsupported, detect_dockerfile,
}

pub record BuildRequest : Type 0 where
  pub repo : String
  pub ref : Option String
  pub image : String
  pub service : Option String

pub data Command : Type 0 where
  clone : List String → Command
  rev_parse : String → Command
  docker_build : List Argument → Command
  inspect : String → Command

pub record Built : Type 0 where
  pub image : String
  pub image_id : String
  pub source_commit : String
  pub detection : Detection

-- The commands in their order, and the result, or that the build throws.
pub record Outcome : Type 0 where
  pub commands : List Command
  pub result : Option Built

abbrev pub threw : Outcome
threw = record { commands = []; result = none }

abbrev pub branch : Option String → List String
branch none = []
branch (some ref) = if str_eq ref "" then [] else "--branch" ∷ ref ∷ []

abbrev pub clone_command : BuildRequest → String → Command
clone_command q dir = clone ("clone" ∷ "--depth" ∷ "1" ∷ branch q.ref ++ q.repo ∷ dir ∷ [])

abbrev pub build_command : Environment → BuildRequest → Detection → Command
build_command env q d =
    docker_build
      (docker_build_args (build_sandbox_policy env) d.dockerfile_path q.image d.context_dir)

module _ (runs : Command → Option String) where
  abbrev go_on : Command → Option String → (String → Outcome) → Outcome
  go_on c none next = record { commands = c ∷ []; result = none }
  go_on c (some output) next =
      let o = next output in record { commands = c ∷ o.commands; result = o.result }

  -- A command, and what follows if it does not fail.
  abbrev pub then_run : Command → (String → Outcome) → Outcome
  then_run c next = go_on c (runs c) next

  abbrev pub with_id : BuildRequest → String → Detection → Option String → Outcome
  with_id q commit d none = threw
  with_id q commit d (some id) = if str_eq id "" then threw else record {
    commands = [];
    result =
        some (record { image = q.image; image_id = id; source_commit = commit; detection = d });
  }

  abbrev pub of_detected :
      (image_id : String → Option String) → Environment → BuildRequest → String → Detected → Outcome
  of_detected image_id env q commit (found d) =
      then_run (build_command env q d)
        λ printed. then_run (inspect q.image) λ json. with_id q commit d (image_id json)
  of_detected image_id env q commit (no_service s names) = threw
  of_detected image_id env q commit unsupported = threw

  -- `buildFromGit`; `image_id` reads the id from the output of the inspection, and is none if the
  -- output is no JSON.
  unfoldable pub build_from_git :
      (image_id : String → Option String)
      → (lower_case : String → String) → Environment
      → Checkout
      → BuildRequest
      → Outcome
  unfolding docker_build_args build_sandbox_policy detect_dockerfile
  build_from_git image_id lower_case env c q = then_run (clone_command q c.dir) λ cloned.
      then_run (rev_parse c.dir)
        λ commit. of_detected image_id env q commit (detect_dockerfile lower_case c q.service)
