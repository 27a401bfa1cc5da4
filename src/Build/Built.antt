-- ===== src/Build/Built.antt =====
-- What a build of apps/engine/src/build.ts that succeeds has run.
use hostingservices.Common.{
  String, Option, none, some, List, [], ◌∷◌, ◌≡◌, ◌≢◌, sym, ap, ◌∙◌, subst, In, str_eq, eq_iff,
  arith, Bool-cases, Option-cases, inl, inr, refl, ◌⊎◌, ◌++◌,
}
use hostingservices.Sandbox.{Environment, docker_build_args, build_sandbox_policy}
use hostingservices.Build.Detecting.{
  Checkout, Detection, Detected, found, no_service, unsupported, detect_dockerfile,
}
use hostingservices.Build.Building.{
  BuildRequest, Command, rev_parse, inspect, Built, Outcome, clone_command, build_command, clone,
  docker_build, branch, then_run, with_id, of_detected, build_from_git,
}

-- The arguments of a clone into a directory, at the branch that is asked for if there is one.
abbrev pub IsClone : BuildRequest → String → List String → Type 0
IsClone q dir args =
    (((q.ref ≡ none) ⊎ (q.ref ≡ some "")) × (args ≡ "clone" ∷ "--depth" ∷ "1" ∷ q.repo ∷ dir ∷ []))
    ⊎ ((ref : String) × (q.ref ≡ some ref)
        × (ref ≢ "")
        × (args ≡ "clone" ∷ "--depth" ∷ "1" ∷ "--branch" ∷ ref ∷ q.repo ∷ dir ∷ []))

branch-IsClone :
    (q : BuildRequest) (dir : String) (ref : Option String)
    → q.ref ≡ ref
    → IsClone q dir ("clone" ∷ "--depth" ∷ "1" ∷ branch ref ++ q.repo ∷ dir ∷ [])
branch-IsClone q dir none h = inl (inl h, refl)
branch-IsClone q dir (some ref) h = elim (Bool-cases (str_eq ref "")) [
  | inl k ↦ inl (inr (h ∙ ap some ((eq_iff ref "").0 k)), rw k refl)
  | inr k ↦ inr (ref, h, λ e. ground (arith, k, eq_iff ref ""), rw k refl)
]

module _ (runs : Command → Option String) where
  -- The commands were run in this order, and none failed.
  abbrev pub AllRan : List Command → Type 0
  AllRan cs = (c : Command) → In c cs → (output : String) × (runs c ≡ some output)

  -- The id is what the inspection of the image gave.
  abbrev pub IsInspected : (String → Option String) → String → String → Type 0
  IsInspected image_id image id =
      (json : String) × (runs (inspect image) ≡ some json) × (image_id json ≡ some id) × (id ≢ "")

  -- A step that ends in a result ran its command, and what follows it ended in the result.
  then_run-ok :
      (c : Command) (next : String → Outcome) {b : Built}
      → (then_run runs c next).result ≡ some b
      → (output : String) × (runs c ≡ some output)
        × ((next output).result ≡ some b)
        × ((then_run runs c next).commands ≡ c ∷ (next output).commands)
  then_run-ok c next {b} h = elim (Option-cases (runs c)) [
    | inl k ↦ ground (arith, k)
    | inr (output, k) ↦ (output, k, ground (arith, k), ground (arith, k))
  ]

  with_id-ok :
      (q : BuildRequest) (commit : String) (d : Detection) (id : Option String) {b : Built}
      → (with_id runs q commit d id).result ≡ some b
      → ((with_id runs q commit d id).commands ≡ [])
        × (b.detection ≡ d)
        × (b.source_commit ≡ commit)
        × (b.image ≡ q.image)
        × (id ≡ some b.image_id)
        × (b.image_id ≢ "")
  with_id-ok q commit d none h = cc
  with_id-ok q commit d (some id) {b} h = elim (Bool-cases (str_eq id "")) [
    | inl k ↦ ground (arith, k)
    | inr k ↦ (
      ground (arith, k),
      ground (arith, k),
      ground (arith, k),
      ground (arith, k),
      ground (arith, k),
      λ e. ground (arith, k, eq_iff id ""),
    )
  ]

  of_detected-ok :
      (image_id : String → Option String) (env : Environment) (q : BuildRequest) (commit : String)
      (x : Detected) {b : Built}
      → (of_detected runs image_id env q commit x).result ≡ some b
      → (x ≡ found b.detection)
        × ((of_detected runs image_id env q commit x).commands
            ≡ build_command env q b.detection ∷ inspect q.image ∷ [])
        × ((c : Command)
            → In c (build_command env q b.detection ∷ inspect q.image ∷ [])
            → (output : String) × (runs c ≡ some output))
        × (b.source_commit ≡ commit)
        × (b.image ≡ q.image)
        × IsInspected image_id q.image b.image_id
  of_detected-ok image_id env q commit (no_service s names) h = cc
  of_detected-ok image_id env q commit unsupported h = cc
  of_detected-ok image_id env q commit (found d) {b} h =
      let (printed, ran, h1, cs) = then_run-ok (build_command env q d) _ h in
      let (json, ran1, h2, cs1) = then_run-ok (inspect q.image) _ h1 in
      let (none_left, same, from, named, read, id) = with_id-ok q commit d (image_id json) h2 in
      (
        ap found (sym same),
        cs
            ∙ ap (λ l. build_command env q d ∷ l) (cs1 ∙ ap (λ l. inspect q.image ∷ l) none_left)
            ∙ ap (λ e. build_command env q e ∷ inspect q.image ∷ []) (sym same),
        λ c i. elim i [
          | inl k ↦ (printed, ap runs (sym k ∙ ap (build_command env q) same) ∙ ran)
          | inr (inl k) ↦ (json, ap runs (sym k) ∙ ran1)
          | inr (inr j) ↦ absurd j
        ],
        from,
        named,
        (json, ran1, read, id),
      )

  -- A build that succeeds has cloned the repository into its directory, at the branch that is
  -- asked for if it is not empty, read its commit, built in the detected directory the Dockerfile
  -- that was detected with the arguments of the sandbox, and inspected the image, in this order
  -- and without a failure; its result names the image that was asked for, the commit that was
  -- read, the detection, and the id that the inspection gave, which is not empty.
  pub build_from_git-ok :
      (image_id : String → Option String) (lower_case : String → String) (env : Environment)
      (c : Checkout) (q : BuildRequest) (b : Built)
      → (build_from_git runs image_id lower_case env c q).result ≡ some b
      → (args : List String) × IsClone q c.dir args
        × (detect_dockerfile lower_case c q.service ≡ found b.detection)
        × ((build_from_git runs image_id lower_case env c q).commands
            ≡ clone args
              ∷ rev_parse c.dir
              ∷ docker_build (
                  docker_build_args
                    (build_sandbox_policy env)
                    b.detection.dockerfile_path
                    q.image
                    b.detection.context_dir)
              ∷ inspect q.image
              ∷ [])
        × AllRan (build_from_git runs image_id lower_case env c q).commands
        × (runs (rev_parse c.dir) ≡ some b.source_commit)
        × (b.image ≡ q.image)
        × IsInspected image_id q.image b.image_id
  unfolding build_from_git
  build_from_git-ok image_id lower_case env c q b h =
      let (cloned, ran, h1, cs) = then_run-ok (clone_command q c.dir) _ h in
      let (commit, ran1, h2, cs1) = then_run-ok (rev_parse c.dir) _ h1 in
      let (detected, cs2, rest, from, named, id) =
        of_detected-ok image_id env q commit (detect_dockerfile lower_case c q.service) h2 in
      let all = cs ∙ ap (◌∷◌ (clone_command q c.dir)) (cs1 ∙ ap (◌∷◌ (rev_parse c.dir)) cs2) in
      (
        _,
        branch-IsClone q c.dir q.ref refl,
        detected,
        all,
        subst AllRan (sym all) λ x i. elim i [
          | inl k ↦ (cloned, ap runs (sym k) ∙ ran)
          | inr (inl k) ↦ (commit, ap runs (sym k) ∙ ran1)
          | inr (inr j) ↦ rest x j
        ],
        ran1 ∙ ap some (sym from),
        named,
        id,
      )
