-- ===== src/EngineApi/Validation.antt =====
-- What a request of apps/engine/src/index.ts that is queued has been checked for.
use Prim.Native.String.{len}
use hostingservices.Common.{
  ℕ, ◌≤◌, String, Bool, true, false, Option, none, some, List, [], ◌∷◌, ◌≡◌, ◌≢◌, refl, arith, any,
  length, get_or, eq_iff, if◌then◌else◌, All, ltb,
}
use hostingservices.EngineApi.{
  Number, whole, not_whole, Autoscale, DeployBody, is_bad_number, is_outside, given_and, bad_steps,
  ends_at, ends_early, bad_autoscale, bad_texts, check, validate, exceeds,
}

-- The number is whole, and between the bounds.
abbrev pub IsBetween : ℕ → ℕ → Number → Type 0
IsBetween low high (whole n) = (low ≤ n) × (n ≤ high)
IsBetween low high not_whole = ⊥

abbrev pub IfGiven : {A : Type 0} → (A → Type 0) → Option A → Type 0
IfGiven P none = Unit
IfGiven P (some a) = P a

-- The autoscaler stays between `min` and `max` replicas, both from 1 to 20.
pub record IsScale (a : Autoscale) : Type 0 where
  pub min : IsBetween 1 20 a.min
  pub max : IsBetween 1 20 a.max
  pub order : exceeds a.min a.max ≡ false
  pub cpu_percent : (1 ≤ a.cpu_percent) × (a.cpu_percent ≤ 100)
  pub interval : IfGiven (λ s. (10 ≤ s) × (s ≤ 300)) a.interval_seconds

pub record IsValid (rollback : Bool) (b : DeployBody) : Type 0 where
  pub name : get_or b.name "" ≢ ""
  pub image : get_or (if rollback then b.previous_image else b.image) "" ≢ ""
  pub replicas : IfGiven (IsBetween 1 20) b.replicas
  pub steps : IfGiven (λ steps. (length steps ≤ 10) × All (IsBetween 1 100) steps) b.canary_steps
  pub last_step :
      get_or b.strategy "" ≡ "canary" → IfGiven (λ steps. ends_at 100 steps ≡ true) b.canary_steps
  pub cpu : IfGiven (λ n. (10000000 ≤ n) × (n ≤ 64000000000)) b.cpu_nano_cpus
  pub memory : IfGiven (λ n. (16777216 ≤ n) × (n ≤ 274877906944)) b.memory_bytes
  pub pids : IfGiven (IsBetween 32 100000) b.pids_limit
  pub volumes : IfGiven (λ vs. (length vs ≤ 16) × All (λ v. len v ≤ 1000) vs) b.volume_binds
  pub scale : IfGiven IsScale b.autoscale
  pub command : IfGiven (λ vs. (length vs ≤ 32) × All (λ v. len v ≤ 2000) vs) b.command

check-none :
    (bad : Bool) (e : String) (rest : Option String)
    → check bad e rest ≡ none
    → (bad ≡ false) × (rest ≡ none)
check-none true e rest h = cc
check-none false e rest h = (refl, h)

between : (low high : ℕ) (n : Number) → is_bad_number low high n ≡ false → IsBetween low high n
between low high (whole n) h = ground arith
between low high not_whole h = cc

given_and-false :
    {A : Type 0} {P : A → Type 0} (test : A → Bool)
    → ((a : A) → test a ≡ false → P a)
    → (o : Option A) → given_and o test ≡ false
    → IfGiven P o
given_and-false test f none h = tt
given_and-false test f (some a) h = f a h

inside : (low high n : ℕ) → is_outside low high n ≡ false → (low ≤ n) × (n ≤ high)
inside low high n h = ground arith

any-false :
    {A : Type 0} {P : A → Type 0} (test : A → Bool)
    → ((a : A) → test a ≡ false → P a)
    → (xs : List A) → any test xs ≡ false
    → All P xs
any-false test f [] h = tt
any-false test f (x ∷ xs) h = (f x (ground arith), any-false test f xs (ground arith))

texts :
    (count size : ℕ) (o : Option (List String))
    → bad_texts count size o ≡ false
    → IfGiven (λ vs. (length vs ≤ count) × All (λ v. len v ≤ size) vs) o
texts count size none h = tt
texts count size (some vs) h =
    (ground arith, any-false (λ v. ltb size (len v)) (λ v e. ground arith) vs (ground arith))

scale : (a : Autoscale) → bad_autoscale (some a) ≡ false → IsScale a
scale a h = record {
  min = between 1 20 a.min (ground arith);
  max = between 1 20 a.max (ground arith);
  order = ground arith;
  cpu_percent = inside 1 100 a.cpu_percent (ground arith);
  interval = given_and-false (is_outside 10 300) (inside 10 300) a.interval_seconds (ground arith);
}

steps :
    (o : Option (List Number))
    → bad_steps o ≡ false
    → IfGiven (λ steps. (length steps ≤ 10) × All (IsBetween 1 100) steps) o
steps none h = tt
steps (some s) h = (ground arith, any-false (is_bad_number 1 100) (between 1 100) s (ground arith))

last_step :
    (strategy : Option String) (o : Option (List Number))
    → ends_early strategy o ≡ false
    → get_or strategy "" ≡ "canary"
    → IfGiven (λ steps. ends_at 100 steps ≡ true) o
last_step strategy none h e = tt
last_step strategy (some s) h e = ground (arith, eq_iff (get_or strategy "") "canary")

-- A body that passes the checks names a runtime and an image, and keeps every bound of the engine:
-- on replicas, canary steps, which end at 100, processors, memory, processes, volumes, the
-- autoscaler and the command.
pub validate-IsValid :
    (rollback : Bool) (b : DeployBody) → validate rollback b ≡ none → IsValid rollback b
unfolding validate
validate-IsValid rollback b h =
    let (a1, h1) = check-none _ _ _ h in
    let (a2, h2) = check-none _ _ _ h1 in
    let (a3, h3) = check-none _ _ _ h2 in
    let (a4, h4) = check-none _ _ _ h3 in
    let (a5, h5) = check-none _ _ _ h4 in
    let (a6, h6) = check-none _ _ _ h5 in
    let (a7, h7) = check-none _ _ _ h6 in
    let (a8, h8) = check-none _ _ _ h7 in
    let (a9, h9) = check-none _ _ _ h8 in
    let (a10, h10) = check-none _ _ _ h9 in
    let (a11, h11) = check-none _ _ _ h10 in
    let image = if rollback then b.previous_image else b.image in
    record {
      name = λ e. ground (arith, eq_iff (get_or b.name "") "");
      image = λ e. ground (arith, eq_iff (get_or image "") "");
      replicas = given_and-false (is_bad_number 1 20) (between 1 20) b.replicas a2;
      steps = steps b.canary_steps a4;
      last_step = last_step b.strategy b.canary_steps a5;
      cpu =
          given_and-false (is_outside 10000000 64000000000) (inside 10000000 64000000000)
            b.cpu_nano_cpus a6;
      memory =
          given_and-false (is_outside 16777216 274877906944) (inside 16777216 274877906944)
            b.memory_bytes a7;
      pids = given_and-false (is_bad_number 32 100000) (between 32 100000) b.pids_limit a8;
      volumes = texts 16 1000 b.volume_binds a9;
      scale = given_and-false _ scale b.autoscale a10;
      command = texts 32 2000 b.command a11;
    }
