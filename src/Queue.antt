-- ===== src/Queue.antt =====
-- The in-memory deployment queue of the engine (apps/engine/src/queue.ts). A job is known by its
-- number. The jobs that run are listed beside the queue's own counter, since they settle when the
-- environment lets them; a job is an async function, so it does not throw before it runs.
pub mod Order
pub mod Bounds
mod Tests
use hostingservices.Common.{
  ℕ, zero, suc, ◌+◌, ◌-◌, Bool, true, false, Option, none, some, List, [], ◌∷◌, ◌++◌, ltb, max, ◌≡◌,
  length, if◌then◌else◌,
}

-- `concurrency` is `none` where `Number` gave NaN.
pub record DeploymentQueue : Type 0 where
  pub running : ℕ
  pub pending : List ℕ
  pub concurrency : Option ℕ

-- `Math.max(1, concurrency)`, with NaN for NaN; fractions are left out.
unfoldable pub new : Option ℕ → DeploymentQueue
new none = record { running = 0; pending = []; concurrency = none }
new (some c) = record { running = 0; pending = []; concurrency = some (max 1 c) }

-- `running < concurrency`, false at NaN.
abbrev pub has_room : ℕ → Option ℕ → Bool
has_room running none = false
has_room running (some c) = ltb running c

-- The loop of `drain`: the jobs started, in their order, and what is left.
unfoldable pub drain_loop : ℕ → Option ℕ → List ℕ → List ℕ × DeploymentQueue
drain_loop running c [] = ([], record { running = running; pending = []; concurrency = c })
drain_loop running c (job ∷ jobs) =
    let rest = drain_loop (running + 1) c jobs in
    if has_room running c
    then (job ∷ rest.0, rest.1)
    else ([], record { running = running; pending = job ∷ jobs; concurrency = c })

unfoldable pub drain : DeploymentQueue → List ℕ × DeploymentQueue
unfolding drain_loop
drain q = drain_loop q.running q.concurrency q.pending

unfoldable pub enqueue : ℕ → DeploymentQueue → List ℕ × DeploymentQueue
unfolding drain
enqueue job q = drain (record q { pending = q.pending ++ job ∷ [] })

-- The `finally` of a job that has settled.
unfoldable pub settle : DeploymentQueue → List ℕ × DeploymentQueue
unfolding drain
settle q = drain (record q { running = q.running - 1 })

pub record Stats : Type 0 where
  pub queued : ℕ
  pub running : ℕ
  pub concurrency : Option ℕ

unfoldable pub stats : DeploymentQueue → Stats
stats q = record { queued = length q.pending; running = q.running; concurrency = q.concurrency }

-- The queue, the jobs that run, and what has been submitted and started so far.
pub record World : Type 0 where
  pub queue : DeploymentQueue
  pub active : List ℕ
  pub submitted : List ℕ
  pub started : List ℕ

unfoldable pub begin : Option ℕ → World
unfolding new
begin c = record { queue = new c; active = []; submitted = []; started = [] }

unfoldable pub submit : ℕ → World → World
submit job w =
    let (jobs, q) = enqueue job w.queue in
    record {
      queue = q;
      active = w.active ++ jobs;
      submitted = w.submitted ++ job ∷ [];
      started = w.started ++ jobs;
    }

-- The job at the head of `rest` settles, the others of `before` and `rest` go on.
unfoldable pub finish : List ℕ → List ℕ → World → World
finish before rest w =
    let (jobs, q) = settle w.queue in
    record w { queue = q; active = (before ++ rest) ++ jobs; started = w.started ++ jobs }

-- A job is submitted, or any one of the jobs that run settles.
pub data Step : World → World → Type 0 where
  submitting : (w : World) (job : ℕ) → Step w (submit job w)
  finishing :
      (w : World) (before : List ℕ) (job : ℕ) (rest : List ℕ)
      → w.active ≡ before ++ job ∷ rest
      → Step w (finish before rest w)

pub data Reach (s : World) : World → Type 0 where
  here : Reach s s
  next : {t u : World} → Reach s t → Step t u → Reach s u
