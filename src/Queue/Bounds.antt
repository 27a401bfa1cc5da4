-- ===== src/Queue/Bounds.antt =====
-- The counter of the queue (apps/engine/src/queue.ts) is right, it respects the concurrency, and
-- no room is left while jobs wait.
use hostingservices.Common.{
  ℕ, ◌+◌, ◌-◌, ◌≤◌, ◌≡◌, ◌≢◌, refl, ap, none, some, List, [], ◌∷◌, ◌++◌, arith, length,
  length-append,
}
use hostingservices.Queue.{
  DeploymentQueue, World, submitting, finishing, Reach, here, next, begin, submit, finish, enqueue,
  settle, drain, drain_loop,
}

-- What the loop does: it counts the jobs that it starts, stays within the concurrency, and leaves
-- no job waiting beside free room.
pub record Drained (running c : ℕ) (jobs : List ℕ) (r : List ℕ × DeploymentQueue) : Type 0 where
  pub counted : r.1.running ≡ running + length r.0
  pub bounded : r.1.running ≤ c
  pub busy : r.1.pending ≢ [] → r.1.running ≡ c
  pub kept : r.1.concurrency ≡ some c

drain_loop-Drained :
    (running c : ℕ) (jobs : List ℕ)
    → running ≤ c
    → Drained running c jobs (drain_loop running (some c) jobs)
unfolding drain_loop
drain_loop-Drained running c [] h = ground arith
drain_loop-Drained running c (job ∷ jobs) h =
    ground (arith, drain_loop-Drained (running + 1) c jobs)

-- The counter is the number of jobs that run, at most the concurrency, and equal to it while jobs
-- wait.
pub record IsBusy (c : ℕ) (w : World) : Type 0 where
  pub counted : w.queue.running ≡ length w.active
  pub bounded : w.queue.running ≤ c
  pub busy : w.queue.pending ≢ [] → w.queue.running ≡ c
  pub kept : w.queue.concurrency ≡ some c

-- The jobs that `drain` starts join those that run.
started-IsBusy :
    (running c : ℕ) (jobs active : List ℕ) (w : World) (r : List ℕ × DeploymentQueue)
    → Drained running c jobs r
    → running ≡ length active
    → w.queue ≡ r.1
    → w.active ≡ active ++ r.0
    → IsBusy c w
started-IsBusy running c jobs active w r d n q a = record {
  counted = omega (
    arith,
    ap (λ (x : DeploymentQueue). x.running) q,
    d,
    ap (length {0}) a,
    length-append active r.0,
  );
  bounded = rw q d.bounded;
  busy = rw q d.busy;
  kept = rw q d.kept;
}

submit-IsBusy : (c job : ℕ) (w : World) → IsBusy c w → IsBusy c (submit job w)
unfolding submit enqueue drain
submit-IsBusy c job w b =
    let jobs = w.queue.pending ++ job ∷ [] in
    started-IsBusy w.queue.running c jobs w.active _
      (drain_loop w.queue.running w.queue.concurrency jobs)
      (rw b.kept (drain_loop-Drained w.queue.running c jobs b.bounded)) b.counted refl refl

finish-IsBusy :
    (c job : ℕ) (before rest : List ℕ) (w : World)
    → w.active ≡ before ++ job ∷ rest
    → IsBusy c w
    → IsBusy c (finish before rest w)
unfolding finish settle drain
finish-IsBusy c job before rest w e b =
    let k = w.queue.running - 1 in
    let fewer : k ≡ length (before ++ rest) =
      omega (
        arith,
        b,
        ap (length {0}) e,
        length-append before (job ∷ rest),
        length-append before rest,
      ) in
    started-IsBusy k c w.queue.pending (before ++ rest) _
      (drain_loop k w.queue.concurrency w.queue.pending)
      (rw b.kept (drain_loop-Drained k c w.queue.pending (omega (arith, b)))) fewer refl refl

-- With a concurrency of at least 1, however submissions and settlements follow one another, the
-- counter is the number of jobs that run, it stays within the concurrency, and while a job waits
-- no room is free.
pub Reach-IsBusy : (c : ℕ) (w : World) → 1 ≤ c → Reach (begin (some c)) w → IsBusy c w
unfolding begin
Reach-IsBusy c w p here = ground arith
Reach-IsBusy c w p (next r (submitting t job)) = submit-IsBusy c job t (Reach-IsBusy c t p r)
Reach-IsBusy c w p (next r (finishing t before job rest e)) =
    finish-IsBusy c job before rest t e (Reach-IsBusy c t p r)

drain_loop-nan :
    (running : ℕ) (jobs : List ℕ)
    → drain_loop running none jobs
      ≡ ([], record { running = running; pending = jobs; concurrency = none })
unfolding drain_loop
drain_loop-nan running [] = refl
drain_loop-nan running (job ∷ jobs) = refl

-- With a concurrency that is not a number no job is ever started: every job submitted waits.
pub nan_starts_nothing :
    (w : World)
    → Reach (begin none) w
    → (w.started ≡ []) × (w.queue.pending ≡ w.submitted) × (w.queue.concurrency ≡ none)
unfolding begin submit enqueue finish settle drain
nan_starts_nothing w here = ground arith
nan_starts_nothing w (next r (submitting t job)) =
    ground
      (arith, nan_starts_nothing t r, drain_loop-nan t.queue.running (t.queue.pending ++ job ∷ []))
nan_starts_nothing w (next r (finishing t before job rest e)) =
    ground (arith, nan_starts_nothing t r, drain_loop-nan (t.queue.running - 1) t.queue.pending)
