-- ===== src/Queue/Order.antt =====
-- The queue (apps/engine/src/queue.ts) starts jobs in the order in which they were submitted,
-- loses none, and a job that settles makes room for the next.
use hostingservices.Common.{
  ℕ, ◌+◌, ◌-◌, ◌≤◌, ◌≡◌, refl, sym, ap, ◌∙◌, Option, none, some, List, [], ◌∷◌, ◌++◌, arith, length,
  Bool-cases, inl, inr, append_assoc,
}
use hostingservices.Queue.{
  drain_loop, World, submitting, finishing, Reach, here, next, begin, submit, finish, enqueue,
  settle, drain, has_room,
}
use hostingservices.Queue.Bounds.{Reach-IsBusy}

drain_loop-split :
    (running : ℕ) (c : Option ℕ) (jobs : List ℕ)
    → let d = drain_loop running c jobs in d.0 ++ d.1.pending ≡ jobs
unfolding drain_loop
drain_loop-split running c [] = refl
drain_loop-split running c (job ∷ jobs) = elim (Bool-cases (has_room running c)) [
  | inl e ↦ rw e (ap (λ (l : List ℕ). job ∷ l) (drain_loop-split (running + 1) c jobs))
  | inr e ↦ rw e refl
]

-- What has been started, followed by what waits, is what was submitted, in its order.
pub started_in_order :
    (c : Option ℕ) (w : World) → Reach (begin c) w → w.started ++ w.queue.pending ≡ w.submitted
unfolding begin submit enqueue finish settle drain
started_in_order none w here = refl
started_in_order (some c) w here = refl
started_in_order c w (next r (submitting t job)) =
    let jobs = t.queue.pending ++ job ∷ [] in
    let d = drain_loop t.queue.running t.queue.concurrency jobs in
    append_assoc t.started d.0 d.1.pending
    ∙ ap (◌++◌ t.started) (drain_loop-split t.queue.running t.queue.concurrency jobs)
    ∙ sym (append_assoc t.started t.queue.pending (job ∷ []))
    ∙ ap (λ (l : List ℕ). l ++ job ∷ []) (started_in_order c t r)
started_in_order c w (next r (finishing t before job rest e)) =
    let k = t.queue.running - 1 in
    let d = drain_loop k t.queue.concurrency t.queue.pending in
    append_assoc t.started d.0 d.1.pending
    ∙ ap (◌++◌ t.started) (drain_loop-split k t.queue.concurrency t.queue.pending)
    ∙ started_in_order c t r

drain_loop-full :
    (c : ℕ) (jobs : List ℕ)
    → drain_loop c (some c) jobs
      ≡ ([], record { running = c; pending = jobs; concurrency = some c })
unfolding drain_loop
drain_loop-full c [] = refl
drain_loop-full c (job ∷ jobs) = ground arith

drain_loop-one :
    (running c job : ℕ) (jobs : List ℕ)
    → running + 1 ≡ c
    → drain_loop running (some c) (job ∷ jobs)
      ≡ (job ∷ [], record { running = c; pending = jobs; concurrency = some c })
unfolding drain_loop
drain_loop-one running c job jobs e =
    ground (arith, drain_loop-full c jobs, ap (λ (n : ℕ). drain_loop n (some c) jobs) e)

-- With a concurrency of at least 1, while a job waits, some job runs, and whichever of those
-- settles, exactly the first of the jobs that wait is started in its place.
pub finish-starts_next :
    (c : ℕ) (w : World) (before rest waiting : List ℕ) (job : ℕ)
    → 1 ≤ c
    → Reach (begin (some c)) w
    → w.queue.pending ≡ job ∷ waiting
    → let after = finish before rest w in
      (1 ≤ length w.active)
      × (after.started ≡ w.started ++ job ∷ [])
      × (after.queue.pending ≡ waiting)
      × (after.queue.running ≡ w.queue.running)
unfolding finish settle drain
finish-starts_next c w before rest waiting job p r e =
    let b = Reach-IsBusy c w p r in
    let full : w.queue.running ≡ c = b.busy (λ n. cc) in
    let d : drain_loop (w.queue.running - 1) w.queue.concurrency w.queue.pending
        ≡ (job ∷ [], record { running = c; pending = waiting; concurrency = some c }) =
      rw (b.kept, e) (drain_loop-one (w.queue.running - 1) c job waiting (omega arith)) in
    (omega (arith, b), rw d, rw d, rw (d, full))
