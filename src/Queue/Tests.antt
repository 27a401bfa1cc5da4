-- ===== src/Queue/Tests.antt =====
-- Runs of the queue of apps/engine/src/queue.ts, and its theorems at concrete inputs.
use hostingservices.Common.{ℕ, ◌≤◌, Option, none, some, [], ◌∷◌, ◌++◌, ◌≡◌, refl, arith, length}
use hostingservices.Queue.{
  World, Reach, here, next, submitting, begin, submit, finish, enqueue, stats,
}
use hostingservices.Queue.Bounds.{IsBusy, Reach-IsBusy, nan_starts_nothing}
use hostingservices.Queue.Order.{started_in_order, finish-starts_next}

-- Three jobs on a queue that runs two.
abbrev three : Option ℕ → World
three c = submit 7 (submit 6 (submit 5 (begin c)))

abbrev three_reached : (c : Option ℕ) → Reach (begin c) (three c)
three_reached c = next (next (next here (submitting _ 5)) (submitting _ 6)) (submitting _ 7)

three_run : ((three (some 2)).active ≡ 5 ∷ 6 ∷ []) × ((stats (three (some 2)).queue).queued ≡ 1)
unfolding submit enqueue begin stats
three_run = (refl, refl)

Reach-IsBusy_example : IsBusy 2 (three (some 2))
Reach-IsBusy_example = Reach-IsBusy 2 (three (some 2)) (omega arith) (three_reached (some 2))

nan_starts_nothing_case :
    ((three none).started ≡ [])
    × ((three none).queue.pending ≡ (three none).submitted)
    × ((three none).queue.concurrency ≡ none)
nan_starts_nothing_case = nan_starts_nothing (three none) (three_reached none)

started_in_order_example :
    (three (some 2)).started ++ (three (some 2)).queue.pending ≡ (three (some 2)).submitted
started_in_order_example = started_in_order (some 2) (three (some 2)) (three_reached (some 2))

finish-starts_next_example :
    let after = finish [] (6 ∷ []) (three (some 2)) in
    (1 ≤ length (three (some 2)).active)
    × (after.started ≡ (three (some 2)).started ++ 7 ∷ [])
    × (after.queue.pending ≡ [])
    × (after.queue.running ≡ (three (some 2)).queue.running)
unfolding submit enqueue begin
finish-starts_next_example =
    finish-starts_next 2 (three (some 2)) [] (6 ∷ []) [] 7 (omega arith) (three_reached (some 2))
      refl
