-- ===== src/Worker/Recovery.antt =====
-- What the scan of apps/engine/src/worker.ts for lost jobs does to the queue.
use hostingservices.Common.{String, true, List, [], ◌∷◌, ◌++◌, ◌≡◌, ◌⊎◌, inl, inr, refl, arith, In}
use hostingservices.Worker.{
  QueuedJob, enqueue_deployment, Recoverable, is_lost, job_of, recover_one, recover_lost_jobs,
}

In-append : (j k : QueuedJob) (q : List QueuedJob) → In j (q ++ k ∷ []) → In j q ⊎ (k ≡ j)
In-append j k [] (inl e) = inr e
In-append j k [] (inr h) = absurd h
In-append j k (x ∷ xs) (inl e) = inl (inl e)
In-append j k (x ∷ xs) (inr h) = elim (In-append j k xs h) [ inl i ↦ inl (inr i) | inr e ↦ inr e ]

append-In : (j k : QueuedJob) (q : List QueuedJob) → In j q → In j (q ++ k ∷ [])
append-In j k [] h = absurd h
append-In j k (x ∷ xs) (inl e) = inl e
append-In j k (x ∷ xs) (inr h) = inr (append-In j k xs h)

module _ (clean : String → String) (node : String) where
  recover_one-In :
      (d : Recoverable) (q : List QueuedJob) (j : QueuedJob)
      → In j (recover_one clean node d q)
      → In j q ⊎ ((is_lost node d ≡ true) × (job_of clean d ≡ j))
  unfolding recover_one enqueue_deployment
  recover_one-In d q j h = ground (arith, In-append j (job_of clean d) q)

  one-keeps :
      (d : Recoverable) (q : List QueuedJob) (j : QueuedJob)
      → In j q
      → In j (recover_one clean node d q)
  unfolding recover_one enqueue_deployment
  one-keeps d q j h = ground (arith, append-In j (job_of clean d) q)

  -- After the scan the queue has the jobs that it had, and every other job is that of a deployment
  -- offered to it that is lost: of this node, with an id, and neither live, failed nor stopped.
  pub recover_lost_jobs-In :
      (ds : List Recoverable) (q : List QueuedJob) (j : QueuedJob)
      → (In j q → In j (recover_lost_jobs clean node ds q))
        × (In j (recover_lost_jobs clean node ds q)
            → In j q
              ⊎ ((d : Recoverable) × In d ds × (is_lost node d ≡ true) × (job_of clean d ≡ j)))
  unfolding recover_lost_jobs
  recover_lost_jobs-In [] q j = (λ h. h, λ h. inl h)
  recover_lost_jobs-In (d ∷ ds) q j =
      let rest = recover_lost_jobs-In ds (recover_one clean node d q) j in
      (
        λ h. rest.0 (one-keeps d q j h),
        λ h. elim (rest.1 h) [
          | inl i ↦ elim (recover_one-In d q j i) [
            | inl k ↦ inl k
            | inr k ↦ inr (d, inl refl, k.0, k.1)
          ]
          | inr k ↦ let (x, i, l, e) = k in inr (x, inr i, l, e)
        ],
      )
