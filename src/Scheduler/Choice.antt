-- ===== src/Scheduler/Choice.antt =====
-- `selectRuntimeNode` (apps/engine/src/scheduler.ts) chooses a best node among those that fit.
use hostingservices.Common.{
  ℕ, ◌+◌, ◌*◌, ◌≤◌, ◌<◌, String, true, false, Option, none, some, List, ◌≡◌, ◌⊎◌, arith, keep,
  first-In, In, In-keep, keep-In, IsOrder, sort_by, sort_by-least, sort_by-none, keep-nil,
  In-sort_by, All, All-keep, All-weaken_to, leb→le, le→leb, ◌↔◌, inl, inr,
}
use native.Mathlib.Nat.{le_refl, le_of_mul-le-mul_right, mul-le-mul_right, one-le-mul}
use hostingservices.Scheduler.{
  RuntimeNode, online, is_candidate, region_rank, load_over, load_under, load_le, goes_before,
  select_runtime_node,
}

cross_trans : (a b c d e f : ℕ) → 0 < d → a * d ≤ c * b → c * f ≤ e * d → a * f ≤ e * b
cross_trans a b c d e f p h k =
    le_of_mul-le-mul_right {k = d} (omega (arith, mul-le-mul_right f h, mul-le-mul_right b k)) p

load_le-total : (a b : RuntimeNode) → load_le a b ≡ false → load_le b a ≡ true
unfolding load_le
load_le-total a b h = ground arith

load_le_trans :
    (a b c : RuntimeNode)
    → 0 < load_under b
    → load_le a b ≡ true
    → load_le b c ≡ true
    → load_le a c ≡ true
unfolding load_le
load_le_trans a b c p h k = le→leb _ _ (
    cross_trans (load_over a) (load_under a) (load_over b) (load_under b) (load_over c)
      (load_under c) p (leb→le _ _ h) (leb→le _ _ k))

-- The capacities of the node are not 0, so that its load is a number.
abbrev pub HasCapacity : RuntimeNode → Type 0
HasCapacity n = 0 < load_under n

goes_before-IsOrder : (preferred : Option String) → IsOrder HasCapacity (goes_before preferred)
unfolding goes_before
goes_before-IsOrder preferred = record {
  total = λ a b h. ground (arith, load_le-total a b);
  trans = λ a b c p h k. ground (arith, load_le_trans a b c p);
}

capacity_of_candidate :
    (cpu memory : ℕ) (n : RuntimeNode)
    → 0 < cpu
    → 0 < memory
    → is_candidate cpu memory n ≡ true
    → HasCapacity n
unfolding is_candidate load_under
capacity_of_candidate cpu memory n p q h =
    let c : 1 ≤ n.capacity_cpu_millis = ground arith in
    let m : 1 ≤ n.capacity_memory_bytes = ground arith in one-le-mul c m

status_of_candidate :
    (cpu memory : ℕ) (n : RuntimeNode) → is_candidate cpu memory n ≡ true → n.status ≡ online
unfolding is_candidate
status_of_candidate cpu memory n h = ground arith

-- `n` stands in a preferred region and `m` does not, or they are alike in this and the load of `n`
-- is at most that of `m`.
abbrev pub IsNoWorse : Option String → RuntimeNode → RuntimeNode → Type 0
IsNoWorse preferred n m =
    (region_rank preferred n < region_rank preferred m)
    ⊎ ((region_rank preferred n ≡ region_rank preferred m)
        × (load_over n * load_under m ≤ load_over m * load_under n))

goes_before-IsNoWorse :
    (preferred : Option String) (n m : RuntimeNode)
    → (n ≡ m) ⊎ (goes_before preferred n m ≡ true)
    → IsNoWorse preferred n m
unfolding goes_before load_le
goes_before-IsNoWorse preferred n m (inl e) = inr (rw e, rw e (le_refl _))
goes_before-IsNoWorse preferred n m (inr h) = ground arith

-- For a request that is not 0, the node that is selected is one of the nodes, it is online with
-- enough free processor and memory, and no other such node is better: none is in the preferred
-- region if this one is not, and none in the same position has a lower load.
pub select_runtime_node-best :
    (nodes : List RuntimeNode) (cpu memory : ℕ) (preferred : Option String) (n : RuntimeNode)
    → 0 < cpu
    → 0 < memory
    → select_runtime_node nodes cpu memory preferred ≡ some n
    → In n nodes
      × (n.status ≡ online)
      × (n.used_cpu_millis + cpu ≤ n.capacity_cpu_millis)
      × (n.used_memory_bytes + memory ≤ n.capacity_memory_bytes)
      × ((m : RuntimeNode)
          → In m nodes
          → is_candidate cpu memory m ≡ true
          → IsNoWorse preferred n m)
unfolding select_runtime_node is_candidate
select_runtime_node-best nodes cpu memory preferred n p q h =
    let fits = keep (is_candidate cpu memory) nodes in
    let le = goes_before preferred in
    let member : In n fits = (In-sort_by le fits n).0 (first-In (sort_by le fits) h) in
    let own = In-keep (is_candidate cpu memory) nodes member in
    let capable =
      All-weaken_to (λ m c. capacity_of_candidate cpu memory m p q c) fits
        (All-keep (is_candidate cpu memory) nodes) in
    let c : is_candidate cpu memory n ≡ true = own.0 in
    (
      own.1,
      status_of_candidate cpu memory n c,
      ground arith,
      ground arith,
      λ m i t. goes_before-IsNoWorse preferred n m (
          sort_by-least le (goes_before-IsOrder preferred) fits capable h
            (keep-In (is_candidate cpu memory) nodes i t)),
    )

-- No node is selected exactly when none is a candidate.
pub select_runtime_node-none :
    (nodes : List RuntimeNode) (cpu memory : ℕ) (preferred : Option String)
    → (select_runtime_node nodes cpu memory preferred ≡ none)
      ↔ All (λ n. is_candidate cpu memory n ≡ false) nodes
unfolding select_runtime_node sort_by
select_runtime_node-none nodes cpu memory preferred =
    let none_fits = keep-nil (is_candidate cpu memory) nodes in
    (
      λ h.
          none_fits.0
            (sort_by-none (goes_before preferred) (keep (is_candidate cpu memory) nodes) h),
      λ a. rw (none_fits.1 a),
    )
