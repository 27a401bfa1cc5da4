-- ===== src/Recovery/Placement.antt =====
-- The API's placement of a deployment agrees with the scheduler of the engine.
use mathlib.Core.Option
use hostingservices.Common.{
  ℕ, ◌≡◌, refl, String, Bool, Option, List, [], ◌∷◌, ◌&&◌, not, keep, first, map, sort_by,
  insert_by, str_eq, arith, Bool-cases, inl, inr, ap, sym, ◌∙◌,
}
use hostingservices.Scheduler.{
  RuntimeNode, NodeStatus, online, draining, offline, is_online, has_free, is_candidate,
  goes_before, select_runtime_node,
}
use hostingservices.Recovery.{NodeRow, is_fresh, is_offline, fits, select_deployment_node}

module _ {A B : Type 0} (f : A → B) where
  map-keep :
      (p : A → Bool) (q : B → Bool) (xs : List A)
      → ((x : A) → p x ≡ q (f x))
      → map f (keep p xs) ≡ keep q (map f xs)
  map-keep p q [] h = refl
  map-keep p q (x ∷ xs) h = elim (Bool-cases (p x)) [
    | inl e ↦ rw (e, sym (h x) ∙ e) (ap (◌∷◌ (f x)) (map-keep p q xs h))
    | inr e ↦ rw (e, sym (h x) ∙ e) (map-keep p q xs h)
  ]

  module _ (le : B → B → Bool) where
    abbrev under_f : A → A → Bool
    under_f a b = le (f a) (f b)

    map-insert_by :
        (x : A) (xs : List A) → map f (insert_by under_f x xs) ≡ insert_by le (f x) (map f xs)
    unfolding insert_by
    map-insert_by x [] = refl
    map-insert_by x (y ∷ ys) = elim (Bool-cases (le (f x) (f y))) [
      | inl e ↦ rw e refl
      | inr e ↦ rw e (ap (◌∷◌ (f y)) (map-insert_by x ys))
    ]

    map-sort_by : (xs : List A) → map f (sort_by under_f xs) ≡ sort_by le (map f xs)
    unfolding sort_by
    map-sort_by [] = refl
    map-sort_by (x ∷ xs) =
        map-insert_by x (sort_by under_f xs) ∙ ap (insert_by le (f x)) (map-sort_by xs)

  first-map : (xs : List A) → first (map f xs) ≡ Option.map f (first xs)
  first-map [] = refl
  first-map (x ∷ xs) = refl

keep-keep :
    {A : Type 0} (p q r : A → Bool) (xs : List A)
    → ((x : A) → (q x && p x) ≡ r x)
    → keep p (keep q xs) ≡ keep r xs
keep-keep p q r [] h = refl
keep-keep p q r (x ∷ xs) h = rw (sym (h x)) (ground (arith, keep-keep p q r xs h))

-- What the engine's scheduler does not look at: a row with a heartbeat within 45 seconds, or none
-- yet, and with an endpoint.
abbrev pub is_reachable : (now : ℕ) → NodeRow → Bool
is_reachable now r = is_fresh now r && not (str_eq r.endpoint "")

abbrev pub node_of : NodeRow → RuntimeNode
node_of r = r.node

abbrev is_listed : (now : ℕ) → NodeRow → Bool
is_listed now r = not (is_offline r.node.status) && is_fresh now r

by_status :
    (status : NodeStatus) (fresh reached cpu memory : Bool)
    → ((not (is_offline status) && fresh)
        && (is_online status && reached && (is_online status && cpu && memory)))
      ≡ ((fresh && reached) && (is_online status && cpu && memory))
by_status online fresh reached cpu memory = ground arith
by_status draining fresh reached cpu memory = ground arith
by_status offline fresh reached cpu memory = ground arith

same_test :
    (now cpu memory : ℕ) (r : NodeRow)
    → (is_listed now r && fits cpu memory r)
      ≡ (is_reachable now r && is_candidate cpu memory r.node)
unfolding is_candidate
same_test now cpu memory r =
    let n = r.node in
    by_status n.status (is_fresh now r) (not (str_eq r.endpoint ""))
      (has_free n.capacity_cpu_millis n.used_cpu_millis cpu)
      (has_free n.capacity_memory_bytes n.used_memory_bytes memory)

-- The row that the API selects is the node that the engine's scheduler selects of the reachable
-- rows, for the same request and region.
pub select_deployment_node-select_runtime_node :
    (now : ℕ) (rows : List NodeRow) (cpu memory : ℕ) (preferred : Option String)
    → Option.map node_of (select_deployment_node now rows cpu memory preferred)
      ≡ select_runtime_node (map node_of (keep (is_reachable now) rows)) cpu memory preferred
unfolding select_deployment_node select_runtime_node
select_deployment_node-select_runtime_node now rows cpu memory preferred =
    let le = goes_before preferred in
    let able = is_candidate cpu memory in
    let chosen = keep (fits cpu memory) (keep (is_listed now) rows) in
    sym (first-map node_of (sort_by (under_f node_of le) chosen))
    ∙ ap first (map-sort_by node_of le chosen)
    ∙ ap (λ ns. first (sort_by le ns))
        (ap (map node_of) (
            keep-keep (fits cpu memory) (is_listed now) (λ r. is_reachable now r && able r.node)
              rows (same_test now cpu memory)
            ∙ sym (
                keep-keep (λ r. able r.node) (is_reachable now)
                  (λ r. is_reachable now r && able r.node) rows (λ r. refl)))
          ∙ map-keep node_of (λ r. able r.node) able (keep (is_reachable now) rows) (λ r. refl))
