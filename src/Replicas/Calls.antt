-- ===== src/Replicas/Calls.antt =====
-- The calls of apps/engine/src/replicas.ts that change the containers and the router's files, and
-- the loop that starts the candidates.
use hostingservices.Router.{safe}
use hostingservices.Common.{
  ℕ, zero, suc, ◌+◌, ◌%◌, ◌/◌, Bool, true, false, Option, some, List, [], ◌∷◌, ◌++◌, not, ◌&&◌,
  ◌||◌, ltb, leb, ◌==◌, get_or, keep, map, any, if◌then◌else◌,
}
use hostingservices.Common.Texts.{Text, text, text_eq, or_else}
use hostingservices.Deploy.Daemon.{Removal, gone, only_stopped, untouched}
use hostingservices.Replicas.{
  ReplicaSpec, Replica, Route, Faults, create_calls, start_calls, inspect_calls, switch_calls, Run,
  Outcome, ok, throw, then_run,
}

abbrev pub is_name_char : ℕ → Bool
is_name_char c =
    (leb b'a' c && leb c b'z')
    || (leb b'A' c && leb c b'Z')
    || (leb b'0' c && leb c b'9')
    || c == b'_'
    || c == b'-'

abbrev pub dashed : Text → Text
dashed [] = []
dashed (c ∷ cs) = (if is_name_char c then c else b'-') ∷ dashed cs

abbrev pub slice : ℕ → Text → Text
slice zero s = []
slice (suc n) [] = []
slice (suc n) (c ∷ cs) = c ∷ slice n cs

-- `generation`; `drawn` is made of the time and a random number.
unfoldable pub generation : (drawn : Text) → ReplicaSpec → Text
generation drawn spec =
    slice 48 (
      dashed
        (or_else (get_or spec.generation_id []) (or_else (get_or spec.deployment_id []) drawn)))

-- A number in decimal, on fuel of at least its digits.
abbrev decimal_from : ℕ → ℕ → Text → Text
decimal_from zero n digits = digits
decimal_from (suc fuel) n digits =
    let rest = decimal_from fuel (n / 10) ((b'0' + n % 10) ∷ digits) in
    if ltb n 10 then (b'0' + n) ∷ digits else rest

abbrev pub decimal : ℕ → Text
decimal n = decimal_from (suc n) n []

-- `names`: those of the indices from `i` on.
unfoldable pub names : ReplicaSpec → (gen : Text) → (count i : ℕ) → List Text
names spec gen zero i = []
names spec gen (suc count) i =
    (spec.name ++ text "-" ++ gen ++ text "-replica-" ++ decimal i) ∷ names spec gen count (suc i)

abbrev pub has_name : Text → Replica → Bool
has_name name r = text_eq r.name name

abbrev pub set_route : Text → Route → (Text → Option Route) → Text → Option Route
set_route name route routes n = if text_eq n name then some route else routes n

-- `switchTraffic` and `switchWeightedTraffic` write the whole file of the runtime's safe name, or
-- nothing.
unfoldable pub write_route : Bool → Text → Route → Run → Outcome
write_route false name route r = throw switch_calls r
write_route true name route r = ok (record {
  cluster = record {
    replicas = r.cluster.replicas;
    routes = set_route (safe name) route r.cluster.routes;
  };
  started = r.started;
  switched = true;
})

-- `remove`: both errors are swallowed.
abbrev pub stop : Text → Replica → Replica
stop name r = if has_name name r then record r { running = false } else r

abbrev pub removed : Removal → Text → List Replica → List Replica
removed gone name rs = keep (λ (r : Replica). not (has_name name r)) rs
removed only_stopped name rs = map (stop name) rs
removed untouched name rs = rs

unfoldable pub remove_all : Faults → List Text → List Replica → List Replica
remove_all f [] rs = rs
remove_all f (name ∷ more) rs = remove_all f more (removed (f.removal name) name rs)

abbrev pub created : ReplicaSpec → (gen name : Text) → (i : ℕ) → (running : Bool) → Replica
created spec gen name i running = record {
  name = name;
  runtime = spec.name;
  image = spec.image;
  running = running;
  index = i;
  generation = gen;
}

abbrev pub with_new : Replica → (started : List Text) → Run → Run
with_new new started r = record r {
  cluster = record { replicas = r.cluster.replicas ++ new ∷ []; routes = r.cluster.routes };
  started = started;
}

-- One round of the loop that starts the candidates: `createReplica`, `start` and `hostPort`. A
-- name that a container has is refused.
unfoldable pub start_replica : Faults → ReplicaSpec → (gen name : Text) → (i : ℕ) → Run → Outcome
start_replica f spec gen name i r =
    let running = with_new (created spec gen name i true) (r.started ++ name ∷ []) r in
    if not (f.creates i) || any (has_name name) r.cluster.replicas
    then throw create_calls r
    else if not (f.starts i)
    then throw start_calls (with_new (created spec gen name i false) r.started r)
    else if not (f.inspects i)
    then throw inspect_calls running
    else ok running

unfoldable pub start_all : Faults → ReplicaSpec → (gen : Text) → List Text → (i : ℕ) → Run → Outcome
unfolding start_replica
start_all f spec gen [] i r = ok r
start_all f spec gen (name ∷ more) i r =
    then_run (start_replica f spec gen name i r) (start_all f spec gen more (suc i))
