-- ===== src/Lifecycle/Records.antt =====
-- What the operations of apps/engine/src/deployment-state.ts do to the records.
use hostingservices.Common.{
  ℕ, String, Bool, true, none, some, List, [], ◌∷◌, ◌≡◌, refl, ◌⊎◌, inl, inr, ◌&&◌, arith, eq_iff,
  str_eq, if◌then◌else◌, lookup, lookup-insert, Option-cases, sort_by-perm, sort_by-IsOrdered,
  IsOrder, IsOrdered, values, All,
}
use mathlib.Core.List.{Perm}
use mathlib.Core.Option
use hostingservices.Lifecycle.{
  DeploymentRecord, Patch, Store, DeploymentInput, queued, can_transition, create_deployment, merge,
  update_current, update_deployment, list_deployments, newer,
}

-- The records after a call of `updateDeployment`, whatever it returns.
abbrev pub store_after : ℕ → String → Patch → Store → Store
store_after now id patch records = (update_deployment now id patch records).1

-- The patch asks for no transition, or for one that is allowed.
abbrev is_allowed : DeploymentRecord → Patch → Bool
is_allowed c patch = elim patch.status [ none ↦ true | some s ↦ can_transition c.status s ]

-- What the call makes of the record of the id `j`.
unfoldable pub record_after : ℕ → String → Patch → String → DeploymentRecord → DeploymentRecord
record_after now id patch j c = if str_eq id j && is_allowed c patch then merge now c patch else c

-- Every record stands under its own id.
abbrev pub IsKeyed : Store → Type 0
IsKeyed records = (k : String) (r : DeploymentRecord) → lookup k records ≡ some r → r.id ≡ k

lookup-update_current :
    (now : ℕ) (id : String) (patch : Patch) (c : DeploymentRecord) (records : Store) (j : String)
    → lookup j (update_current now id patch c records).1
      ≡ (if str_eq id j && is_allowed c patch then some (merge now c patch) else lookup j records)
unfolding update_current
lookup-update_current now id patch c records j =
    ground (arith, lookup-insert id j (merge now c patch) records)

-- An update touches only the record of the id given, and only if its transition is allowed.
pub lookup-update :
    (now : ℕ) (id : String) (patch : Patch) (records : Store) (j : String)
    → lookup j (store_after now id patch records)
      ≡ Option.map (record_after now id patch j) (lookup j records)
unfolding update_deployment record_after
lookup-update now id patch records j = elim (Option-cases (lookup id records)) [
  | inl e ↦ ground (arith, eq_iff id j)
  | inr (c, e) ↦ ground (arith, eq_iff id j, lookup-update_current now id patch c records j)
]

record_after-id :
    (now : ℕ) (id : String) (patch : Patch) (j : String) (c : DeploymentRecord)
    → (record_after now id patch j c).id ≡ c.id
unfolding record_after merge
record_after-id now id patch j c = ground arith

pub record_after-status :
    (now : ℕ) (id : String) (patch : Patch) (j : String) (c : DeploymentRecord)
    → let r = record_after now id patch j c in
      (r.status ≡ c.status)
      ⊎ ((id ≡ j) × (patch.status ≡ some r.status) × (can_transition c.status r.status ≡ true))
unfolding record_after merge
record_after-status now id patch j c = ground (arith, eq_iff id j)

-- A new deployment is queued, stands under its id, and replaces no record of another id.
pub create_deployment_lem :
    (now : ℕ) (i : DeploymentInput) (records : Store) (j : String)
    → let (r, after) = create_deployment now i records in
      (r.status ≡ queued)
      × (r.created_at ≡ now)
      × (lookup j after ≡ (if str_eq i.id j then some r else lookup j records))
unfolding create_deployment
create_deployment_lem now i records j = (refl, refl, lookup-insert i.id j _ records)

-- After an update every record still stands under its own id, if that was so before.
pub update-IsKeyed :
    (now : ℕ) (id : String) (patch : Patch) (records : Store)
    → IsKeyed records
    → IsKeyed (store_after now id patch records)
update-IsKeyed now id patch records keyed k r h = elim (Option-cases (lookup k records)) [
  | inl e ↦ cc (lookup-update now id patch records k)
  | inr (c, e) ↦ step c e
]
  where
    step : (c : DeploymentRecord) → lookup k records ≡ some c → r.id ≡ k
    step c e =
        cc (lookup-update now id patch records k, record_after-id now id patch k c, keyed k c e)

IsOrder-newer : IsOrder (λ (r : DeploymentRecord). Unit {0}) newer
unfolding newer
IsOrder-newer = record { total = λ a b h. ground arith; trans = λ a b c u h k. ground arith }

All-Unit : (rs : List DeploymentRecord) → All (λ (r : DeploymentRecord). Unit {0}) rs
All-Unit [] = tt
All-Unit (r ∷ rs) = (tt, All-Unit rs)

-- The list of deployments is a permutation of the records, the newest first.
pub list_deployments_lem :
    (records : Store)
    → Perm (list_deployments records) (values records) × IsOrdered newer (list_deployments records)
unfolding list_deployments
list_deployments_lem records = (
  sort_by-perm newer (values records),
  sort_by-IsOrdered newer IsOrder-newer (values records) (All-Unit (values records)),
)
