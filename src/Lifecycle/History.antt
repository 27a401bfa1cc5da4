-- ===== src/Lifecycle/History.antt =====
-- What holds of a deployment over any sequence of calls of `updateDeployment`
-- (apps/engine/src/deployment-state.ts), calls that are refused included.
use mathlib.Core.Option
use hostingservices.Common.{
  ℕ, String, true, none, some, List, [], ◌∷◌, ◌≡◌, refl, ap, ◌⊎◌, inl, inr, arith, lookup,
  Option-cases,
}
use hostingservices.Lifecycle.{
  DeploymentState, DeploymentRecord, Patch, Store, live, failed, health_check, stopped,
}
use hostingservices.Lifecycle.Diagram.{is_early, early_step, stopped_step}
use hostingservices.Lifecycle.Records.{
  store_after, record_after, lookup-update, record_after-status,
}

-- One call of `updateDeployment`.
pub record Update : Type 0 where
  pub now : ℕ
  pub id : String
  pub patch : Patch

-- The records after the calls, in their order.
unfoldable pub replay : List Update → Store → Store
replay [] records = records
replay (u ∷ us) records = replay us (store_after u.now u.id u.patch records)

-- The record of the id `j` after the calls, from the record before them.
unfoldable pub follow : String → List Update → DeploymentRecord → DeploymentRecord
follow j [] c = c
follow j (u ∷ us) c = follow j us (record_after u.now u.id u.patch j c)

lookup-replay :
    (us : List Update) (j : String) (records : Store)
    → lookup j (replay us records) ≡ Option.map (follow j us) (lookup j records)
unfolding replay follow
lookup-replay [] j records = elim (lookup j records) as (λ o. o ≡ Option.map (follow j []) o) [
  | none ↦ refl
  | some c ↦ refl
]
lookup-replay (u ∷ us) j records =
    let step = lookup-update u.now u.id u.patch records j in
    elim (Option-cases (lookup j records)) [
      | inl e ↦ cc (
        step,
        lookup-replay us j (store_after u.now u.id u.patch records),
        ap (Option.map (follow j (u ∷ us))) e,
        ap (Option.map (record_after u.now u.id u.patch j)) e,
      )
      | inr (c, e) ↦
          ground (arith, step, lookup-replay us j (store_after u.now u.id u.patch records))
    ]

-- Some call asks for the state `s` on the id `j`.
abbrev pub Asks : String → DeploymentState → List Update → Type 0
Asks j s [] = ⊥
Asks j s (u ∷ us) = ((u.id ≡ j) × (u.patch.status ≡ some s)) ⊎ Asks j s us

follow-live :
    (us : List Update) (j : String) (c : DeploymentRecord)
    → is_early c.status ≡ true
    → (follow j us c).status ≡ live
    → Asks j health_check us ⊎ Asks j failed us
unfolding follow
follow-live [] j c e h = ground arith
follow-live (u ∷ us) j c e h =
    let r = record_after u.now u.id u.patch j c in
    ground (
      arith,
      record_after-status u.now u.id u.patch j c,
      early_step c.status r.status,
      follow-live us j r,
    )

follow-stopped :
    (us : List Update) (j : String) (c : DeploymentRecord)
    → c.status ≡ stopped
    → (follow j us c).status ≡ stopped
unfolding follow
follow-stopped [] j c e = e
follow-stopped (u ∷ us) j c e =
    let r = record_after u.now u.id u.patch j c in
    follow-stopped us j r
      (ground (arith, record_after-status u.now u.id u.patch j c, stopped_step r.status))

-- Whatever calls are made, a deployment that was in a state before its health check and that is
-- found live has been asked to go to its health check or to fail.
pub live_was_checked :
    (us : List Update) (j : String) (records : Store) (c r : DeploymentRecord)
    → lookup j records ≡ some c
    → is_early c.status ≡ true
    → lookup j (replay us records) ≡ some r
    → r.status ≡ live
    → Asks j health_check us ⊎ Asks j failed us
live_was_checked us j records c r found early after l =
    follow-live us j c early (cc (lookup-replay us j records))

-- Whatever calls are made, a deployment that is stopped stays stopped and is not lost.
pub stopped_is_final :
    (us : List Update) (j : String) (records : Store) (c : DeploymentRecord)
    → lookup j records ≡ some c
    → c.status ≡ stopped
    → (r : DeploymentRecord) × (lookup j (replay us records) ≡ some r) × (r.status ≡ stopped)
stopped_is_final us j records c found e =
    (follow j us c, cc (lookup-replay us j records), follow-stopped us j c e)
