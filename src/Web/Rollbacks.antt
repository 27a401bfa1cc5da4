-- ===== src/Web/Rollbacks.antt =====
-- The button that rolls back asks the API only for what the API allows, and does not stay busy.
use hostingservices.Common.{
  ◌≡◌, ◌≢◌, ◌⊎◌, inl, inr, refl, String, Bool, true, false, Option, none, some, List, not, find,
  find_sound, In, arith, ap, sym, ◌∙◌, subst, Option-cases,
}
use hostingservices.Database.{Deployment, Table, ready, list_deployments, find_id}
use hostingservices.Rollback.Versions.{IsKeyed}
use hostingservices.Rollback.Listing.{Version, versions, found}
use hostingservices.Rollback.Acceptance.{IsAllowed}
use hostingservices.Rollback.Versions.{versions-IsAllowed}
use hostingservices.Web.RollbackButton.{
  ButtonState, Answer, value, failure, exception, load_versions, rollback_to, rollback_previous,
  is_other,
}

-- Whatever the API answers, the button is not busy after a confirmed rollback, nor after one that
-- was not confirmed if it was not before.
rollback_to-busy :
    (confirmed : Bool) (answer : Answer (Unit {0})) (reload : Answer (Option (List Version)))
    (target : Version) (s : ButtonState)
    → s.busy ≡ false
    → (rollback_to confirmed answer reload target s).0.busy ≡ false
unfolding rollback_to
rollback_to-busy false answer reload target s h = h
rollback_to-busy true (value v) reload target s h = refl
rollback_to-busy true (failure detail error) reload target s h = refl
rollback_to-busy true (exception message) reload target s h = refl

rollback_to-target :
    (confirmed : Bool) (answer : Answer (Unit {0})) (reload : Answer (Option (List Version)))
    (target : Version) (s : ButtonState)
    → let effects = (rollback_to confirmed answer reload target s).1 in
      (effects.target ≡ none) ⊎ (effects.target ≡ some target.id)
unfolding rollback_to
rollback_to-target false answer reload target s = inl refl
rollback_to-target true (value v) reload target s = inr refl
rollback_to-target true (failure detail error) reload target s = inr refl
rollback_to-target true (exception message) reload target s = inr refl

rollback_previous-target :
    (confirmed : Bool) (answer : Answer (Unit {0})) (reload : Answer (Option (List Version)))
    (s : ButtonState)
    → let target = (rollback_previous confirmed answer reload s).1.target in
      (target ≡ none) ⊎ ((v : Version) × (target ≡ some v.id) × (find is_other s.versions ≡ some v))
unfolding rollback_previous
rollback_previous-target confirmed answer reload s =
    elim (Option-cases (find is_other s.versions)) [
      | inl e ↦ inl (rw (rollback_previous, e) refl)
      | inr (v, e) ↦ elim (rollback_to-target confirmed answer reload v s) [
        | inl k ↦ inl (rw (rollback_previous, e) k)
        | inr k ↦ inr (v, rw (rollback_previous, e) k, e)
      ]
    ]

-- With the versions that the API lists for a healthy deployment, each with an image, in a table
-- without two rows of one id, the button `Rollback previous` asks for nothing or for a rollback
-- that passes the checks of the API.
pub rollback_previous-IsAllowed :
    (u : Bool) (id i : String) (t : Table) (vs : List Version) (c : Deployment) (confirmed : Bool)
    (answer : Answer (Unit {0})) (reload : Answer (Option (List Version))) (s : ButtonState)
    → versions u id t ≡ found i vs
    → IsKeyed t
    → find_id id (list_deployments t) ≡ some c
    → c.status ≡ ready
    → ((v : Version) → In v vs → v.image ≢ "")
    → let target =
        (rollback_previous confirmed answer reload (load_versions (value (some vs)) s)).1.target in
      (target ≡ none) ⊎ ((d : Deployment) × (target ≡ some d.id) × IsAllowed u id (some d.id) t c d)
unfolding load_versions
rollback_previous-IsAllowed u id i t vs c confirmed answer reload s listed keyed row healthy
      images =
    elim (rollback_previous-target confirmed answer reload (load_versions (value (some vs)) s)) [
      | inl e ↦ inl e
      | inr (v, e, k) ↦
          let (other, member) = find_sound is_other vs k in
          let (d, same, allowed) =
            versions-IsAllowed u id i t vs v c listed keyed row healthy member
              (not_current v.current other) (images v member) in
          inr (
            d,
            e ∙ ap some (sym same),
            subst (λ j. IsAllowed u id (some j) t c d) (sym same) allowed,
          )
    ]
  where
    not_current : (b : Bool) → not b ≡ true → b ≡ false
    not_current b h = ground (arith, h)
