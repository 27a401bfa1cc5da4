-- ===== src/Api/Rows.antt =====
-- The rows of the domains of apps/api/src/db.ts: those that the queries by id and by name find,
-- and what the verification of a row does to the registry.
use hostingservices.Common.{
  String, true, false, none, some, List, [], ◌∷◌, ◌≡◌, refl, ◌∙◌, any, find, map, str_eq, eq_iff,
  arith, Bool-cases, inl, inr,
}
use hostingservices.Common.Texts.{Text, text_eq, text_eq_iff}
use hostingservices.Api.{is_verified_of, Domain, is_taken, has_domain_id, verify_row}
use hostingservices.Api.Registry.{update, has_name, claim_of, view_rows, AreDistinct}

pub taken_free :
    (d : Domain) (ds : List Domain)
    → any (is_taken d) ds ≡ false
    → (find (has_name d.domain) ds ≡ none) × (find (has_domain_id d.id) ds ≡ none)
taken_free d [] h = (refl, refl)
taken_free d (e ∷ ds) h = ground (arith, taken_free d ds)

verify_row-other :
    (id : String) (ds : List Domain)
    → find (has_domain_id id) ds ≡ none
    → map (verify_row id) ds ≡ ds
verify_row-other id [] h = refl
verify_row-other id (d ∷ ds) h = ground (arith, verify_row-other id ds)

found_free :
    (x : Domain) (id : String) (ds : List Domain) {d : Domain}
    → any (is_taken x) ds ≡ false
    → find (has_domain_id id) ds ≡ some d
    → text_eq d.domain x.domain ≡ false
found_free x id [] h f = cc
found_free x id (e ∷ ds) {d} h f = elim (Bool-cases (str_eq e.id id)) [
  | inl k ↦ ground (arith, k)
  | inr k ↦ ground (arith, k, found_free x id ds {d = d})
]

-- The row with the id is verified, and no other is.
pub view-verify_row :
    (id : String) (ds : List Domain) {d : Domain}
    → AreDistinct ds
    → find (has_domain_id id) ds ≡ some d
    → (name : Text)
    → view_rows (map (verify_row id) ds) name
      ≡ update (view_rows ds) d.domain (record (claim_of d) { is_proven = true }) name
view-verify_row id [] {d} h f name = cc
view-verify_row id (x ∷ ds) {d} h f name = elim (Bool-cases (str_eq x.id id)) [
  | inl e ↦ ground (
    arith,
    e,
    eq_iff x.id id,
    taken_free x ds h.0,
    verify_row-other id ds,
    text_eq_iff x.domain name,
  )
  | inr e ↦
      let found : find (has_domain_id id) ds ≡ some d = ground (arith, e) in
      ground (
        arith,
        e,
        view-verify_row id ds {d = d} h.1 found name,
        found_free x id ds {d = d} h.0 found,
        text_eq_iff d.domain name,
        text_eq_iff x.domain name,
        text_eq_iff d.domain x.domain,
      )
]

pub found_by_name :
    (id : String) (ds : List Domain) {d : Domain}
    → AreDistinct ds
    → find (has_domain_id id) ds ≡ some d
    → find (has_name d.domain) ds ≡ some d
found_by_name id [] h f = cc
found_by_name id (x ∷ ds) {d} h f = elim (Bool-cases (str_eq x.id id)) [
  | inl e ↦ ground (arith, e, text_eq_iff d.domain d.domain)
  | inr e ↦
      let found : find (has_domain_id id) ds ≡ some d = ground (arith, e) in
      ground (
        arith,
        e,
        found_by_name id ds {d = d} h.1 found,
        found_free x id ds {d = d} h.0 found,
        text_eq_iff d.domain x.domain,
        text_eq_iff x.domain d.domain,
      )
]

is_taken-verify_row :
    (id : String) (d e : Domain) → is_taken (verify_row id d) (verify_row id e) ≡ is_taken d e
is_taken-verify_row id d e = ground arith

any-taken-verify_row :
    (id : String) (d : Domain) (ds : List Domain)
    → any (is_taken (verify_row id d)) (map (verify_row id) ds) ≡ any (is_taken d) ds
any-taken-verify_row id d [] = refl
any-taken-verify_row id d (e ∷ ds) =
    rw (is_taken-verify_row id d e, any-taken-verify_row id d ds) refl

pub verify_row-AreDistinct :
    (id : String) (ds : List Domain) → AreDistinct ds → AreDistinct (map (verify_row id) ds)
verify_row-AreDistinct id [] h = tt
verify_row-AreDistinct id (d ∷ ds) h =
    (any-taken-verify_row id d ds ∙ h.0, verify_row-AreDistinct id ds h.1)

-- The row that is verified for a project is the row of its name.
pub verified_by_name :
    (project_id : String) (name : Text) (ds : List Domain) {d : Domain}
    → AreDistinct ds
    → find (is_verified_of project_id name) ds ≡ some d
    → (find (has_name name) ds ≡ some d) × (d.project_id ≡ project_id) × (d.is_verified ≡ true)
verified_by_name project_id name [] h f = cc
verified_by_name project_id name (x ∷ ds) {d} h f =
    elim (Bool-cases (is_verified_of project_id name x)) [
      | inl e ↦ ground (arith, e, eq_iff x.project_id project_id)
      | inr e ↦
          let found : find (is_verified_of project_id name) ds ≡ some d = ground (arith, e) in
          let rest = verified_by_name project_id name ds {d = d} h.1 found in
          (ground (arith, rest.0, taken_free x ds h.0, text_eq_iff x.domain name), rest.1, rest.2)
    ]
