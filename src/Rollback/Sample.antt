-- ===== src/Rollback/Sample.antt =====
-- Two healthy rows of one project for the tests: `d2` runs now and `d1` ran before.
use hostingservices.Common.{
  ℕ, String, true, some, [], ◌∷◌, ◌≡◌, inl, inr, refl, sym, ap, ◌∙◌, str_ne, sort_by,
}
use hostingservices.Database.{Status, ready, Deployment, Table, list_deployments, find_id, is_ready}
use hostingservices.Rollback.{no_runtime}
use hostingservices.Rollback.Listing.{found, versions, versions_of, service_of, version_of}
use hostingservices.Rollback.Versions.{IsKeyed}

abbrev pub row : String → Status → String → ℕ → Deployment
row id status image at = record {
  id = id;
  project_id = "p";
  status = status;
  image = image;
  repo = some "repo";
  runtime = some (record no_runtime { name = some "web"; service = some "api" });
  created_at = at;
}

abbrev pub old_row : Deployment
old_row = row "d1" ready "image:1" 1

abbrev pub new_row : Deployment
new_row = row "d2" ready "image:2" 2

abbrev pub table : Table
table = new_row ∷ old_row ∷ []

pub listed :
    versions true "d2" table
    ≡ found "d2" (version_of new_row new_row ∷ version_of new_row old_row ∷ [])
unfolding versions versions_of list_deployments sort_by service_of is_ready
listed = refl

pub new_row_found : find_id "d2" (list_deployments table) ≡ some new_row
unfolding list_deployments sort_by
new_row_found = refl

pub keyed : IsKeyed table
keyed a b (inl p) (inl q) e = sym p ∙ q
keyed a b (inl p) (inr (inl q)) e =
    absurd (str_ne "d2" "d1" refl (ap (λ x. x.id) p ∙ e ∙ ap (λ x. x.id) (sym q)))
keyed a b (inr (inl p)) (inl q) e =
    absurd (str_ne "d1" "d2" refl (ap (λ x. x.id) p ∙ e ∙ ap (λ x. x.id) (sym q)))
keyed a b (inr (inl p)) (inr (inl q)) e = sym p ∙ q
keyed a b (inr (inr p)) q e = absurd p
keyed a b p (inr (inr q)) e = absurd q
