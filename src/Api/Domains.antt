-- ===== src/Api/Domains.antt =====
-- The custom domains of projects: the pattern of their names and the routes of
-- apps/api/src/index.ts that add and verify them. What a DNS query for TXT records finds,
-- `resolveTxt`, is an argument, and so are the id and the token that are drawn at random; the
-- records are taken after `flat`.
use hostingservices.Common.{
  ℕ, String, Bool, true, false, Option, none, some, List, [], ◌∷◌, ◌++◌, ◌&&◌, ◌||◌, all, any,
  length, leb, ◌==◌, str_eq, if◌then◌else◌, ◌≡◌, refl,
}
use hostingservices.Common.Texts.{Text, text, split, lower}
use hostingservices.Api.{
  Domain, Store, create_domain, get_domain, mark_domain_verified, project_exists,
}

abbrev is_letter : ℕ → Bool
is_letter c = (leb b'a' c && leb c b'z') || (leb b'A' c && leb c b'Z')

abbrev is_alphanumeric : ℕ → Bool
is_alphanumeric c = is_letter c || (leb b'0' c && leb c b'9')

abbrev ends_alphanumeric : Text → Bool
ends_alphanumeric [] = false
ends_alphanumeric (c ∷ []) = is_alphanumeric c
ends_alphanumeric (c ∷ d ∷ cs) = ends_alphanumeric (d ∷ cs)

abbrev starts_alphanumeric : Text → Bool
starts_alphanumeric [] = false
starts_alphanumeric (c ∷ cs) = is_alphanumeric c

abbrev is_label : Text → Bool
is_label t =
    starts_alphanumeric t
    && all (λ c. is_alphanumeric c || c == b'-') t
    && ends_alphanumeric t
    && leb (length t) 63

abbrev is_top_label : Text → Bool
is_top_label t = all is_letter t && leb 2 (length t) && leb (length t) 63

-- Labels up to the last, which is a top label; there are two at least.
abbrev are_labels : Text → List Text → Bool
are_labels t [] = false
are_labels t (u ∷ []) = is_label t && is_top_label u
are_labels t (u ∷ v ∷ ts) = is_label t && are_labels u (v ∷ ts)

-- `domainPattern`; a `.` separates the labels.
unfoldable pub is_domain : Text → Bool
is_domain t = let (part, parts) = split b'.' t in leb (length t) 253 && are_labels part parts

-- The answer of a route: its status and the id, the status or the error of its body; a schema that
-- refuses the body and an error of the database throw, and the framework answers 500.
pub data Response : Type 0 where
  respond : ℕ → String → Response
  threw : Response

-- `prefix + '.' + domain`
abbrev pub record_name : Text → Text → Text
record_name prefix name = prefix ++ b'.' ∷ name

abbrev pub added : String → Option Store → Store → Response × Store
added id (some t) s = (respond 201 id, t)
added id none s = (threw, s)

-- `POST /api/v1/domains`
unfoldable pub add_domain :
    (id token : String) → ℕ → (project_id : String) → Text → Store → Response × Store
unfolding create_domain project_exists is_domain
add_domain id token now project_id name s =
    if is_domain name
    then (if project_exists project_id s
        then (let row : Domain = record {
          id = id;
          project_id = project_id;
          domain = lower name;
          verification_token = token;
          is_verified = false;
          created_at = now;
        } in
            added id (create_domain row s) s)
        else (respond 404 "Project not found", s))
    else (threw, s)

-- The records that the query finds hold the token; a query that fails finds none.
abbrev pub holds : String → Option (List String) → Bool
holds token none = false
holds token (some records) = any (λ r. str_eq r token) records

abbrev verify_found :
    (Text → Option (List String)) → Text → String → Option Domain → Store → Response × Store
verify_found resolve_txt prefix id none s = (respond 404 "Domain not found", s)
verify_found resolve_txt prefix id (some d) s =
    if holds d.verification_token (resolve_txt (record_name prefix d.domain))
    then (respond 200 "verified", mark_domain_verified id s)
    else (respond 409 "Verification record not found", s)

-- `POST /api/v1/domains/:id/verify`
unfoldable pub verify_domain :
    (resolve_txt : Text → Option (List String))
    → (prefix : Text) → String
    → Store
    → Response × Store
unfolding get_domain mark_domain_verified
verify_domain resolve_txt prefix id s = verify_found resolve_txt prefix id (get_domain id s) s

check_domain : is_domain (text "my-app.example.com") ≡ true
unfolding is_domain split
check_domain = refl
