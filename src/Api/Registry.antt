-- ===== src/Api/Registry.antt =====
-- The custom domains of apps/api/src/index.ts as an abstract registry: a function from names to
-- claims. It says what the table of domains promises, without ids, rows and their order.
use mathlib.Core.Option
use hostingservices.Common.{
  String, Bool, true, false, Option, none, some, List, [], ◌∷◌, ◌≡◌, any, find, if◌then◌else◌,
}
use hostingservices.Common.Texts.{Text, text_eq}
use hostingservices.Api.{Domain, Store, is_taken}
use hostingservices.Api.Domains.{holds, record_name}
use hostingservices.Api.Requests.{
  World, Request, project, domain, verify, status, deployment, webhook,
}

-- A project's claim to a name, and whether it has been proven with its token.
pub record Claim : Type 0 where
  pub project_id : String
  pub token : String
  pub is_proven : Bool

abbrev pub Registry : Type 0
Registry = Text → Option Claim

-- A registry, changed at one name.
abbrev pub update : Registry → Text → Claim → Registry
update f name c other = if text_eq name other then some c else f other

-- The request is a verification whose query finds the token at the record of the name.
abbrev pub Publishes : World → Request → Text → String → Type 0
Publishes w (verify id resolve_txt) name token =
    holds token (resolve_txt (record_name w.dns_prefix name)) ≡ true
Publishes w (project p) name token = ⊥
Publishes w (domain id t now project_id n) name token = ⊥
Publishes w (status header id value runtime) name token = ⊥
Publishes w (deployment e b) name token = ⊥
Publishes w (webhook e image d) name token = ⊥

-- What one request may do: nothing, claim a free name, or prove a claim whose token is published.
pub data Step (w : World) (r : Request) : Registry → Registry → Type 0 where
  stay : (f : Registry) → Step w r f f
  claim :
      (f : Registry) (name : Text) (c : Claim)
      → f name ≡ none
      → c.is_proven ≡ false
      → Step w r f (update f name c)
  prove :
      (f : Registry) (name : Text) (c : Claim)
      → f name ≡ some c
      → Publishes w r name c.token
      → Step w r f (update f name (record c { is_proven = true }))

abbrev pub has_name : Text → Domain → Bool
has_name name d = text_eq d.domain name

abbrev pub claim_of : Domain → Claim
claim_of d = record {
  project_id = d.project_id;
  token = d.verification_token;
  is_proven = d.is_verified;
}

abbrev pub view_rows : List Domain → Registry
view_rows ds name = Option.map claim_of (find (has_name name) ds)

-- What the table says of a name.
abbrev pub view : Store → Registry
view s = view_rows s.domains

-- No two rows have the same id or the same name.
abbrev pub AreDistinct : List Domain → Type 0
AreDistinct [] = Unit
AreDistinct (d ∷ ds) = (any (is_taken d) ds ≡ false) × AreDistinct ds
