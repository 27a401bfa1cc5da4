-- ===== src/Recovery/Claims.antt =====
-- Which deployments a recovery claims.
use hostingservices.Common.{ℕ, ◌≡◌, String, true, Option, some, List, In}
use hostingservices.Recovery.{NodeRow, Recoverable, Claimed, claim_metadata, is_listed, claim_rows}

-- What a claimed deployment is in the rows of the scan.
abbrev Source : (now : ℕ) → List NodeRow → Option String → List Recoverable → Claimed → Type 0
Source now nodes requested rows c =
    (d : Recoverable) × In d rows
    × (is_listed d ≡ true)
    × (c.id ≡ d.id)
    × (claim_metadata now nodes requested d.metadata ≡ some (c.metadata, c.recovery_node_name))

module _ (now limit : ℕ) (nodes : List NodeRow) (requested : Option String) (d : Recoverable)
    (ds : List Recoverable) where
  abbrev claims : ℕ → List Recoverable → List Claimed
  claims limit rows = (claim_rows now limit nodes requested rows).1
