-- ===== src/Recovery/Targets.antt =====
-- The node that a deployment is claimed for, and a claim that is repeated.
use hostingservices.Common.{
  ℕ, ◌≡◌, ◌⊎◌, inl, inr, refl, String, true, false, Option, none, some, List, [], ◌∷◌, get_or,
  find_sound, keep, first, first-In, sort_by, In-sort_by, In, In-keep, str_eq, eq_iff, arith,
  Bool-cases, Option-cases, ap, sym, ◌∙◌, subst,
}
use hostingservices.Recovery.{
  NodeRow, Metadata, DeploymentSpec, name_of, by_name, has_room, is_less_loaded, original_node,
  existing_healthy, or_node, target_node, claimed_metadata, already_claimed, accepts,
  claim_metadata,
}

existing_healthy-In :
    (nodes : List NodeRow) (m : Metadata) (r : NodeRow)
    → existing_healthy nodes m ≡ some r
    → In r nodes
unfolding existing_healthy
existing_healthy-In nodes m r h = elim (Bool-cases (str_eq (get_or m.recovery_node_name "") "")) [
  | inl e ↦ ground (arith, h, e)
  | inr e ↦
      (find_sound (λ (r : NodeRow). str_eq (name_of r) (get_or m.recovery_node_name "")) nodes
        (found e)).1
]
  where
    found :
        str_eq (get_or m.recovery_node_name "") "" ≡ false
        → by_name (get_or m.recovery_node_name "") nodes ≡ some r
    found e = ground (arith, h, e)

or_node-cases :
    (a b : Option NodeRow) (r : NodeRow) → or_node a b ≡ some r → (a ≡ some r) ⊎ (b ≡ some r)
or_node-cases none b r h = inr h
or_node-cases (some x) b r h = inl h

-- The node of a claim is one of the healthy nodes.
target_node-In :
    (nodes : List NodeRow) (m : Metadata) (spec : DeploymentSpec) (r : NodeRow)
    → target_node nodes m spec ≡ some r
    → In r nodes
unfolding target_node
target_node-In nodes m spec r h =
    let roomy = keep (has_room spec) nodes in
    let sorted = sort_by is_less_loaded roomy in
    elim (or_node-cases (existing_healthy nodes m) _ r h) [
      | inl e ↦ existing_healthy-In nodes m r e
      | inr k ↦ elim (or_node-cases (by_name (original_node m spec) nodes) (first sorted) r k) [
        | inl e ↦
            (find_sound (λ (x : NodeRow). str_eq (name_of x) (original_node m spec)) nodes e).1
        | inr e ↦
            (In-keep (has_room spec) nodes
              ((In-sort_by is_less_loaded roomy r).0 (first-In sorted e))).1
      ]
    ]

-- The parts of a claim.
record Claim (now : ℕ) (nodes : List NodeRow) (requested : Option String) (m m' : Metadata)
    (t : String) : Type 0 where
  spec : DeploymentSpec
  row : NodeRow
  given : m.deployment_spec ≡ some spec
  targeted : target_node nodes m spec ≡ some row
  accepted : accepts requested (name_of row) ≡ true
  named : name_of row ≡ t
  result : ((already_claimed nodes m t ≡ true) × (m ≡ m')) ⊎ (claimed_metadata now m spec t ≡ m')

claim_metadata-Claim :
    (now : ℕ) (nodes : List NodeRow) (requested : Option String) (m m' : Metadata) (t : String)
    → claim_metadata now nodes requested m ≡ some (m', t)
    → Claim now nodes requested m m' t
unfolding claim_metadata
claim_metadata-Claim now nodes requested m m' t h = elim (Option-cases m.deployment_spec) [
  | inl e ↦ ground (arith, h, e)
  | inr (spec, e) ↦ elim (Option-cases (target_node nodes m spec)) [
    | inl k ↦ ground (arith, h, e, k)
    | inr (row, k) ↦ record {
      spec = spec;
      row = row;
      given = e;
      targeted = k;
      accepted = ground (arith, h, e, k);
      named = ground (arith, h, e, k);
      result = elim (Bool-cases (already_claimed nodes m (name_of row))) [
        | inl a ↦ inl (ground (arith, h, e, k, a), ground (arith, h, e, k, a))
        | inr a ↦ inr (ground (arith, h, e, k, a))
      ];
    }
  ]
]

claimed_name :
    (nodes : List NodeRow) (m : Metadata) (t : String)
    → already_claimed nodes m t ≡ true
    → m.recovery_node_name ≡ some t
unfolding existing_healthy
claimed_name nodes m t h = ground (arith, h, eq_iff (get_or m.recovery_node_name "") t)

pub claim_metadata-target :
    (now : ℕ) (nodes : List NodeRow) (requested : Option String) (m m' : Metadata) (t : String)
    → claim_metadata now nodes requested m ≡ some (m', t)
    → (accepts requested t ≡ true)
      × (m'.recovery_node_name ≡ some t)
      × (r : NodeRow) × In r nodes
      × (name_of r ≡ t)
claim_metadata-target now nodes requested m m' t h =
    let c = claim_metadata-Claim now nodes requested m m' t h in
    (
      ap (accepts requested) (sym c.named) ∙ c.accepted,
      elim c.result [
        | inl (a, e) ↦
            subst (λ (x : Metadata). x.recovery_node_name ≡ some t) e (claimed_name nodes m t a)
        | inr e ↦ subst (λ (x : Metadata). x.recovery_node_name ≡ some t) e refl
      ],
      c.row,
      target_node-In nodes m c.spec c.row c.targeted,
      c.named,
    )

find-In :
    (name : String) (nodes : List NodeRow) (r : NodeRow)
    → In r nodes
    → name_of r ≡ name
    → (x : NodeRow) × (by_name name nodes ≡ some x)
find-In name [] r i e = absurd i
find-In name (y ∷ nodes) r i e = elim (Bool-cases (str_eq (name_of y) name)) [
  | inl k ↦ (y, rw k refl)
  | inr k ↦ let (x, found) = rest k (λ j. find-In name nodes r j e) i in (x, rw k found)
]
  where
    other : str_eq (name_of y) name ≡ false → name_of y ≡ name → ⊥
    other k e = ground (arith, k, (eq_iff (name_of y) name).1 e)

    rest :
        str_eq (name_of y) name ≡ false
        → (In r nodes → (x : NodeRow) × (by_name name nodes ≡ some x))
        → In r (y ∷ nodes)
        → (x : NodeRow) × (by_name name nodes ≡ some x)
    rest k later (inl same) = absurd (other k (ap name_of same ∙ e))
    rest k later (inr j) = later j

existing_healthy-named :
    (nodes : List NodeRow) (m : Metadata) (t : String) (x : NodeRow)
    → m.recovery_node_name ≡ some t
    → str_eq t "" ≡ false
    → by_name t nodes ≡ some x
    → existing_healthy nodes m ≡ some x
unfolding existing_healthy
existing_healthy-named nodes m t x named nonempty found = ground (arith, named, nonempty, found)

target_node-existing :
    (nodes : List NodeRow) (m : Metadata) (spec : DeploymentSpec) (x : NodeRow)
    → existing_healthy nodes m ≡ some x
    → target_node nodes m spec ≡ some x
unfolding target_node
target_node-existing nodes m spec x e = rw e refl

already_claimed-existing :
    (nodes : List NodeRow) (m : Metadata) (t : String) (x : NodeRow)
    → m.recovery_node_name ≡ some t
    → existing_healthy nodes m ≡ some x
    → already_claimed nodes m t ≡ true
already_claimed-existing nodes m t x named e = rw (e, named, (eq_iff t t).1 refl) refl

claim_metadata-keeps :
    (now : ℕ) (nodes : List NodeRow) (requested : Option String) (m : Metadata)
    (spec : DeploymentSpec) (t : String) (x : NodeRow)
    → m.deployment_spec ≡ some spec
    → m.recovery_node_name ≡ some t
    → str_eq t "" ≡ false
    → by_name t nodes ≡ some x
    → name_of x ≡ t
    → accepts requested t ≡ true
    → claim_metadata now nodes requested m ≡ some (m, t)
unfolding claim_metadata
claim_metadata-keeps now nodes requested m spec t x given named nonempty found same accepted =
    let existing = existing_healthy-named nodes m t x named nonempty found in
    ground (
      arith,
      given,
      target_node-existing nodes m spec x existing,
      same,
      accepted,
      already_claimed-existing nodes m t x named existing,
    )

-- A claim of a deployment stays as it is: while a node with the name of the claim's node is
-- healthy, every later scan that accepts this node returns the same metadata and the same node,
-- the lease of the first claim included. The node's name is not empty.
pub claim_metadata-again :
    (now later : ℕ) (nodes nodes' : List NodeRow) (requested requested' : Option String)
    (m m' : Metadata) (t : String) (r : NodeRow)
    → str_eq t "" ≡ false
    → claim_metadata now nodes requested m ≡ some (m', t)
    → In r nodes'
    → name_of r ≡ t
    → accepts requested' t ≡ true
    → claim_metadata later nodes' requested' m' ≡ some (m', t)
claim_metadata-again now later nodes nodes' requested requested' m m' t r nonempty h i e accepted =
    let c = claim_metadata-Claim now nodes requested m m' t h in
    let (spec, given) = kept c in
    let (x, found) = find-In t nodes' r i e in
    claim_metadata-keeps later nodes' requested' m' spec t x given
      (claim_metadata-target now nodes requested m m' t h).1 nonempty found (same x found) accepted
  where
    kept :
        Claim now nodes requested m m' t
        → (spec : DeploymentSpec) × (m'.deployment_spec ≡ some spec)
    kept c = elim c.result [
      | inl (a, e) ↦ (c.spec, subst (λ (x : Metadata). x.deployment_spec ≡ some c.spec) e c.given)
      | inr e ↦ (
        record c.spec { node_name = some t; original_node_name = some (original_node m c.spec) },
        ap (λ (x : Metadata). x.deployment_spec) (sym e),
      )
    ]

    same : (x : NodeRow) → by_name t nodes' ≡ some x → name_of x ≡ t
    same x found =
        (eq_iff (name_of x) t).0 (find_sound (λ (y : NodeRow). str_eq (name_of y) t) nodes' found).0
