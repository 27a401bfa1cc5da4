-- ===== src/Gates/Blocking.antt =====
-- Which gates block a release.
use hostingservices.Common.{
  ◌≡◌, ◌⊎◌, ◌↔◌, inl, inr, refl, Bool, true, false, List, [], ◌∷◌, ◌&&◌, not, keep, keep-nil, map,
  All, arith, ap, sym, subst, ◌∙◌, Bool-cases, if◌then◌else◌,
}
use hostingservices.Gates.{
  GateConfig, GateResult, Context, status_of, run_one, is_deferred, is_failed, blocks, released,
  blocked, names_of, is_empty, conclude, assert_pre_release_gates, Record, run_all,
  run_pre_release_gates,
}

-- The gate does not block a release before it: it waits for the release, is not required, or does
-- not fail.
abbrev pub Lets : Context → GateConfig → Type 0
Lets ctx gate =
    (is_deferred gate ≡ true) ⊎ (gate.required ≡ false) ⊎ (is_failed (status_of gate ctx) ≡ false)

conclude-released :
    (results : List GateResult)
    → ((rs : List GateResult) × (conclude results ≡ released rs))
      ↔ All (λ r. blocks r ≡ false) results
unfolding conclude
conclude-released results = (
  λ (rs, h). (keep-nil blocks results).0 (empty (keep blocks results) h),
  λ h. (results, rw ((keep-nil blocks results).1 h) refl),
)
  where
    empty :
        (bs : List GateResult)
        → {rs : List GateResult}
        → (if is_empty (names_of bs) then released results else blocked (names_of bs)) ≡ released rs
        → bs ≡ []
    empty [] h = refl
    empty (b ∷ bs) h = cc

blocks-Lets :
    (ctx : Context) (gate : GateConfig)
    → is_deferred gate ≡ false
    → (blocks (run_one gate ctx) ≡ false) ↔ Lets ctx gate
unfolding run_one
blocks-Lets ctx gate h = (
  λ k. parts gate.required (is_failed (status_of gate ctx)) k,
  λ l. joined gate.required (is_failed (status_of gate ctx)) l,
)
  where
    parts : (r f : Bool) → (r && f) ≡ false → (is_deferred gate ≡ true) ⊎ (r ≡ false) ⊎ (f ≡ false)
    parts true f e = inr (inr e)
    parts false f e = inr (inl refl)

    true_not_false : true ≡ false → ⊥
    true_not_false e = cc

    joined : (r f : Bool) → (is_deferred gate ≡ true) ⊎ (r ≡ false) ⊎ (f ≡ false) → (r && f) ≡ false
    joined r f (inl e) = absurd (true_not_false (sym e ∙ h))
    joined r f (inr (inl e)) = rw e refl
    joined r f (inr (inr e)) = ground (arith, e)

abbrev pre : List GateConfig → List GateConfig
pre = keep (λ gate. not (is_deferred gate))

abbrev NoneBlocks : Context → List GateConfig → Type 0
NoneBlocks ctx gates = All (λ r. blocks r ≡ false) (map (λ gate. run_one gate ctx) gates)

pre-deferred :
    (g : GateConfig) (gates : List GateConfig) → is_deferred g ≡ true → pre (g ∷ gates) ≡ pre gates
pre-deferred g gates e = rw e refl

pre-kept :
    (g : GateConfig) (gates : List GateConfig)
    → is_deferred g ≡ false
    → pre (g ∷ gates) ≡ g ∷ pre gates
pre-kept g gates e = rw e refl

all-Lets :
    (ctx : Context) (gates : List GateConfig) → NoneBlocks ctx (pre gates) ↔ All (Lets ctx) gates
all-Lets ctx [] = (λ h. tt, λ h. tt)
all-Lets ctx (g ∷ gates) =
    let rest = all-Lets ctx gates in
    elim (Bool-cases (is_deferred g)) [
      | inl e ↦
          let same = pre-deferred g gates e in
          (
            λ h. (inl e, rest.0 (subst (NoneBlocks ctx) same h)),
            λ h. subst (NoneBlocks ctx) (sym same) (rest.1 h.1),
          )
      | inr e ↦
          let same = pre-kept g gates e in
          let one = blocks-Lets ctx g e in
          (
            λ h. let k = subst (NoneBlocks ctx) same h in (one.0 k.0, rest.0 k.1),
            λ h. subst (NoneBlocks ctx) (sym same) (one.1 h.0, rest.1 h.1),
          )
    ]

-- The gates before a release let it pass exactly when every gate waits for the release, is not
-- required or does not fail.
pub assert_pre_release_gates-released :
    (gates : List GateConfig) (ctx : Context)
    → ((rs : List GateResult) × (assert_pre_release_gates gates ctx ≡ released rs))
      ↔ All (Lets ctx) gates
unfolding assert_pre_release_gates
assert_pre_release_gates-released gates ctx =
    let results = map (λ gate. run_one gate ctx) (keep (λ gate. not (is_deferred gate)) gates) in
    let one = conclude-released results in
    let other = all-Lets ctx gates in (λ h. other.0 (one.0 h), λ h. one.1 (other.1 h))

run_all-map :
    (run : GateConfig → GateResult) (gates : List GateConfig) (s : Record)
    → (run_all run gates s).0 ≡ map run gates
unfolding run_all
run_all-map run [] s = refl
run_all-map run (g ∷ gates) s = ap (◌∷◌ (run g)) (run_all-map run gates _)

-- The gates that are kept in the database and those that are only asserted decide alike.
pub run_pre_release_gates-assert :
    (gates : List GateConfig) (ctx : Context) (s : Record)
    → (run_pre_release_gates gates ctx s).0 ≡ assert_pre_release_gates gates ctx
unfolding run_pre_release_gates assert_pre_release_gates
run_pre_release_gates-assert gates ctx s =
    ap conclude
      (run_all-map (λ gate. run_one gate ctx) (keep (λ gate. not (is_deferred gate)) gates) s)
