-- ===== src/Build/Logs.antt =====
-- What the logs of apps/engine/src/build.ts hold after any writes.
use hostingservices.Common.{
  ℕ, zero, suc, ◌+◌, ◌-◌, ◌≤◌, String, Option, none, some, List, [], ◌∷◌, ◌++◌, ◌≡◌, ◌≢◌, refl, sym,
  ap, ◌∙◌, length, length-append, get_or, str_eq, eq_iff, arith, lookup, lookup-insert,
  lookup-remove, Bool-cases, inl, inr, if◌then◌else◌, append_assoc, append-nil,
}
use hostingservices.Common.Texts.{Text}
use hostingservices.Build.{
  BuildLogs, max_log_size, without, keep_last, get_build_logs, append_log, clear_build_logs,
}

length-without : (n : ℕ) (t : Text) → length (without n t) ≡ length t - n
length-without zero t = omega arith
length-without (suc n) [] = omega arith
length-without (suc n) (c ∷ t) = omega (arith, length-without n t)

without-append : (n : ℕ) (a b : Text) → n ≤ length a → without n (a ++ b) ≡ without n a ++ b
without-append zero a b h = refl
without-append (suc n) [] b h = absurd (omega (arith, h))
without-append (suc n) (c ∷ a) b h = without-append n a b (omega (arith, h))

without-without : (n m : ℕ) (t : Text) → without n (without m t) ≡ without (m + n) t
without-without n zero t = let e : n ≡ zero + n = omega arith in ap (λ k. without k t) e
without-without n (suc m) [] = without-nil n ∙ sym (without-nil (suc m + n))
  where
    without-nil : (k : ℕ) → without k [] ≡ []
    without-nil zero = refl
    without-nil (suc k) = refl
without-without n (suc m) (c ∷ t) =
    let e : suc (m + n) ≡ suc m + n = omega arith in
    without-without n m t ∙ ap (λ k. without k (c ∷ t)) e

-- Cutting before and after an append is cutting after it.
keep_last-append :
    (max : ℕ) (a b : Text) → keep_last max (keep_last max a ++ b) ≡ keep_last max (a ++ b)
keep_last-append max a b =
    let cut : ℕ = length a - max in
    let size = length-append (without cut a) b in
    let whole = length-append a b in
    let kept = length-without cut a in
    let sum : cut + (length (without cut a ++ b) - max) ≡ length (a ++ b) - max =
      omega (arith, size, whole, kept) in
    ap (without (length (without cut a ++ b) - max)) (sym (without-append cut a b (omega arith)))
    ∙ without-without (length (without cut a ++ b) - max) cut (a ++ b)
    ∙ ap (λ k. without k (a ++ b)) sum

-- What is written for an id, in its order.
abbrev pub written : String → List (Option String × Text) → Text
written id [] = []
written id ((none, t) ∷ rest) = written id rest
written id ((some other, t) ∷ rest) =
    if str_eq other id then t ++ written id rest else written id rest

unfoldable pub append_all : List (Option String × Text) → BuildLogs → BuildLogs
unfolding append_log
append_all [] logs = logs
append_all ((id, t) ∷ rest) logs = append_all rest (append_log id t logs)

get-append_log :
    (id : String) (o : Option String) (t : Text) (logs : BuildLogs)
    → id ≢ ""
    → get_build_logs id (append_log o t logs) ≡ elim o [
      | none ↦ get_build_logs id logs
      | some other ↦
          if str_eq other id
          then keep_last max_log_size (get_build_logs id logs ++ t)
          else get_build_logs id logs
    ]
unfolding get_build_logs append_log
get-append_log id none t logs n = refl
get-append_log id (some other) t logs n = elim (Bool-cases (str_eq other "")) [
  | inl k ↦ ground (arith, k, eq_iff other "", eq_iff other id, n)
  | inr k ↦ ground (
    arith,
    k,
    eq_iff other id,
    lookup-insert other id (keep_last max_log_size (get_or (lookup other logs) [] ++ t)) logs,
  )
]

get-clear : (id : String) (logs : BuildLogs) → get_build_logs id (clear_build_logs id logs) ≡ []
unfolding get_build_logs clear_build_logs
get-clear id logs = ground (arith, lookup-remove id id logs, eq_iff id id)

-- A text that is not longer than the limit, as the cut leaves it.
abbrev Fits : String → BuildLogs → Type 0
Fits id logs = keep_last max_log_size (get_build_logs id logs) ≡ get_build_logs id logs

keep_last-twice : (max : ℕ) (t : Text) → keep_last max (keep_last max t) ≡ keep_last max t
keep_last-twice max t =
    ap (keep_last max) (sym (append-nil (keep_last max t)))
    ∙ keep_last-append max t []
    ∙ ap (keep_last max) (append-nil t)

append_log-Fits :
    (id : String) (o : Option String) (t : Text) (logs : BuildLogs)
    → id ≢ ""
    → Fits id logs
    → Fits id (append_log o t logs)
append_log-Fits id none t logs n h = rw (get-append_log id none t logs n) h
append_log-Fits id (some other) t logs n h =
    let e = get-append_log id (some other) t logs n in
    elim (Bool-cases (str_eq other id)) [
      | inl k ↦ rw (e, k) (keep_last-twice max_log_size (get_build_logs id logs ++ t))
      | inr k ↦ rw (e, k) h
    ]

get-append_all :
    (id : String) (ws : List (Option String × Text)) (logs : BuildLogs)
    → id ≢ ""
    → Fits id logs
    → get_build_logs id (append_all ws logs)
      ≡ keep_last max_log_size (get_build_logs id logs ++ written id ws)
unfolding append_all
get-append_all id [] logs n h =
    sym (ap (keep_last max_log_size) (append-nil (get_build_logs id logs)) ∙ h)
get-append_all id ((o, t) ∷ rest) logs n h =
    get-append_all id rest (append_log o t logs) n (append_log-Fits id o t logs n h) ∙ first_write o
  where
    first_write :
        (o : Option String)
        → keep_last max_log_size (get_build_logs id (append_log o t logs) ++ written id rest)
          ≡ keep_last max_log_size (get_build_logs id logs ++ written id ((o, t) ∷ rest))
    first_write none = rw (get-append_log id none t logs n) refl
    first_write (some other) =
        let e = get-append_log id (some other) t logs n in
        let l = get_build_logs id logs in
        elim (Bool-cases (str_eq other id)) [
          | inl k ↦
              rw (e, k)
                (keep_last-append max_log_size (l ++ t) (written id rest)
                  ∙ ap (keep_last max_log_size) (append_assoc l t (written id rest)))
          | inr k ↦ rw (e, k) refl
        ]

-- After the log of a deployment is cleared, it holds what is written for the deployment since
-- then, in its order and cut at the front to the limit, whatever is written for others; so it is
-- never longer than the limit.
pub logs_hold :
    (id : String) (ws : List (Option String × Text)) (logs : BuildLogs)
    → id ≢ ""
    → (get_build_logs id (append_all ws (clear_build_logs id logs))
        ≡ keep_last max_log_size (written id ws))
      × (length (get_build_logs id (append_all ws (clear_build_logs id logs))) ≤ max_log_size)
logs_hold id ws logs n =
    let e =
      get-append_all id ws (clear_build_logs id logs) n
        (ap (keep_last max_log_size) (cleared) ∙ sym cleared)
      ∙ ap (λ l. keep_last max_log_size (l ++ written id ws)) cleared in
    let size = length-without (length (written id ws) - max_log_size) (written id ws) in
    (e, rw e (omega (arith, size)))
  where
    cleared : get_build_logs id (clear_build_logs id logs) ≡ []
    cleared = get-clear id logs
