-- ===== src/Evaluations/Attempts.antt =====
-- The attempts to evaluate runs, over all sequences of the repository's transactions.
use mathlib.Core.List.{Memᴰ}
use price_monitor.Prelude.{
  ℕ, suc, ◌+◌, ◌*◌, ◌≤◌, ◌<◌, Bool, true, false, Option, none, some, [], ◌∷◌, ◌≡◌, refl, sym, ap,
  ◌∙◌, subst, inl, inr, All, length, ◌==◌, if◌then◌else◌, Bool-cases, &&-left, Text, text_eq→eq,
  arith, ok, ok-injective,
}
use price_monitor.Evaluations.{
  Row, Table, Claim, max_attempts, absent, is_free, update_where, count_where, candidate,
  granted_row, is_target, claim_row, claim_run, is_held, complete, evaluated_row, failed_row,
  mark_evaluated, record_failure,
}
use price_monitor.Evaluations.Tables.{
  IsUnique, KeepsId, total_attempts, update_where-IsUnique, count_where_le, update_where-attempts,
  update_where-same_attempts,
}

abbrev pub granted : Option Claim → ℕ
granted none = 0
granted (some c) = 1

-- One transaction of any caller, with the number of claims that it grants.
pub data Step : Table → Table → ℕ → Type 0 where
  claims :
      (asked : Option Text) (now : ℕ) (token : Text) (t : Table)
      → Step t (claim_run asked now token t).1 (granted (claim_run asked now token t).0)
  evaluates : (c : Claim) (at : ℕ) (t u : Table) → mark_evaluated c at t ≡ ok u → Step t u 0
  fails : (c : Claim) (t u : Table) → record_failure c t ≡ ok u → Step t u 0

pub data Trace : Table → Table → ℕ → Type 0 where
  stays : (t : Table) → Trace t t 0
  goes : (t u v : Table) (m n : ℕ) → Step t u m → Trace u v n → Trace t v (m + n)

abbrev pub IsWithin : Row → Type 0
IsWithin r = r.attempts ≤ max_attempts

-- The table's ids are apart, and no run has more attempts than are allowed.
abbrev pub IsSound : Table → Type 0
IsSound t = IsUnique t × All IsWithin t

update_where-IsWithin :
    (p : Row → Bool) (change : Row → Row) (t : Table)
    → ((r : Row) → p r ≡ true → IsWithin r → IsWithin (change r))
    → All IsWithin t
    → All IsWithin (update_where p change t)
update_where-IsWithin p change [] k h = tt
update_where-IsWithin p change (r ∷ t) k (w, h) = elim (Bool-cases (p r)) [
  | inl hit ↦ rw hit (k r hit w, update_where-IsWithin p change t k h)
  | inr miss ↦ rw miss (w, update_where-IsWithin p change t k h)
]

length-update_where :
    (p : Row → Bool) (change : Row → Row) (t : Table) → length (update_where p change t) ≡ length t
length-update_where p change [] = refl
length-update_where p change (r ∷ t) = ap suc (length-update_where p change t)

-- What one transaction does to a sound table.
abbrev Counts : Table → Table → ℕ → Type 0
Counts t u n = IsSound u × (total_attempts u ≡ total_attempts t + n) × (length u ≡ length t)

granted_row-id : (now : ℕ) (token : Text) → KeepsId (granted_row now token)
unfolding granted_row
granted_row-id now token r = refl

granted_row-attempts :
    (now : ℕ) (token : Text) (r : Row) → (granted_row now token r).attempts ≡ suc r.attempts
unfolding granted_row
granted_row-attempts now token r = refl

is_target-id : (now : ℕ) (c x : Row) → is_target now c x ≡ true → x.id ≡ c.id
unfolding is_target
is_target-id now c x h = text_eq→eq x.id c.id (&&-left _ _ h)

is_target-attempts : (now : ℕ) (c x : Row) → is_target now c x ≡ true → x.attempts < max_attempts
unfolding is_target is_free
is_target-attempts now c x h = ground arith

granted-count : (n : ℕ) (c : Claim) → n ≤ 1 → granted (if n == 1 then some c else none) ≡ n
granted-count n c h = ground arith

claim_row-Counts :
    (now : ℕ) (token : Text) (t : Table) (c : Option Row)
    → IsSound t
    → Counts t (claim_row now token t c).1 (granted (claim_row now token t c).0)
unfolding claim_row
claim_row-Counts now token t none h = (h, omega arith, refl)
claim_row-Counts now token t (some c) (unique, within) =
    let p = is_target now c in
    let change = granted_row now token in
    let rises = update_where-attempts p change t (granted_row-attempts now token) in
    let once =
      granted-count (count_where p t) (record { run_id = c.id; token = token })
        (count_where_le p c.id t unique (is_target-id now c)) in
    (
      (
        update_where-IsUnique p change t (granted_row-id now token) unique,
        update_where-IsWithin p change t
            (λ r hit w.
              let less = is_target-attempts now c r hit in
              let e = granted_row-attempts now token r in omega arith)
            within,
      ),
      omega arith,
      length-update_where p change t,
    )

pub complete-eq-ok :
    (c : Claim) (change : Row → Row) (t : Table) {u : Table}
    → complete c change t ≡ ok u
    → update_where (is_held c) change t ≡ u
unfolding complete
complete-eq-ok c change t h = elim (Bool-cases (count_where (is_held c) t == 1)) [
  | inl current ↦ ok-injective (rw current at h)
  | inr stale ↦ cc (rw stale at h)
]

-- A report of an attempt changes no attempt's count.
complete-Counts :
    (c : Claim) (change : Row → Row) (t : Table) {u : Table}
    → KeepsId change
    → ((r : Row) → (change r).attempts ≡ r.attempts)
    → complete c change t ≡ ok u
    → IsSound t
    → Counts t u 0
complete-Counts c change t {u} keeps same h (unique, within) =
    let p = is_held c in
    subst (λ v. Counts t v 0) (complete-eq-ok c change t h)
      (
        (
          update_where-IsUnique p change t keeps unique,
          update_where-IsWithin p change t (λ r hit w. let e = same r in omega arith) within,
        ),
        (let e = update_where-same_attempts p change t same in omega arith),
        length-update_where p change t,
      )

Step-Counts : {t u : Table} {n : ℕ} → Step t u n → IsSound t → Counts t u n
unfolding claim_run mark_evaluated record_failure evaluated_row failed_row
Step-Counts (claims asked now token t) h = claim_row-Counts now token t (candidate asked now t) h
Step-Counts (evaluates c at t u e) h =
    complete-Counts c (evaluated_row at) t (λ r. refl) (λ r. refl) e h
Step-Counts (fails c t u e) h = complete-Counts c failed_row t (λ r. refl) (λ r. refl) e h

Trace-Counts : {t u : Table} {n : ℕ} → Trace t u n → IsSound t → Counts t u n
Trace-Counts (stays t) h = (h, omega arith, refl)
Trace-Counts (goes t u v m n s rest) h =
    let (sound, first, long) = Step-Counts s h in
    let (sound', second, long') = Trace-Counts rest sound in (sound', omega arith, long' ∙ long)

total_attempts_le : (t : Table) → All IsWithin t → total_attempts t ≤ 3 * length t
total_attempts_le [] h = omega arith
total_attempts_le (r ∷ t) (w, h) = let ih = total_attempts_le t h in omega arith

-- Over any sequence of transactions, of any number of callers, that starts at a table with different ids
-- and at most three attempts of each run, no run gets a fourth attempt, the ids stay different, the
-- claims that are granted are counted by the runs' attempts, and so there are at most three of them for
-- each run of the table, less those it had before.
pub Trace-bound :
    {t u : Table} {n : ℕ}
    → Trace t u n
    → IsSound t
    → IsSound u × (total_attempts u ≡ total_attempts t + n) × (total_attempts t + n ≤ 3 * length t)
Trace-bound {t} {u} trace h =
    let (sound, counted, long) = Trace-Counts trace h in
    let most : total_attempts u ≤ 3 * length u = total_attempts_le u sound.1 in
    let same : 3 * length u ≡ 3 * length t = ap (λ n. 3 * n) long in (sound, counted, omega arith)

Memᴰ-update_where :
    (p : Row → Bool) (change : Row → Row) {r : Row} {t : Table}
    → Memᴰ r t
    → p r ≡ false
    → Memᴰ r (update_where p change t)
Memᴰ-update_where p change (Memᴰ.head {x} {xs} e) h =
    let miss : p x ≡ false = ap p (sym e) ∙ h in rw miss (Memᴰ.head e)
Memᴰ-update_where p change (Memᴰ.tail {x} {xs} m) h = Memᴰ.tail (Memᴰ-update_where p change m h)

claim_row-evaluated :
    (now : ℕ) (token : Text) (t : Table) (c : Option Row) {r : Row}
    → Memᴰ r t
    → absent r.evaluated_at ≡ false
    → Memᴰ r (claim_row now token t c).1
unfolding claim_row is_target is_free
claim_row-evaluated now token t none m h = m
claim_row-evaluated now token t (some c) {r} m h =
    Memᴰ-update_where (is_target now c) (granted_row now token) m (ground arith)

complete-evaluated :
    (c : Claim) (change : Row → Row) (t : Table) {u : Table} {r : Row}
    → complete c change t ≡ ok u
    → Memᴰ r t
    → absent r.evaluated_at ≡ false
    → Memᴰ r u
unfolding is_held
complete-evaluated c change t {u} {r} e m h =
    subst (λ v. Memᴰ r v) (complete-eq-ok c change t e)
      (Memᴰ-update_where (is_held c) change m (ground arith))

Step-evaluated :
    {t u : Table} {n : ℕ} {r : Row}
    → Step t u n
    → Memᴰ r t
    → absent r.evaluated_at ≡ false
    → Memᴰ r u
unfolding claim_run mark_evaluated record_failure
Step-evaluated (claims asked now token t) m h =
    claim_row-evaluated now token t (candidate asked now t) m h
Step-evaluated (evaluates c at t u e) m h = complete-evaluated c (evaluated_row at) t e m h
Step-evaluated (fails c t u e) m h = complete-evaluated c failed_row t e m h

-- A run that is evaluated stays as it is, whatever transactions follow.
pub Trace-evaluated :
    {t u : Table} {n : ℕ} {r : Row}
    → Trace t u n
    → Memᴰ r t
    → absent r.evaluated_at ≡ false
    → Memᴰ r u
Trace-evaluated (stays t) m h = m
Trace-evaluated (goes t u v m n s rest) k h = Trace-evaluated rest (Step-evaluated s k h) h
