-- ===== src/Evaluations/Pending.antt =====
-- What the reconciler's loop leaves.
use mathlib.Core.List.{Memᴰ}
use price_monitor.Prelude.{
  ℕ, zero, suc, ◌+◌, ◌-◌, Bool, true, false, Option, none, some, List, [], ◌∷◌, ◌≡◌, refl, sym, ap,
  ◌∙◌, inl, inr, filter, length, head?, Memᴰ-head?, Memᴰ-filter, Memᴰ_of_sort, Bool-cases,
  Option-cases, &&-left, Text, text_eq, text_eq→eq, text_eq_refl, arith, Result, ok,
}
use price_monitor.Report.Counting.{length-sort}
use price_monitor.Evaluations.{
  Row, Table, Claim, EvaluationError, is_free, is_claimable, update_where, count_where,
  compare_pending, candidate, granted_row, is_target, claim_row, claim_run, is_held, complete,
  evaluated_row, failed_row, mark_evaluated, record_failure,
}
use price_monitor.Evaluations.Tables.{
  IsUnique, update_where-IsUnique, unique-eq, count_where-one, update_where-leaves,
  update_where-stays,
}
use price_monitor.Evaluations.Reconcile.{or_failure, evaluate_claim, proceed, reconcile_pending}

head?-none {ℓ} : {A : Type ℓ} (xs : List A) → head? xs ≡ none → length xs ≡ 0
head?-none [] h = refl
head?-none (x ∷ xs) h = cc

candidate-none :
    (now : ℕ) (t : Table) → candidate none now t ≡ none → count_where (is_claimable now) t ≡ 0
unfolding candidate
candidate-none now t h =
    sym (length-sort compare_pending (filter (is_claimable now) t)) ∙ head?-none _ h

candidate-some :
    (now : ℕ) (t : Table) {c : Row}
    → candidate none now t ≡ some c
    → Memᴰ c t × (is_claimable now c ≡ true)
unfolding candidate
candidate-some now t h =
    Memᴰ-filter (is_claimable now) t (Memᴰ_of_sort compare_pending _ (Memᴰ-head? _ h))

-- A run that was attempted at a time is not claimable at that time.
attempted-is_claimable :
    (now : ℕ) (r : Row) → r.last_attempt_at ≡ some now → is_claimable now r ≡ false
unfolding is_claimable
attempted-is_claimable now r e = rw e (ground arith)

is_claimable-free : (now : ℕ) (r : Row) → is_claimable now r ≡ true → is_free now r ≡ true
unfolding is_claimable
is_claimable-free now r h = ground arith

is_target_self : (now : ℕ) (c : Row) → is_claimable now c ≡ true → is_target now c c ≡ true
unfolding is_target
is_target_self now c h = rw (text_eq_refl c.id, is_claimable-free now c h)

is_target_id : (now : ℕ) (c x : Row) → is_target now c x ≡ true → x.id ≡ c.id
unfolding is_target
is_target_id now c x h = text_eq→eq x.id c.id (&&-left _ _ h)

abbrev claim_of : Text → Row → Claim
claim_of token c = record { run_id = c.id; token = token }

-- The table after a claim.
abbrev claimed_table : ℕ → Text → Row → Table → Table
claimed_table now token c t = update_where (is_target now c) (granted_row now token) t

claim_row-grants :
    (now : ℕ) (token : Text) (t : Table) (c : Row)
    → IsUnique t
    → Memᴰ c t
    → is_claimable now c ≡ true
    → claim_row now token t (some c) ≡ (some (claim_of token c), claimed_table now token c t)
unfolding claim_row
claim_row-grants now token t c u m h =
    let once : count_where (is_target now c) t ≡ 1 =
      count_where-one (is_target now c) t u m (is_target_self now c h) (is_target_id now c) in
    rw once

granted_row-attempted :
    (now : ℕ) (token : Text) (r : Row) → (granted_row now token r).last_attempt_at ≡ some now
unfolding granted_row
granted_row-attempted now token r = refl

claimed_table-leaves :
    (now : ℕ) (token : Text) (t : Table) (c : Row)
    → IsUnique t
    → Memᴰ c t
    → is_claimable now c ≡ true
    → count_where (is_claimable now) (claimed_table now token c t) + 1
      ≡ count_where (is_claimable now) t
claimed_table-leaves now token t c u m h =
    let once : count_where (is_target now c) t ≡ 1 =
      count_where-one (is_target now c) t u m (is_target_self now c h) (is_target_id now c) in
    let step =
      update_where-leaves (is_claimable now) (is_target now c) (granted_row now token) t (λ x k hit.
        let same : x ≡ c = unique-eq t u k m (is_target_id now c x hit) in
        (
          ap (is_claimable now) same ∙ h,
          attempted-is_claimable now (granted_row now token x) (granted_row-attempted now token x),
        )) in
    omega arith

Memᴰ-update_where_of :
    (p : Row → Bool) (change : Row → Row) {r : Row} {t : Table}
    → Memᴰ r t
    → p r ≡ true
    → Memᴰ (change r) (update_where p change t)
Memᴰ-update_where_of p change {r} (Memᴰ.head {x} {xs} e) h =
    let hit : p x ≡ true = ap p (sym e) ∙ h in rw hit (Memᴰ.head (ap change e))
Memᴰ-update_where_of p change (Memᴰ.tail {x} {xs} m) h =
    Memᴰ.tail (Memᴰ-update_where_of p change m h)

is_held-granted :
    (now : ℕ) (token : Text) (c : Row)
    → is_free now c ≡ true
    → is_held (claim_of token c) (granted_row now token c) ≡ true
unfolding is_held granted_row is_free
is_held-granted now token c h = rw (text_eq_refl c.id, text_eq_refl token) (ground arith)

is_held-id : (c : Claim) (x : Row) → is_held c x ≡ true → x.id ≡ c.run_id
unfolding is_held
is_held-id c x h = let e : text_eq x.id c.run_id ≡ true = ground arith in text_eq→eq x.id c.run_id e

-- What a report of the attempt at a time leaves: it is accepted, and nothing more is claimable.
abbrev Leaves : ℕ → Table → Result EvaluationError Table → Type 0
Leaves now t r =
    (v : Table) × (r ≡ ok v)
    × IsUnique v
    × (count_where (is_claimable now) v ≡ count_where (is_claimable now) t)

complete-Leaves :
    (now : ℕ) (token : Text) (t : Table) (c : Row) (change : Row → Row)
    → ((r : Row) → (change r).id ≡ r.id)
    → ((r : Row) → (change r).last_attempt_at ≡ r.last_attempt_at)
    → IsUnique t
    → Memᴰ c t
    → is_claimable now c ≡ true
    → Leaves now
        (claimed_table now token c t)
        (complete (claim_of token c) change (claimed_table now token c t))
unfolding complete granted_row
complete-Leaves now token t c change keeps same u m h =
    let w = claimed_table now token c t in
    let k = claim_of token c in
    let unique : IsUnique w =
      update_where-IsUnique (is_target now c) (granted_row now token) t (λ r. refl) u in
    let here : Memᴰ (granted_row now token c) w =
      Memᴰ-update_where_of (is_target now c) (granted_row now token) m (is_target_self now c h) in
    let held = is_held-granted now token c (is_claimable-free now c h) in
    let once : count_where (is_held k) w ≡ 1 =
      count_where-one (is_held k) w unique here held (is_held-id k) in
    (
      update_where (is_held k) change w,
      rw once refl,
      update_where-IsUnique (is_held k) change w keeps unique,
      update_where-stays (is_claimable now) (is_held k) change w (λ x n hit.
          let e : x ≡ granted_row now token c = unique-eq w unique n here (is_held-id k x hit) in
          let at : x.last_attempt_at ≡ some now = ap Row.last_attempt_at e in
          attempted-is_claimable now (change x) (same x ∙ at)
          ∙ sym (attempted-is_claimable now x at)),
    )

or_failure-ok :
    (c : Claim) (t v : Table) (r : Result EvaluationError Table)
    → r ≡ ok v
    → or_failure c t r ≡ ok v
or_failure-ok c t v r e = rw e refl

evaluate_claim-Leaves :
    (works : Text → Bool) (now at : ℕ) (token : Text) (t : Table) (c : Row)
    → IsUnique t
    → Memᴰ c t
    → is_claimable now c ≡ true
    → Leaves now
        (claimed_table now token c t)
        (evaluate_claim works at (claim_of token c) (claimed_table now token c t))
unfolding evaluate_claim mark_evaluated record_failure evaluated_row failed_row
evaluate_claim-Leaves works now at token t c u m h = elim (Bool-cases (works c.id)) [
  | inl fine ↦
      (let (v, e, unique, same) =
          complete-Leaves now token t c (evaluated_row at) (λ r. refl) (λ r. refl) u m h in
        (v, rw fine (or_failure-ok (claim_of token c) _ v _ e), unique, same))
  | inr broken ↦ rw broken (complete-Leaves now token t c failed_row (λ r. refl) (λ r. refl) u m h)
]

proceed-some :
    (works : Text → Bool) (at : ℕ) (r : Option Claim × Table)
    (next : Table → Result EvaluationError Table) {k : Claim} {w v z : Table}
    → r ≡ (some k, w)
    → evaluate_claim works at k w ≡ ok v
    → next v ≡ ok z
    → proceed works at r.0 r.1 next ≡ ok z
proceed-some works at r next er ev ez = rw (er, ev) ez

claim_row-none :
    (works : Text → Bool) (now at : ℕ) (token : Text) (t : Table)
    (next : Table → Result EvaluationError Table)
    → proceed works at (claim_row now token t none).0 (claim_row now token t none).1 next ≡ ok t
unfolding claim_row
claim_row-none works now at token t next = refl

-- The reconciler's loop ends without an error, however the evaluations of the runs go. With as many rounds
-- as runs are claimable it leaves none claimable at the time that it began at; with fewer it leaves the
-- number of those runs less the number of rounds. The condition is that the ids differ.
pub reconcile_pending-Leaves :
    (works : Text → Bool) (now : ℕ) (clock : ℕ → ℕ) (tokens : ℕ → Text) (limit index : ℕ)
    (t : Table)
    → IsUnique t
    → (v : Table) × (reconcile_pending works now clock tokens limit index t ≡ ok v)
      × IsUnique v
      × (count_where (is_claimable now) v ≡ count_where (is_claimable now) t - limit)
unfolding reconcile_pending claim_run
reconcile_pending-Leaves works now clock tokens zero index t u = (t, refl, u, omega arith)
reconcile_pending-Leaves works now clock tokens (suc limit) index t u =
    elim (Option-cases (candidate none now t)) [
      | inl nothing ↦
          (let empty = candidate-none now t nothing in
            (
              t,
              ap
                    (λ c.
                      proceed works (clock index) (claim_row now (tokens index) t c).0
                        (claim_row now (tokens index) t c).1
                        (reconcile_pending works now clock tokens limit (suc index)))
                    nothing
                  ∙ claim_row-none works now _ _ t _,
              u,
              omega arith,
            ))
      | inr (c, found) ↦
          (let (m, h) = candidate-some now t found in
            let (v, e, unique, same) =
              evaluate_claim-Leaves works now (clock index) (tokens index) t c u m h in
            let (z, ez, uz, left) =
              reconcile_pending-Leaves works now clock tokens limit (suc index) v unique in
            let fewer = claimed_table-leaves now (tokens index) t c u m h in
            let granted = claim_row-grants now (tokens index) t c u m h in
            (
              z,
              proceed-some works (clock index) _ _
                  (ap (claim_row now (tokens index) t) found ∙ granted) e ez,
              uz,
              omega arith,
            ))
    ]
