-- ===== src/Evaluations/Reconcile.antt =====
-- apps/api/src/alerts/run-alert-reconciler.ts: `evaluateClaim`, `reconcileRun` and the loop of
-- `reconcilePending`. Whether a run's evaluation and the message that follows it return without an
-- error is the parameter `works`; the times and the tokens are numbered by the round.
use price_monitor.Prelude.{
  ℕ, zero, suc, Bool, Option, none, some, if◌then◌else◌, Text, Result, ok, err, ◌>>=◌,
}
use price_monitor.Evaluations.{
  Table, Claim, EvaluationError, claim_run, mark_evaluated, record_failure,
}

-- The `catch` of `evaluateClaim`.
abbrev pub or_failure : Claim → Table → Result EvaluationError Table → Result EvaluationError Table
or_failure c t (ok u) = ok u
or_failure c t (err e) = record_failure c t

unfoldable pub evaluate_claim : (Text → Bool) → ℕ → Claim → Table → Result EvaluationError Table
evaluate_claim works at c t =
    if works c.run_id then or_failure c t (mark_evaluated c at t) else record_failure c t

abbrev pub proceed :
    (Text → Bool)
    → ℕ
    → Option Claim
    → Table
    → (Table → Result EvaluationError Table)
    → Result EvaluationError Table
proceed works at none t next = ok t
proceed works at (some c) t next = evaluate_claim works at c t >>= next

-- `reconcileRun`.
unfoldable pub reconcile_run :
    (Text → Bool) → ℕ → ℕ → Text → Text → Table → Result EvaluationError Table
reconcile_run works now at token run t =
    let claimed = claim_run (some run) now token t in
    proceed works at claimed.0 claimed.1 (λ u. ok u)

-- The loop of `reconcilePending`: the rounds that are left, and the number of the round.
unfoldable pub reconcile_pending :
    (Text → Bool) → ℕ → (ℕ → ℕ) → (ℕ → Text) → ℕ → ℕ → Table → Result EvaluationError Table
reconcile_pending works now clock tokens zero index t = ok t
reconcile_pending works now clock tokens (suc limit) index t =
    let claimed = claim_run none now (tokens index) t in
    proceed works (clock index) claimed.0 claimed.1
      (λ u. reconcile_pending works now clock tokens limit (suc index) u)
