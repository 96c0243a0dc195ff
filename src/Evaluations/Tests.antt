-- ===== src/Evaluations/Tests.antt =====
-- Two runs that wait for their evaluation.
use mathlib.Core.List.{Memᴰ}
use price_monitor.Prelude.{
  ◌+◌, ◌-◌, ◌*◌, ◌≤◌, Bool, none, some, [], ◌∷◌, ◌≡◌, refl, length, Text, codes, text_eq, sort,
  insert, ok, arith,
}
use price_monitor.Evaluations
use price_monitor.Evaluations.{
  Row, Table, Claim, evaluation_version, absent, is_claimable, count_where, claim_run,
  mark_evaluated,
}
use price_monitor.Evaluations.Tables.{IsUnique, total_attempts}
use price_monitor.Evaluations.Attempts.{
  Step, claims, evaluates, Trace, stays, goes, IsSound, Trace-bound, Trace-evaluated,
}
use price_monitor.Evaluations.Reconcile
use price_monitor.Evaluations.Reconcile.{reconcile_pending}
use price_monitor.Evaluations.Pending.{reconcile_pending-Leaves}

abbrev waiting : Text → Row
waiting id = record {
  id = id;
  version = some evaluation_version;
  report_digest = some (codes "d");
  finished_at = some 5;
  created_at = 1;
  evaluated_at = none;
  attempts = 0;
  last_attempt_at = none;
  token = none;
  started_at = none;
  error = none;
}

abbrev table : Table
table = waiting (codes "a") ∷ waiting (codes "b") ∷ []

abbrev first_claim : Claim
first_claim = record { run_id = codes "a"; token = codes "t" }

unfoldable evaluations : Unit {0}
unfolding claim_run Evaluations.claim_row Evaluations.candidate is_claimable Evaluations.is_free
    Evaluations.compare_pending Evaluations.granted_row Evaluations.is_target Evaluations.is_held
    Evaluations.complete Evaluations.evaluated_row Evaluations.failed_row mark_evaluated
    Evaluations.record_failure reconcile_pending Reconcile.evaluate_claim text_eq sort insert
evaluations = tt

table-IsUnique : IsUnique table
unfolding evaluations
table-IsUnique = ((refl, tt), (tt, tt))

-- The table after the claim of the first run, and after its evaluation.
abbrev running : Table
running =
    record (waiting (codes "a")) {
      token = some (codes "t");
      started_at = some 9;
      last_attempt_at = some 9;
      attempts = 1;
    }
    ∷ waiting (codes "b")
    ∷ []

abbrev evaluated : Row
evaluated = record (waiting (codes "a")) {
  evaluated_at = some 10;
  last_attempt_at = some 9;
  attempts = 1;
}

abbrev settled : Table
settled = evaluated ∷ waiting (codes "b") ∷ []

claim-Step : Step table running 1
unfolding evaluations
claim-Step = claims none 9 (codes "t") table

evaluate-Step : Step running settled 0
unfolding evaluations
evaluate-Step = evaluates first_claim 10 running settled refl

two_steps : Trace table settled 1
two_steps =
    goes table running settled 1 0 claim-Step
      (goes running settled settled 0 0 evaluate-Step (stays settled))

table-IsSound : IsSound table
table-IsSound = (table-IsUnique, (omega arith, (omega arith, tt)))

Trace-bound_example :
    IsSound settled
    × (total_attempts settled ≡ total_attempts table + 1)
    × (total_attempts table + 1 ≤ 3 * length table)
Trace-bound_example = Trace-bound two_steps table-IsSound

-- A second claim after the evaluation goes to the other run.
abbrev busy : Table
busy =
    evaluated
    ∷ record (waiting (codes "b")) {
      token = some (codes "u");
      started_at = some 20;
      last_attempt_at = some 20;
      attempts = 1;
    }
    ∷ []

next_claim : Trace settled busy 1
unfolding evaluations
next_claim = goes settled busy busy 1 0 (claims none 20 (codes "u") settled) (stays busy)

Trace-evaluated_example : Memᴰ evaluated busy
Trace-evaluated_example = Trace-evaluated next_claim (Memᴰ.head refl) refl

abbrev a_works : Text → Bool
a_works id = Evaluations.is_text id (some (codes "a"))

reconcile_pending-Leaves_example :
    (v : Table) × (reconcile_pending a_works 9 (λ n. n) (λ n. n ∷ []) 5 0 table ≡ ok v)
    × IsUnique v
    × (count_where (is_claimable 9) v ≡ count_where (is_claimable 9) table - 5)
reconcile_pending-Leaves_example =
    reconcile_pending-Leaves a_works 9 (λ n. n) (λ n. n ∷ []) 5 0 table table-IsUnique
