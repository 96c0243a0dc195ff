-- ===== src/Comparison/Evaluate.antt =====
-- run-sku-comparison.ts `evaluateRunSkuCombinations`.
use price_monitor.Prelude.{
  ℕ, Bool, true, false, Option, none, some, List, [], ◌∷◌, ◌++◌, filter, length, Text, Dict, put,
  values, sort, Ordering,
}
use price_monitor.Comparison.{Candidate, compare_candidate, compare_identity}
use price_monitor.Comparison.Own.{OwnRows, Baseline, own_rows, baselines, selected_own, primary_own}
use price_monitor.Comparison.Classify.{
  State, review_state, Decision, Alert, MissingEntry, Round, Context, classify,
}
use price_monitor.Comparison.Missing.{MissingGroup, missing_groups}

-- `RunSkuComparisonResult`.
pub record Comparison : Type 0 where
  pub decisions : Dict Decision
  pub baselines : List Baseline
  pub alerts : List Alert
  pub missing_groups : List MissingGroup
  pub review_count : ℕ
  pub primary_own : Option Text

-- `bySnapshotId`, `alertEntries` and `missingEntries`.
pub record Entries : Type 0 where
  pub decisions : Dict Decision
  pub alerts : List Alert
  pub missing : List MissingEntry

abbrev pub push {ℓ} : {A : Type ℓ} → Option A → List A → List A
push none xs = xs
push (some a) xs = xs ++ a ∷ []

unfoldable pub record_round : Candidate → Round → Entries → Entries
record_round c r e = record {
  decisions = put c.snapshot_id r.decision e.decisions;
  alerts = push r.alert e.alerts;
  missing = push r.missing e.missing;
}

-- The main loop.
unfoldable pub run_rounds : Context → List Candidate → Entries → Entries
run_rounds ctx [] e = e
run_rounds ctx (c ∷ cs) e = run_rounds ctx cs (record_round c (classify ctx c) e)

abbrev is_review : State → Bool
is_review review_state = true
is_review _ = false

abbrev pub context : Bool → OwnRows → Context
context complete rows = record {
  catalog_complete = complete;
  selected = selected_own rows;
  all_own = rows.all_own;
}

unfoldable pub compare_alert : Alert → Alert → Ordering
compare_alert a b = compare_identity a.candidate b.candidate

-- The part of `evaluateRunSkuCombinations` below the sort of the candidates.
unfoldable pub evaluate_sorted : Bool → List Candidate → Comparison
evaluate_sorted complete cs =
    let rows = own_rows cs in
    let e =
      run_rounds (context complete rows) cs
        (record { decisions = []; alerts = []; missing = [] }) in
    record {
      decisions = e.decisions;
      baselines = baselines rows;
      alerts = sort compare_alert e.alerts;
      missing_groups = missing_groups e.missing;
      review_count = length (filter (λ (d : Decision). is_review d.state) (values e.decisions));
      primary_own = primary_own rows;
    }

unfoldable pub evaluate : Bool → List Candidate → Comparison
evaluate complete cs = evaluate_sorted complete (sort compare_candidate cs)
