-- ===== src/Evaluations.antt =====
-- The evaluation of a run's alerts: apps/api/src/alerts/prisma-run-alert-evaluation.repository.ts over
-- the rows of `CollectionRun`, and apps/api/src/alerts/run-alert-reconciler.ts.
pub mod Tables
pub mod Attempts
pub mod Reconcile
pub mod Pending
pub mod Tests
use price_monitor.Prelude.{
  ℕ, suc, ◌+◌, Bool, true, false, not, ◌&&◌, ◌||◌, Option, none, some, List, [], ◌∷◌, map, filter,
  length, head?, ltb, leb, ◌==◌, if◌then◌else◌, Text, codes, text_eq, Ordering, compare, or_else,
  sort, Result, ok, err,
}

-- The columns of a run that the repository reads and writes; a time is in milliseconds.
pub record Row : Type 0 where
  pub id : Text
  pub version : Option Text
  pub report_digest : Option Text
  pub finished_at : Option ℕ
  pub created_at : ℕ
  pub evaluated_at : Option ℕ
  pub attempts : ℕ
  pub last_attempt_at : Option ℕ
  pub token : Option Text
  pub started_at : Option ℕ
  pub error : Option Text

abbrev pub Table : Type 0
Table = List Row

-- `ClaimedRunAlertEvaluation`.
pub record Claim : Type 0 where
  pub run_id : Text
  pub token : Text

-- `RunAlertEvaluationPersistenceError`.
pub data EvaluationError : Type 0 where
  persistence_error : EvaluationError

-- `CLAIM_LEASE_MILLISECONDS`, `MAX_EVALUATION_ATTEMPTS` and `RUN_ALERT_EVALUATION_VERSION`.
abbrev pub claim_lease : ℕ
claim_lease = 300000

abbrev pub max_attempts : ℕ
max_attempts = 3

abbrev pub evaluation_version : Text
evaluation_version = codes "sku-gap-report-v1"

abbrev pub absent {ℓ} : {A : Type ℓ} → Option A → Bool
absent none = true
absent (some a) = false

-- A nullable column that is equal to a text.
abbrev pub is_text : Text → Option Text → Bool
is_text t none = false
is_text t (some s) = text_eq s t

-- `{ lt: time }` or null.
abbrev pub absent_or_before : ℕ → Option ℕ → Bool
absent_or_before now none = true
absent_or_before now (some at) = ltb at now

-- `{ lte: staleBefore }`, where `staleBefore` is `now` less the lease.
abbrev pub is_stale : ℕ → Option ℕ → Bool
is_stale now none = false
is_stale now (some at) = leb (at + claim_lease) now

-- The conditions that the query and the update of `claimRun` share.
unfoldable pub is_free : ℕ → Row → Bool
is_free now r =
    is_text evaluation_version r.version
    && absent r.evaluated_at
    && ltb r.attempts max_attempts
    && (absent r.token || is_stale now r.started_at)

-- The condition of the query, without that on the run's id.
unfoldable pub is_claimable : ℕ → Row → Bool
is_claimable now r =
    is_free now r && not (absent r.report_digest) && absent_or_before now r.last_attempt_at

-- `...(runId ? { id: runId } : {})`.
abbrev pub is_asked : Option Text → Row → Bool
is_asked none r = true
is_asked (some []) r = true
is_asked (some (a ∷ t)) r = text_eq r.id (a ∷ t)

-- Ascending, with null behind the times.
abbrev compare_time : Option ℕ → Option ℕ → Ordering
compare_time none none = Ordering.eq
compare_time none (some n) = Ordering.gt
compare_time (some m) none = Ordering.lt
compare_time (some m) (some n) = compare m n

unfoldable pub compare_pending : Row → Row → Ordering
compare_pending a b =
    or_else (compare_time a.finished_at b.finished_at) (compare a.created_at b.created_at)

-- `updateMany` and its count.
abbrev pub update_where : (Row → Bool) → (Row → Row) → Table → Table
update_where p change t = map (λ (r : Row). if p r then change r else r) t

abbrev pub count_where : (Row → Bool) → Table → ℕ
count_where p t = length (filter p t)

-- The row that `findFirst` gives.
unfoldable pub candidate : Option Text → ℕ → Table → Option Row
candidate asked now t =
    head? (sort compare_pending (filter (λ (r : Row). is_asked asked r && is_claimable now r) t))

unfoldable pub granted_row : ℕ → Text → Row → Row
granted_row now token r = record r {
  token = some token;
  started_at = some now;
  last_attempt_at = some now;
  attempts = suc r.attempts;
  error = none;
}

unfoldable pub is_target : ℕ → Row → Row → Bool
is_target now c r = text_eq r.id c.id && is_free now r

unfoldable pub claim_row : ℕ → Text → Table → Option Row → Option Claim × Table
claim_row now token t none = (none, t)
claim_row now token t (some c) = (
  if count_where (is_target now c) t == 1
      then some (record { run_id = c.id; token = token })
      else none,
  update_where (is_target now c) (granted_row now token) t,
)

-- `claimRun`, with the token that `randomUUID` gives.
unfoldable pub claim_run : Option Text → ℕ → Text → Table → Option Claim × Table
claim_run asked now token t = claim_row now token t (candidate asked now t)

unfoldable pub is_held : Claim → Row → Bool
is_held c r =
    text_eq r.id c.run_id
    && is_text evaluation_version r.version
    && is_text c.token r.token
    && absent r.evaluated_at

-- `complete`.
unfoldable pub complete : Claim → (Row → Row) → Table → Result EvaluationError Table
complete c change t =
    if count_where (is_held c) t == 1
    then ok (update_where (is_held c) change t)
    else err persistence_error

unfoldable pub evaluated_row : ℕ → Row → Row
evaluated_row at r = record r {
  token = none;
  started_at = none;
  evaluated_at = some at;
  error = none;
}

unfoldable pub failed_row : Row → Row
failed_row r = record r {
  token = none;
  started_at = none;
  error = some (codes "RUN_ALERT_EVALUATION_FAILED");
}

unfoldable pub mark_evaluated : Claim → ℕ → Table → Result EvaluationError Table
mark_evaluated c at t = complete c (evaluated_row at) t

unfoldable pub record_failure : Claim → Table → Result EvaluationError Table
record_failure c t = complete c failed_row t
