-- ===== src/Runs/Retries.antt =====
-- collection-run-queue.service.ts: the retries of `createOrCoalesce` around its transaction, and the
-- two operations that call it, `enqueueModelNow` and `enqueueEnabledModels`. What other callers do between the rounds is in what each round sees.

use price_monitor.Prelude.{
  ℕ, zero, suc, Bool, Option, none, some, List, [], ◌∷◌, if◌then◌else◌, find, filter, sort, Text,
  compare_text, Result, ok, err, ◌>>=◌,
}
use price_monitor.Runs.{Run, Table, is_coalesced, desktop_provider}
use price_monitor.Runs.Queue.{
  QueueError, missing_active, model_not_found, invalid_limit, Model, Request, Defaults, Created,
  in_slot, create_or_coalesce, is_valid_limit, is_enabled_model, returned_id,
}

-- One round of the loop: whether its transaction is refused with P2002 or P2034, the table that the
-- transaction sees, what the database would give a new row, and the table that `findSameSlot` sees.
pub record Round : Type 0 where
  pub refused : Bool
  pub seen : Table
  pub defaults : Defaults
  pub later : Table

-- What the operation throws: the transaction's error, the last refusal, or what the code calls
-- unreachable.
pub data RetryError : Type 0 where
  thrown : QueueError → RetryError
  last_refusal : RetryError
  unreachable_state : RetryError

-- `maximumCreateAttempts`.
abbrev pub maximum_attempts : ℕ
maximum_attempts = 5

-- `findSameSlot`.
unfoldable pub same_slot : Request → Table → Option Run
same_slot request t = find (in_slot request.model desktop_provider request.scheduled_for) t

abbrev pub attempted : Result QueueError Created → Result RetryError Created
attempted (ok c) = ok c
attempted (err e) = err (thrown e)

abbrev pub after_refusal :
    ℕ → Table → Option Run → Result RetryError Created → Result RetryError Created
after_refusal left later (some r) next =
    ok (record { run = r; coalesced = is_coalesced r.status; table = later })
after_refusal zero later none next = err last_refusal
after_refusal (suc left) later none next = next

-- The loop, from the attempt with the given number on, with the attempts that are left.
unfoldable pub create_from : List Model → Request → (ℕ → Round) → ℕ → ℕ → Result RetryError Created
create_from models request rounds attempt zero = err unreachable_state
create_from models request rounds attempt (suc left) =
    let next = create_from models request rounds (suc attempt) left in
    let r : Round = rounds attempt in
    if r.refused
    then after_refusal left r.later (same_slot request r.later) next
    else attempted (create_or_coalesce models request r.defaults r.seen)

unfoldable pub create_retrying : List Model → Request → (ℕ → Round) → Result RetryError Created
create_retrying models request rounds = create_from models request rounds 0 maximum_attempts

abbrev pub require_id : Created → Option Text → Result RetryError (Text × Bool × Table)
require_id c none = err (thrown missing_active)
require_id c (some id) = ok (id, c.coalesced, c.table)

-- `enqueueModelNow`, with its result and the table that the result was read from or written to.
unfoldable pub enqueue_model_now :
    List Model → Request → (ℕ → Round) → Result RetryError (Text × Bool × Table)
enqueue_model_now models request rounds =
    if is_valid_limit request.search_limit
    then (if is_enabled_model models request.model
        then (create_retrying models request rounds >>= λ (c : Created).
            require_id c (returned_id c))
        else err (thrown model_not_found))
    else err (thrown invalid_limit)

-- `listEnabledModels`.
unfoldable pub enabled_models : List Model → List Model
enabled_models models =
    sort (λ (a b : Model). compare_text a.id b.id) (filter (λ (m : Model). m.enabled) models)

abbrev default_request : ℕ → Model → Request
default_request scheduled_for m = record {
  model = m.id;
  scheduled_for = scheduled_for;
  search_limit = 50;
}

-- `enqueueEnabledModels`: one creation for each model, each with the rounds that it meets.
abbrev each : List Model → ℕ → (Text → ℕ → Round) → List Model → Result RetryError (List Created)
each models at rounds [] = ok []
each models at rounds (m ∷ ms) =
    create_retrying models (default_request at m) (rounds m.id) >>= λ c.
    (each models at rounds ms >>= λ cs. ok (c ∷ cs))

unfoldable pub enqueue_enabled_models :
    List Model → ℕ → (Text → ℕ → Round) → Result RetryError (List Created)
enqueue_enabled_models models at rounds = each models at rounds (enabled_models models)
