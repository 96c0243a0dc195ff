-- ===== src/Runs/Queue.antt =====
-- apps/api/src/collection/collection-run-queue.service.ts: how runs are queued.
use price_monitor.Prelude.{
  ℕ, Bool, not, ◌&&◌, Option, none, some, List, ◌∷◌, filter, find, head?, any, leb, if◌then◌else◌,
  Text, text_eq, ◌==◌, Ordering, compare, compare_text, or_else, sort, Result, ok, err,
}
use price_monitor.Runs.{
  Status, queued, coalesced, Run, Table, is_unfinished, is_coalesced, is_paused, absent,
  desktop_provider, update_many, update_count,
}

pub data QueueError : Type 0 where
  invalid_limit model_not_found not_paused missing_active : QueueError

pub record Model : Type 0 where
  pub id : Text
  pub enabled : Bool

-- The argument of `createOrCoalesce`.
pub record Request : Type 0 where
  pub model : Text
  pub scheduled_for : ℕ
  pub search_limit : ℕ

-- What the database gives to a new row by default: `id` and `createdAt`.
pub record Defaults : Type 0 where
  pub id : Text
  pub created_at : ℕ

pub record Created : Type 0 where
  pub run : Run
  pub coalesced : Bool
  pub table : Table

-- The key `monitoredModelId_providerKey_scheduledFor`.
unfoldable pub in_slot : Text → Text → ℕ → Run → Bool
in_slot model provider scheduled_for r =
    text_eq r.model model && (text_eq r.provider provider && (r.scheduled_for == scheduled_for))

-- `orderBy: [{ scheduledFor: "asc" }, { createdAt: "asc" }, { id: "asc" }]`.
unfoldable pub compare_queue : Run → Run → Ordering
compare_queue a b =
    or_else (compare a.scheduled_for b.scheduled_for)
      (or_else (compare a.created_at b.created_at) (compare_text a.id b.id))

unfoldable pub is_active_of : Text → Run → Bool
is_active_of model r = is_unfinished r.status && text_eq r.model model

-- `active`.
unfoldable pub active_run : Text → Table → Option Run
active_run model t = head? (sort compare_queue (filter (is_active_of model) t))

abbrev pub id_of : Option Run → Option Text
id_of none = none
id_of (some r) = some r.id

abbrev pub initial_status : Option Run → Status
initial_status none = queued
initial_status (some r) = coalesced

-- `collectionRun.create`.
unfoldable pub new_run : Request → Defaults → Option Run → Run
new_run request defaults active = record {
  id = defaults.id;
  model = request.model;
  provider = desktop_provider;
  scheduled_for = request.scheduled_for;
  created_at = defaults.created_at;
  search_limit = request.search_limit;
  status = initial_status active;
  coalesced_into = id_of active;
  agent = none;
  claimed_at = none;
  heartbeat_at = none;
  started_at = none;
  finished_at = none;
  discovered_count = 0;
  sku_count = 0;
  error_code = none;
  report_digest = none;
}

unfoldable pub insert_run : Request → Defaults → Table → Option Run → Created
insert_run request defaults t active =
    let r = new_run request defaults active in
    record { run = r; coalesced = not (absent active); table = r ∷ t }

-- The transaction after the lock of the model: `if (sameSlot) …`.
unfoldable pub create_unlocked : Request → Defaults → Table → Option Run → Created
create_unlocked request defaults t (some r) = record {
  run = r;
  coalesced = is_coalesced r.status;
  table = t;
}
create_unlocked request defaults t none = insert_run request defaults t (active_run request.model t)

unfoldable pub is_enabled_model : List Model → Text → Bool
is_enabled_model models id = any (λ (m : Model). text_eq m.id id && m.enabled) models

-- `createOrCoalesceInSerializableTransaction`.
unfoldable pub create_or_coalesce :
    List Model → Request → Defaults → Table → Result QueueError Created
create_or_coalesce models request defaults t =
    if is_enabled_model models request.model
    then ok (
        create_unlocked request defaults t
          (find (in_slot request.model desktop_provider request.scheduled_for) t))
    else err model_not_found

-- `validateSearchLimit`, of a natural number.
unfoldable pub is_valid_limit : ℕ → Bool
is_valid_limit n = leb 1 n && leb n 50

abbrev pub returned_id : Created → Option Text
returned_id c = if c.coalesced then c.run.coalesced_into else some c.run.id

unfoldable pub is_requeueable : Text → Run → Bool
is_requeueable id r =
    text_eq r.id id
    && (text_eq r.provider desktop_provider && (is_paused r.status && absent r.coalesced_into))

unfoldable pub requeued : Run → Run
requeued r = record r { status = queued; error_code = none }

-- `requeuePausedRun`, with the table after `requeuePaused`.
unfoldable pub requeue_paused : Text → Table → Result QueueError Text × Table
requeue_paused id t = (
  if update_count (is_requeueable id) t == 1 then ok id else err not_paused,
  update_many (is_requeueable id) requeued t,
)
