-- ===== src/Runs.antt =====
-- The collection runs that the API queues and the collectors' agents work off: the table
-- `CollectionRun`, as apps/api/src/collection/collection-run-queue.service.ts and
-- apps/api/src/collector-agent/prisma-collector-agent.repository.ts read and write it.
pub mod Queue
pub mod Agent
pub mod Invariant
pub mod ClaimNext
pub mod Jobs
pub mod Frames
pub mod Creation
pub mod Steps
pub mod Phases
pub mod Retries
pub mod Answers
pub mod Enqueue
pub mod Claims
pub mod Progress
pub mod Tests
use price_monitor.Prelude.{
  ℕ, Bool, true, false, Option, none, some, List, [], ◌∷◌, map, filter, length, any, if◌then◌else◌,
  Text, codes, text_eq, Ordering, compare, compare_text, or_else,
}

-- `QueueableCollectionStatus`.
pub data Status : Type 0 where
  queued running paused_login paused_challenge coalesced succeeded partial_failed failed : Status

pub record Run : Type 0 where
  pub id : Text
  pub model : Text
  pub provider : Text
  pub scheduled_for : ℕ
  pub created_at : ℕ
  pub search_limit : ℕ
  pub status : Status
  pub coalesced_into : Option Text
  pub agent : Option Text
  pub claimed_at : Option ℕ
  pub heartbeat_at : Option ℕ
  pub started_at : Option ℕ
  pub finished_at : Option ℕ
  pub discovered_count : ℕ
  pub sku_count : ℕ
  pub error_code : Option Text
  pub report_digest : Option Text

abbrev pub Table : Type 0
Table = List Run

-- `unfinishedStatuses`.
abbrev pub is_unfinished : Status → Bool
is_unfinished Status.queued = true
is_unfinished Status.running = true
is_unfinished Status.paused_login = true
is_unfinished Status.paused_challenge = true
is_unfinished _ = false

abbrev pub is_coalesced : Status → Bool
is_coalesced Status.coalesced = true
is_coalesced _ = false

abbrev pub is_running : Status → Bool
is_running Status.running = true
is_running _ = false

abbrev pub is_queued : Status → Bool
is_queued Status.queued = true
is_queued _ = false

abbrev pub is_paused : Status → Bool
is_paused Status.paused_login = true
is_paused Status.paused_challenge = true
is_paused _ = false

abbrev pub absent {ℓ} : {A : Type ℓ} → Option A → Bool
absent none = true
absent (some a) = false

-- A nullable text that is compared with a text.
abbrev pub is_text : Text → Option Text → Bool
is_text t none = false
is_text t (some s) = text_eq s t

abbrev pub desktop_provider : Text
desktop_provider = codes "taobao-desktop"

-- `updateMany`: the rows after it, and its `count`.
unfoldable pub update_many : (Run → Bool) → (Run → Run) → Table → Table
update_many test change [] = []
update_many test change (r ∷ t) = (if test r then change r else r) ∷ update_many test change t

unfoldable pub update_count : (Run → Bool) → Table → ℕ
update_count test t = length (filter test t)
