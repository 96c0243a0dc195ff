-- ===== src/Checkpoint.antt =====
-- The checkpoint of a collector's run: apps/collector/src/core/checkpoint-store.ts and
-- apps/collector/src/core/checkpoint-semantics.ts. Its data.
pub mod Aliases
pub mod Resolution
pub mod Coherence
pub mod Complete
pub mod Tests
use price_monitor.Prelude.{ℕ, Bool, Option, List, Text, Dict}

pub data Phase : Type 0 where
  own_listings search items complete : Phase

pub data ReportStatus : Type 0 where
  succeeded partial_failed paused_login paused_challenge failed : ReportStatus

-- A SKU of an item of the report, as far as the checkpoint's tests read it.
pub record Sku : Type 0 where
  pub sku_id : Text
  pub evidence_key : Option Text

pub record OwnItem : Type 0 where
  pub listing_id : Text
  pub item_id : Text
  pub shop_name : Text
  pub url : Text
  pub skus : List Sku

pub record CompetitorItem : Type 0 where
  pub item_id : Text
  pub search_ranks : List ℕ
  pub skus : List Sku

-- What the items of both kinds have.
pub record Item : Type 0 where
  pub item_id : Text
  pub skus : List Sku

pub record SearchPosition : Type 0 where
  pub rank : ℕ
  pub item_id : Text
  pub url : Text

-- An issue; `undefined` and null are one.
pub record ReportIssue : Type 0 where
  pub code : Text
  pub item_id : Option Text
  pub sku_id : Option Text
  pub evidence_key : Option Text

-- `CollectorReport`.
pub record CollectorReport : Type 0 where
  pub run_id : Text
  pub collector_id : Text
  pub search_limit : ℕ
  pub status : ReportStatus
  pub positions : List SearchPosition
  pub own_items : List OwnItem
  pub competitor_items : List CompetitorItem
  pub issues : List ReportIssue

pub record JobListing : Type 0 where
  pub id : Text
  pub url : Text

-- `CollectorJob`.
pub record Job : Type 0 where
  pub run_id : Text
  pub collector_id : Text
  pub search_limit : ℕ
  pub own_shop_name : Text
  pub listings : List JobListing

-- `CollectorCheckpoint`.
pub record CheckpointState : Type 0 where
  pub run_id : Text
  pub phase : Phase
  pub completed_listings : List Text
  pub completed_items : List Text
  pub completed_skus : List Text
  pub report : CollectorReport
  pub manifest : Dict Text
  pub aliases : Dict Text

-- What the tests use of the platform: `new URL(url)` with its hash dropped and its query sorted, the
-- SHA-256 digest, and `JSON.stringify` and `JSON.parse` of a pair of strings.
pub record Codec : Type 0 where
  pub canonical_url : Text → Text
  pub digest : Text → Text
  pub encode : Text → Text → Text
  pub decode : Text → Option (Text × Text)
