-- ===== src/OwnCatalog.antt =====
-- apps/api/src/collection/own-catalog-completeness.ts: whether a run has read all own listings, which
-- the comparison of the run goes by.
pub mod Sets
pub mod Laws
pub mod Tests
use price_monitor.Prelude.{
  ℕ, Bool, true, false, not, ◌&&◌, ◌||◌, Option, none, some, List, [], ◌∷◌, ◌++◌, map, any, all,
  is_empty, length, ltb, filter_map, if◌then◌else◌, Text, codes, text_eq,
}
use price_monitor.Comparison.{unique}

-- `OwnCatalogListingFact`.
pub record Listing : Type 0 where
  pub id : Text
  pub platform_item_id : Option Text

-- `OwnCatalogSnapshotFact`.
pub record Snapshot : Type 0 where
  pub own_listing_id : Option Text
  pub platform_item_id : Text
  pub sku_id : Option Text

-- `OwnCatalogIssueFact`.
pub record Issue : Type 0 where
  pub code : Text
  pub platform_item_id : Option Text
  pub sku_id : Option Text

-- `OwnCatalogCompletenessInput`.
pub record CatalogInput : Type 0 where
  pub listings : List Listing
  pub snapshots : List Snapshot
  pub issues : List Issue

-- `OwnCatalogCompleteness`.
pub record Completeness : Type 0 where
  pub complete : Bool
  pub configured_count : ℕ
  pub collected_count : ℕ

abbrev pub own_item_detail_failures : List Text
own_item_detail_failures =
    codes "ITEM_UNAVAILABLE"
    ∷ codes "SKU_ENUMERATION_INCOMPLETE"
    ∷ codes "SKU_SELECTION_MISMATCH"
    ∷ codes "PRICE_UNSTABLE"
    ∷ []

abbrev pub unattributed_failures : List Text
unattributed_failures = codes "MISSING_ITEM_ID" ∷ codes "UI_CONTRACT_CHANGED" ∷ []

-- `set.has(text)`.
unfoldable pub has : List Text → Text → Bool
has set text = any (text_eq text) set

abbrev pub has_option : List Text → Option Text → Bool
has_option set none = false
has_option set (some t) = has set t

-- `claimedListingIds`.
unfoldable pub claimed_ids : CatalogInput → List Text
claimed_ids input = unique (map (λ (l : Listing). l.id) input.listings)

abbrev keep_claimed : List Text → Option Text → Option Text
keep_claimed claimed none = none
keep_claimed claimed (some id) = if has claimed id then some id else none

-- The claimed listing that a snapshot is of.
unfoldable pub listing_of : List Text → Snapshot → Option Text
listing_of claimed s = keep_claimed claimed s.own_listing_id

abbrev and_then : Option Text → Option Text → Option Text
and_then none o = none
and_then (some t) o = o

abbrev non_empty : Option Text → Option Text
non_empty none = none
non_empty (some []) = none
non_empty (some (c ∷ cs)) = some (c ∷ cs)

-- `collectedListingIds`.
unfoldable pub collected_ids : CatalogInput → List Text
collected_ids input = unique (filter_map (listing_of (claimed_ids input)) input.snapshots)

-- `ownPlatformItemIds`.
unfoldable pub own_item_ids : CatalogInput → List Text
own_item_ids input = unique (
    filter_map (λ (l : Listing). non_empty l.platform_item_id) input.listings
    ++ filter_map
        (λ (s : Snapshot). and_then (listing_of (claimed_ids input) s) (some s.platform_item_id))
        input.snapshots)

-- `ownSkuIds`.
unfoldable pub own_sku_ids : CatalogInput → List Text
own_sku_ids input = unique (
    filter_map (λ (s : Snapshot). and_then (listing_of (claimed_ids input) s) s.sku_id)
      input.snapshots)

abbrev absent : Option Text → Bool
absent none = true
absent (some t) = false

-- The test of `hasBlockingIssue`.
unfoldable pub is_blocking : CatalogInput → Issue → Bool
is_blocking input i =
    has unattributed_failures i.code
    || (has own_item_detail_failures i.code
        && (has_option (own_item_ids input) i.platform_item_id
            || (absent i.platform_item_id && has_option (own_sku_ids input) i.sku_id)))

-- `deriveOwnCatalogCompleteness`.
unfoldable pub derive_completeness : CatalogInput → Completeness
derive_completeness input = record {
  complete =
      ltb 0 (length (claimed_ids input))
      && (all (has (collected_ids input)) (claimed_ids input)
          && not (any (is_blocking input) input.issues));
  configured_count = length (claimed_ids input);
  collected_count = length (collected_ids input);
}
