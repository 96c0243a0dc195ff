-- ===== src/Report.antt =====
-- apps/api/src/operations/collection-report-aggregation.ts: the report of one run. The facts that it
-- is made of, and the rows and groups that it consists of.
pub mod Rows
pub mod Projection
pub mod Lows
pub mod Missing
pub mod Board
pub mod Aggregate
pub mod Grouping
pub mod Shops
pub mod Partition
pub mod Withheld
pub mod Sound
pub mod Counting
pub mod Complete
pub mod Tests
use price_monitor.Prelude.{ℕ, Bool, Option, List, Text, Dict, ℤ}
use price_monitor.Comparison.{Source, Stock}
use price_monitor.Comparison.Classify.{State, MissingReason}
use price_monitor.Pricing.Discounts.{Inclusion}
use price_monitor.Pricing.PublicPrice.{Confidence}

pub data Role : Type 0 where
  core paid_accessory gift_or_service unknown_role : Role

-- `CollectionRunSkuComponent`.
pub record SkuComponent : Type 0 where
  pub role : Role
  pub accessory_type : Text
  pub brand : Option Text
  pub model_or_name : Text
  pub quantity : ℕ

-- `CollectionRunPromotion`.
pub record PromotionFact : Type 0 where
  pub kind : Text
  pub label : Text
  pub amount : Option ℤ
  pub threshold : Option ℤ
  pub audience : Text
  pub stack_group : Option Text
  pub included : Bool
  pub inclusion : Inclusion

-- `CollectionRunGift`.
pub record Gift : Type 0 where
  pub name : Text
  pub quantity : ℕ

-- `CollectionRunBusinessPositionFact`; a date is its time in milliseconds.
pub record PositionFact : Type 0 where
  pub rank : ℕ
  pub item_id : Text
  pub url : Text
  pub shop_name : Text
  pub title : Text
  pub display_price_min : ℤ
  pub display_price_max : ℤ
  pub sponsored : Bool
  pub captured_at : ℕ

-- `CollectionRunBusinessPosition`.
pub record Position : Type 0 where
  pub rank : ℕ
  pub item_id : Text
  pub url : Text
  pub shop_name : Text
  pub title : Text
  pub display_price_min : ℤ
  pub display_price_max : ℤ
  pub sponsored : Bool
  pub captured_at : Text

-- `CollectionRunBusinessPrices`.
pub record Prices : Type 0 where
  pub list_price : Option ℤ
  pub activity_price : Option ℤ
  pub coupon_discount : ℤ
  pub full_reduction : ℤ
  pub direct_discount : ℤ
  pub mandatory_fee : ℤ
  pub public_discount : ℤ
  pub payable : Option ℤ

pub data MatchCategory : Type 0 where
  exact_match review_match excluded_match : MatchCategory

pub data MatchDecision : Type 0 where
  pending bare bundle rejected manual : MatchDecision

-- The field `match` of a row.
pub record MatchFact : Type 0 where
  pub category : MatchCategory
  pub decision : Option MatchDecision
  pub comparable : Bool
  pub confidence_bps : ℕ
  pub reasons : List Text

-- `CollectionRunBusinessSnapshotFact`, with its prices and its match each in a record.
pub record SnapshotFact : Type 0 where
  pub id : Text
  pub own_listing_id : Option Text
  pub item_id : Text
  pub sku_id : Option Text
  pub shop_name : Text
  pub title : Text
  pub sku_text : Option Text
  pub url : Text
  pub attributes : Dict Text
  pub components : Option (List SkuComponent)
  pub promotions : List PromotionFact
  pub gifts : List Gift
  pub prices : Prices
  pub confidence : Confidence
  pub stock : Stock
  pub match_fact : MatchFact
  pub signature : Option Text
  pub label : Option Text
  pub state : Option State
  pub reasons : List Text
  pub comparison_own : Option Text
  pub evidence_key : Option Text
  pub captured_at : ℕ

-- `CollectionRunBusinessAggregationInput`.
pub record ReportInput : Type 0 where
  pub catalog_complete : Bool
  pub configured_count : ℕ
  pub collected_count : ℕ
  pub positions : List PositionFact
  pub snapshots : List SnapshotFact

-- `CollectionRunOwnSnapshotSummary`.
pub record OwnSummary : Type 0 where
  pub id : Text
  pub own_listing_id : Text
  pub item_id : Text
  pub sku_id : Option Text
  pub shop_name : Text
  pub title : Text
  pub sku_text : Option Text
  pub url : Text
  pub attributes : Dict Text
  pub components : Option (List SkuComponent)
  pub promotions : List PromotionFact
  pub gifts : List Gift
  pub prices : Prices
  pub stock : Stock
  pub confidence : Confidence
  pub signature : Option Text
  pub label : Option Text

pub data ComparisonState : Type 0 where
  own_row lower not_lower undecided : ComparisonState

-- `CollectionRunBusinessSkuRow`.
pub record SkuRow : Type 0 where
  pub id : Text
  pub source : Source
  pub item_id : Text
  pub sku_id : Option Text
  pub shop_name : Text
  pub title : Text
  pub sku_text : Option Text
  pub url : Text
  pub ranks : List ℕ
  pub positions : List Position
  pub attributes : Dict Text
  pub components : Option (List SkuComponent)
  pub promotions : List PromotionFact
  pub gifts : List Gift
  pub prices : Prices
  pub stock : Stock
  pub confidence : Confidence
  pub match_fact : MatchFact
  pub state : State
  pub signature : Option Text
  pub label : Option Text
  pub reasons : List Text
  pub selected_own : Option OwnSummary
  pub alternative_own : List OwnSummary
  pub difference : Option ℤ
  pub comparison_state : ComparisonState
  pub own_payable : Option ℤ
  pub comparison_difference : Option ℕ
  pub evidence_sha256 : Option Text
  pub captured_at : Text

-- `CollectionRunBusinessItemGroup`.
pub record ItemGroup : Type 0 where
  pub item_id : Text
  pub shop_name : Text
  pub title : Text
  pub url : Text
  pub earliest_rank : ℕ
  pub ranks : List ℕ
  pub positions : List Position
  pub sku_count : ℕ
  pub skus : List SkuRow

-- `CollectionRunShopGroup`.
pub record ShopGroup : Type 0 where
  pub shop_name : Text
  pub earliest_rank : ℕ
  pub ranks : List ℕ
  pub position_count : ℕ
  pub item_count : ℕ
  pub sku_count : ℕ
  pub minimum_confirmed : Option ℤ
  pub confirmed_low_count : ℕ
  pub missing_count : ℕ
  pub items : List ItemGroup

-- `CollectionRunConfirmedLow`.
pub record ConfirmedLow : Type 0 where
  pub competitor : SkuRow
  pub selected_own : OwnSummary
  pub alternative_own : List OwnSummary
  pub signature : Option Text
  pub label : Option Text
  pub difference : ℤ
  pub ranks : List ℕ
  pub reasons : List Text

-- `CollectionRunMissingOwnGroup`.
pub record MissingOwnGroup : Type 0 where
  pub signature : Text
  pub label : Text
  pub reason : MissingReason
  pub earliest_rank : Option ℕ
  pub minimum_confirmed : Option ℤ
  pub minimum_offer_id : Option Text
  pub minimum_offer_rank : Option ℕ
  pub shops : List Text
  pub offers : List SkuRow

-- `CollectionRunBusinessSummary`.
pub record ReportSummary : Type 0 where
  pub distinct_shop_count : ℕ
  pub distinct_item_count : ℕ
  pub sku_count : ℕ
  pub matched_sku_count : ℕ
  pub confirmed_low_count : ℕ
  pub missing_count : ℕ
  pub review_count : ℕ
  pub excluded_count : ℕ
  pub configured_count : ℕ
  pub collected_count : ℕ
  pub catalog_complete : Bool

-- `CollectionRunBusinessSections`.
pub record Sections : Type 0 where
  pub summary : ReportSummary
  pub shops : List ShopGroup
  pub lows : List ConfirmedLow
  pub missing : List MissingOwnGroup
  pub review_rows : List SkuRow

-- What the report uses of the language: `Date.toISOString`, `trim` with the collapse of white space,
-- and `normalize("NFKC").toLowerCase()`.
pub record Builtins : Type 0 where
  pub iso : ℕ → Text
  pub display : Text → Text
  pub fold_case : Text → Text
