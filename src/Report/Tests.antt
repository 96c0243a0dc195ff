-- ===== src/Report/Tests.antt =====
-- A sample report: an own SKU, a cheaper one of a competitor's, and one without a counterpart.
use mathlib.Core.List.{Memᴰ}
use price_monitor.Prelude.{
  ℕ, Bool, true, false, Option, none, some, [], ◌∷◌, ◌≡◌, ◌≢◌, refl, sym, ap, ◌∙◌, All, Text, codes,
  text_eq, get, put, length, arith, sort, insert, compare_text, compare_int, pos,
}
use price_monitor.Comparison
use price_monitor.Comparison.{Stock, in_stock}
use price_monitor.Comparison.Own
use price_monitor.Comparison.Classify.{State, matched, missing_own, own_state}
use price_monitor.Pricing.PublicPrice.{Confidence}
use price_monitor.Report.{
  Position, PositionFact, SnapshotFact, SkuRow, Prices, MatchFact, exact_match, ShopGroup,
  ReportInput, Builtins,
}
use price_monitor.Report.Rows
use price_monitor.Report.Rows.{own_summary_of, position_output}
use price_monitor.Report.Projection
use price_monitor.Report.Projection.{project}
use price_monitor.Report.Lows
use price_monitor.Report.Lows.{low_record}
use price_monitor.Report.Missing
use price_monitor.Report.Board
use price_monitor.Report.Aggregate
use price_monitor.Report.Aggregate.{aggregate, ranked_rows}
use price_monitor.Report.Sound.{IsReportedLow, aggregate-IsReportedLow}
use price_monitor.Report.Complete.{aggregate-low}
use price_monitor.Report.Counting.{total}
use price_monitor.Report.Partition.{held_rows, held_positions, aggregate-Accounts}
use price_monitor.Report.Withheld.{aggregate-withholds}

abbrev plain : Builtins
plain = record { iso = λ n. n ∷ []; display = λ t. t; fold_case = λ t. t }

abbrev costs : ℕ → Prices
costs n = record {
  list_price = none;
  activity_price = none;
  coupon_discount = pos 0;
  full_reduction = pos 0;
  direct_discount = pos 0;
  mandatory_fee = pos 0;
  public_discount = pos 0;
  payable = some (pos n);
}

abbrev exact : MatchFact
exact = record {
  category = exact_match;
  decision = none;
  comparable = true;
  confidence_bps = 10000;
  reasons = [];
}

abbrev snapshot : Text → Option Text → State → Option Text → ℕ → SnapshotFact
snapshot id listing state comparison n = record {
  id = id;
  own_listing_id = listing;
  item_id = id;
  sku_id = none;
  shop_name = codes "shop";
  title = id;
  sku_text = none;
  url = codes "u";
  attributes = [];
  components = none;
  promotions = [];
  gifts = [];
  prices = costs n;
  confidence = Confidence.confirmed;
  stock = in_stock;
  match_fact = exact;
  signature = some (codes "k");
  label = none;
  state = some state;
  reasons = [];
  comparison_own = comparison;
  evidence_key = none;
  captured_at = 7;
}

abbrev ours : SnapshotFact
ours = snapshot (codes "o") (some (codes "l")) own_state none 1000

abbrev theirs : SnapshotFact
theirs = snapshot (codes "c") none matched (some (codes "o")) 900

abbrev lone : SnapshotFact
lone = snapshot (codes "m") none missing_own none 800

abbrev position : Text → ℕ → PositionFact
position item rank = record {
  rank = rank;
  item_id = item;
  url = codes "u";
  shop_name = codes "shop";
  title = item;
  display_price_min = pos 1;
  display_price_max = pos 2;
  sponsored = false;
  captured_at = 7;
}

abbrev report_of : Bool → ReportInput
report_of complete = record {
  catalog_complete = complete;
  configured_count = 1;
  collected_count = 1;
  positions = position (codes "c") 2 ∷ position (codes "m") 1 ∷ [];
  snapshots = theirs ∷ lone ∷ ours ∷ [];
}

unfoldable report : Unit {0}
unfolding aggregate ranked_rows Aggregate.business_rows Aggregate.is_business Aggregate.is_ranked
    Board.price_board Board.shop_group Board.shops_from Board.add_item Board.item_group
    Board.rows_from Board.compare_shop_group Board.compare_item Board.listed_price
    Missing.missing_groups Missing.group_of Missing.missing_from Missing.missing_signature
    Missing.minimum_offer Missing.as_priced_row Missing.shops_from Missing.compare_shop
    Missing.missing_reason Missing.compare_priced_row Missing.compare_missing Lows.confirmed_lows
    Lows.low_of Lows.low_with Lows.low_by Lows.is_low_candidate Lows.is_low_against Lows.compare_low
    Projection.projected_rows project Projection.row_of Projection.own_maps
    Projection.collect_summaries Projection.add_summary Projection.selected_of
    Projection.projected_state Projection.projected_reasons Projection.alternatives
    Projection.difference_of Projection.summary_price Projection.eligible_comparison
    Projection.comparison_state_of Rows.confirmed_price Rows.normalized_shop Rows.clone_attributes
    Rows.own_summary Rows.own_price Rows.compare_own Rows.position_output Rows.compare_position
    Rows.compare_row Rows.positions_from Rows.positions_by_item Rows.evidence_sha256 Own.rows_of
    Own.add_by_signature Own.compare_key Comparison.unique Comparison.unique_from sort insert get
    put text_eq compare_text compare_int
report = tt

confirmed_difference :
    (aggregate plain (report_of true)).lows
    ≡ low_record (project plain (report_of true) theirs) (own_summary_of ours (codes "l")) (pos 100)
      ∷ []
unfolding report
confirmed_difference = refl

missing_count : length (aggregate plain (report_of true)).missing ≡ 1
unfolding report
missing_count = refl

aggregate-IsReportedLow_example :
    All (IsReportedLow plain (report_of true)) (aggregate plain (report_of true)).lows
aggregate-IsReportedLow_example = aggregate-IsReportedLow plain (report_of true)

abbrev first_unit : Text → ℕ
first_unit [] = 0
first_unit (a ∷ t) = a

differs : (s t : Text) → first_unit s ≢ first_unit t → s ≢ t
differs s t h e = h (ap first_unit e)

ours_unique : (y : SnapshotFact) → Memᴰ y (theirs ∷ lone ∷ ours ∷ []) → y.id ≡ ours.id → y ≡ ours
ours_unique y (Memᴰ.head e) h =
    absurd (differs theirs.id ours.id (omega arith) (ap SnapshotFact.id (sym e) ∙ h))
ours_unique y (Memᴰ.tail (Memᴰ.head e)) h =
    absurd (differs lone.id ours.id (omega arith) (ap SnapshotFact.id (sym e) ∙ h))
ours_unique y (Memᴰ.tail (Memᴰ.tail (Memᴰ.head e))) h = e
ours_unique y (Memᴰ.tail (Memᴰ.tail (Memᴰ.tail m))) h = elim m [ ]

aggregate-low_example :
    Memᴰ
      (low_record
        (project plain (report_of true) theirs)
        (own_summary_of ours (codes "l"))
        (pos 100))
      (aggregate plain (report_of true)).lows
unfolding report
aggregate-low_example =
    aggregate-low plain (report_of true) theirs ours (own_summary_of ours (codes "l")) (codes "k")
      1000 900 (position (codes "c") 2) (Memᴰ.head refl) (Memᴰ.tail (Memᴰ.tail (Memᴰ.head refl)))
      ours_unique refl refl refl refl refl refl refl refl (omega arith) (Memᴰ.head refl) refl

-- Positions weighed by their rank, and rows by one.
aggregate-Accounts_example :
    (total (held_positions Position.rank) (aggregate plain (report_of true)).shops
      ≡ total
          (λ (p : PositionFact). Position.rank (position_output plain p))
          (ReportInput.positions (report_of true)))
    × (total (held_rows (λ item r. 1)) (aggregate plain (report_of true)).shops
        ≡ total (λ (r : SkuRow). 1) (ranked_rows plain (report_of true)))
    × (total ShopGroup.position_count (aggregate plain (report_of true)).shops ≡ 2)
    × (total ShopGroup.sku_count (aggregate plain (report_of true)).shops
        ≡ length (ranked_rows plain (report_of true)))
aggregate-Accounts_example = aggregate-Accounts plain (report_of true) Position.rank (λ item r. 1)

aggregate-withholds_example : (aggregate plain (report_of false)).missing ≡ []
aggregate-withholds_example = aggregate-withholds plain (report_of false) refl
