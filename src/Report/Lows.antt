-- ===== src/Report/Lows.antt =====
-- collection-report-aggregation.ts `confirmedLows`.
use price_monitor.Prelude.{
  Bool, not, ◌&&◌, Option, none, some, List, [], filter_map, if◌then◌else◌, Ordering, compare,
  compare_text, or_else, sort, ℤ, compare_int, is_positive,
}
use price_monitor.Comparison.{is_own, is_some}
use price_monitor.Report.{OwnSummary, SkuRow, ConfirmedLow}
use price_monitor.Report.Rows.{confirmed_price, or_default, first_rank}
use price_monitor.Report.Projection.{is_matched, same_signature, summary_price}

abbrev pub low_record : SkuRow → OwnSummary → ℤ → ConfirmedLow
low_record row o d = record {
  competitor = row;
  selected_own = o;
  alternative_own = row.alternative_own;
  signature = row.signature;
  label = row.label;
  difference = d;
  ranks = row.ranks;
  reasons = row.reasons;
}

-- The tests of the row, without those of its relation.
unfoldable pub is_low_candidate : SkuRow → Bool
is_low_candidate row =
    not (is_own row.source)
    && is_matched row.state
    && is_some row.signature
    && is_some (confirmed_price row.confidence row.stock row.prices.payable)

-- The tests of the selected own snapshot.
unfoldable pub is_low_against : SkuRow → OwnSummary → Bool
is_low_against row o = same_signature o.signature row.signature && is_some (summary_price o)

unfoldable pub low_by : SkuRow → OwnSummary → Option ℤ → Option ConfirmedLow
low_by row o none = none
low_by row o (some d) = if is_positive d then some (low_record row o d) else none

unfoldable pub low_with : SkuRow → Option OwnSummary → Option ConfirmedLow
low_with row none = none
low_with row (some o) =
    if is_low_candidate row && is_low_against row o then low_by row o row.difference else none

-- The function of the `flatMap`.
unfoldable pub low_of : SkuRow → Option ConfirmedLow
low_of row = low_with row row.selected_own

unfoldable pub compare_low : ConfirmedLow → ConfirmedLow → Ordering
compare_low a b = or_else (compare_int b.difference a.difference) (
    or_else (compare (first_rank a.ranks) (first_rank b.ranks)) (
      or_else (compare_text a.competitor.item_id b.competitor.item_id) (
        or_else
          (compare_text (or_default [] a.competitor.sku_id) (or_default [] b.competitor.sku_id))
          (compare_text a.competitor.id b.competitor.id))))

unfoldable pub confirmed_lows : List SkuRow → List ConfirmedLow
confirmed_lows rows = sort compare_low (filter_map low_of rows)
