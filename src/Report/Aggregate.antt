-- ===== src/Report/Aggregate.antt =====
-- collection-report-aggregation.ts `aggregateCollectionRunReport`.
use price_monitor.Prelude.{Bool, true, false, not, ◌&&◌, List, filter, map, length, is_empty, sort}
use price_monitor.Comparison.{is_own, unique}
use price_monitor.Comparison.Classify.{State, review_state, excluded_state}
use price_monitor.Report.{PositionFact, ReportInput, SkuRow, Sections, Builtins}
use price_monitor.Report.Rows.{compare_row}
use price_monitor.Report.Projection.{projected_rows, is_matched}
use price_monitor.Report.Lows.{confirmed_lows}
use price_monitor.Report.Missing.{missing_groups}
use price_monitor.Report.Board.{price_board}

abbrev is_review : State → Bool
is_review review_state = true
is_review _ = false

abbrev is_excluded : State → Bool
is_excluded excluded_state = true
is_excluded _ = false

unfoldable pub is_ranked : SkuRow → Bool
is_ranked row = not (is_empty row.ranks)

unfoldable pub is_business : SkuRow → Bool
is_business row = not (is_own row.source) && not (is_empty row.ranks)

unfoldable pub ranked_rows : Builtins → ReportInput → List SkuRow
ranked_rows builtins input = filter is_ranked (projected_rows builtins input)

unfoldable pub business_rows : Builtins → ReportInput → List SkuRow
business_rows builtins input = filter is_business (projected_rows builtins input)

unfoldable pub aggregate : Builtins → ReportInput → Sections
aggregate builtins input =
    let rows = business_rows builtins input in
    let lows = confirmed_lows rows in
    let missing = missing_groups builtins rows in
    let board = price_board builtins input.positions (ranked_rows builtins input) in
    let in_review = filter (λ (r : SkuRow). is_review r.state) rows in
    record {
      summary = record {
        distinct_shop_count = length board;
        distinct_item_count = length (unique (map PositionFact.item_id input.positions));
        sku_count = length rows;
        matched_sku_count = length (filter (λ (r : SkuRow). is_matched r.state) rows);
        confirmed_low_count = length lows;
        missing_count = length missing;
        review_count = length in_review;
        excluded_count = length (filter (λ (r : SkuRow). is_excluded r.state) rows);
        configured_count = input.configured_count;
        collected_count = input.collected_count;
        catalog_complete = input.catalog_complete;
      };
      shops = board;
      lows = lows;
      missing = missing;
      review_rows = sort compare_row in_review;
    }
