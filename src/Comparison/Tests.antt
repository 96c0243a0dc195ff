-- ===== src/Comparison/Tests.antt =====
-- A sample run of the comparison.
use mathlib.Core.List.{Memᴰ}
use price_monitor.Prelude.{
  ℕ, ◌≡◌, refl, true, false, some, List, [], ◌∷◌, All, arith, Text, codes, text_eq, get, put, sort,
  insert, compare_text,
}
use price_monitor.Money.{natural}
use price_monitor.Pricing.PublicPrice.{Confidence}
use price_monitor.Comparison
use price_monitor.Comparison.{
  Source, own, competitor, in_stock, Combination, signed, Candidate, Signed, Priced,
  compare_candidate, as_signed, as_eligible,
}
use price_monitor.Comparison.Own
use price_monitor.Comparison.Own.{own_rows, selected_own}
use price_monitor.Comparison.Classify
use price_monitor.Comparison.Classify.{Alert, alert_of}
use price_monitor.Comparison.Missing
use price_monitor.Comparison.Evaluate
use price_monitor.Comparison.Evaluate.{evaluate}
use price_monitor.Comparison.Rows.{own_eligible, own_signed}
use price_monitor.Comparison.Baselines.{IsBaseline}
use price_monitor.Comparison.Lows.{
  IsConfirmedLow, evaluate-IsConfirmedLow, evaluate-lower, evaluate-incomplete,
}

abbrev candidate : Text → Source → ℕ → Text → Candidate
candidate id source price signature = record {
  snapshot_id = id;
  source = source;
  item_id = codes "item";
  sku_id = id;
  shop_name = codes "shop";
  search_ranks = natural 3 ∷ [];
  stock = in_stock;
  confidence = Confidence.confirmed;
  payable = some (natural price);
  combination = signed signature signature [];
}

abbrev theirs : Candidate
theirs = candidate (codes "c1") competitor 900 (codes "k")

abbrev ours : Candidate
ours = candidate (codes "o1") own 1000 (codes "k")

abbrev dearer : Candidate
dearer = candidate (codes "o2") own 1200 (codes "k")

abbrev run : List Candidate
run = theirs ∷ dearer ∷ ours ∷ []

abbrev offer_of : Candidate → ℕ → Priced
offer_of c price = record {
  signed = record { candidate = c; signature = codes "k"; label = codes "k"; reasons = [] };
  price = price;
}

unfoldable comparison : Unit {0}
unfolding evaluate Evaluate.evaluate_sorted Evaluate.run_rounds Evaluate.record_round
    Evaluate.compare_alert sort insert compare_candidate compare_text Comparison.compare_identity
    Comparison.compare_eligible as_signed as_eligible Comparison.signed_of
    Comparison.confirmed_payable Comparison.has_confirmed_payable Comparison.unique
    Comparison.unique_from own_rows selected_own Own.compare_own_for_display Own.rows_of
    Own.add_by_signature Own.add_eligible Own.add_signed Own.add_own Own.collect_own Own.selections
    Own.compare_key Own.baseline Own.baselines Own.primary_own Classify.own_review_reasons
    Classify.competitor_review_reasons Classify.with_reason Classify.classify_own_signed
    Classify.classify_matched Classify.classify_unmatched Classify.classify_against
    Classify.classify_priced Classify.classify_competitor Classify.classify_by Classify.classify
    Missing.safe_ranks Missing.least Missing.earliest_rank Missing.minimum_price
    Missing.compare_group Missing.group_of Missing.entries_by_signature Missing.missing_groups get
    put text_eq own_eligible own_signed
comparison = tt

evaluate_sample :
    (evaluate true run).alerts ≡ alert_of (offer_of theirs 900).signed 900 (offer_of ours 1000) ∷ []
unfolding comparison
evaluate_sample = refl

evaluate-IsConfirmedLow_example : All (IsConfirmedLow run) (evaluate true run).alerts
evaluate-IsConfirmedLow_example = evaluate-IsConfirmedLow true run

evaluate-lower_example :
    (p : Priced) × IsBaseline run (codes "k") p
    × Memᴰ (alert_of (offer_of theirs 900).signed 900 p) (evaluate true run).alerts
unfolding comparison
evaluate-lower_example =
    evaluate-lower run theirs ours (offer_of theirs 900).signed (offer_of theirs 900)
      (offer_of ours 1000) (Memᴰ.head refl) refl refl refl (Memᴰ.tail (Memᴰ.tail (Memᴰ.head refl)))
      refl (tt, (omega arith, (omega arith, tt)))

evaluate-incomplete_example :
    ((evaluate false run).alerts ≡ []) × ((evaluate false run).missing_groups ≡ [])
evaluate-incomplete_example = evaluate-incomplete run
