-- ===== src/Report/Projection.antt =====
-- collection-report-aggregation.ts `projectedRows`.
use price_monitor.Prelude.{
  ℕ, Bool, true, false, not, ◌&&◌, ◌||◌, Option, none, some, List, [], ◌∷◌, ◌++◌, map, filter,
  if◌then◌else◌, Text, codes, text_eq, Dict, get, put, sort, ℤ, sub_ℕ, abs_int, is_positive,
}
use price_monitor.Comparison.{Source, own, competitor, is_own, is_some, unique}
use price_monitor.Comparison.Own.{rows_of, add_by_signature, map_values}
use price_monitor.Comparison.Classify.{State, matched, missing_own, review_state}
use price_monitor.Report.{
  PositionFact, SnapshotFact, ReportInput, OwnSummary, ComparisonState, own_row, lower, not_lower,
  undecided, SkuRow, Builtins,
}
use price_monitor.Report.Rows.{
  fen, confirmed_price, present, or_default, clone_attributes, own_summary, compare_own,
  position_output, compare_row, positions_by_item, evidence_sha256,
}

-- `ownById` and `ownBySignature`.
pub record OwnMaps : Type 0 where
  pub by_id : Dict OwnSummary
  pub by_signature : Dict (List OwnSummary)

abbrev add_signed_summary :
    Option Text → OwnSummary → Dict (List OwnSummary) → Dict (List OwnSummary)
add_signed_summary none o m = m
add_signed_summary (some signature) o m = add_by_signature signature o m

unfoldable pub add_summary : Option OwnSummary → OwnMaps → OwnMaps
add_summary none maps = maps
add_summary (some o) maps = record {
  by_id = put o.id o maps.by_id;
  by_signature = add_signed_summary (present o.signature) o maps.by_signature;
}

unfoldable pub collect_summaries : List SnapshotFact → OwnMaps → OwnMaps
collect_summaries [] maps = maps
collect_summaries (s ∷ ss) maps = collect_summaries ss (add_summary (own_summary s) maps)

unfoldable pub own_maps : List SnapshotFact → OwnMaps
own_maps ss =
    let maps : OwnMaps = collect_summaries ss (record { by_id = []; by_signature = [] }) in
    record { by_id = maps.by_id; by_signature = map_values (sort compare_own) maps.by_signature }

-- `snapshot.ownListingId ? "OWN" : "COMPETITOR"`.
abbrev pub source_of : Option Text → Source
source_of none = competitor
source_of (some listing) = own

abbrev pub lookup {ℓ} : {A : Type ℓ} → Option Text → Dict A → Option A
lookup none m = none
lookup (some id) m = get id m

abbrev pub same_signature : Option Text → Option Text → Bool
same_signature (some s) (some t) = text_eq s t
same_signature _ _ = false

abbrev pub related : Option Text → Option OwnSummary → Option OwnSummary
related signature none = none
related signature (some o) = if same_signature o.signature signature then some o else none

-- `selectedOwnSnapshot`: the candidate of the relation, where its signature is the snapshot's.
unfoldable pub selected_of : Dict OwnSummary → SnapshotFact → Option OwnSummary
selected_of by_id s = related s.signature (lookup (present s.comparison_own) by_id)

abbrev pub is_matched : State → Bool
is_matched matched = true
is_matched _ = false

abbrev pub is_missing : State → Bool
is_missing missing_own = true
is_missing _ = false

abbrev is_matched_or_null : Option State → Bool
is_matched_or_null none = false
is_matched_or_null (some state) = is_matched state

abbrev is_missing_or_null : Option State → Bool
is_missing_or_null none = false
is_missing_or_null (some state) = is_missing state

abbrev invalid_relation : SnapshotFact → Option OwnSummary → Bool
invalid_relation s selected = is_matched_or_null s.state && not (is_some selected)

abbrev incomplete_missing : Bool → SnapshotFact → Bool
incomplete_missing complete s =
    not (is_own (source_of (present s.own_listing_id)))
    && is_missing_or_null s.state
    && not complete

-- `combinationState`.
unfoldable pub projected_state : Bool → SnapshotFact → Option OwnSummary → State
projected_state complete s selected =
    if not (is_some s.state) || invalid_relation s selected || incomplete_missing complete s
    then review_state
    else or_default review_state s.state

abbrev when : Bool → Text → List Text
when b reason = if b then reason ∷ [] else []

-- `combinationReasons`.
unfoldable pub projected_reasons : Bool → SnapshotFact → Option OwnSummary → List Text
projected_reasons complete s selected = unique (
    s.reasons
    ++ (when (not (is_some s.state)) (codes "LEGACY_COMBINATION_NOT_EVALUATED")
        ++ (when (invalid_relation s selected) (codes "INVALID_COMPARISON_OWN_SNAPSHOT")
            ++ when (incomplete_missing complete s) (codes "OWN_CATALOG_INCOMPLETE"))))

abbrev is_other : Option OwnSummary → OwnSummary → Bool
is_other none o = true
is_other (some selected) o = not (text_eq o.id selected.id)

abbrev alternatives_at : Dict (List OwnSummary) → Option OwnSummary → Option Text → List OwnSummary
alternatives_at by_signature selected none = []
alternatives_at by_signature selected (some signature) =
    filter (is_other selected) (rows_of signature by_signature)

-- `alternativeOwnSnapshots`.
unfoldable pub alternatives : OwnMaps → Option OwnSummary → SnapshotFact → List OwnSummary
alternatives maps selected s = alternatives_at maps.by_signature selected (present s.signature)

abbrev pub minus : Option ℕ → Option ℕ → Option ℤ
minus (some q) (some p) = some (sub_ℕ q p)
minus _ _ = none

-- `differenceFen`.
unfoldable pub difference_of : SnapshotFact → Option OwnSummary → Option ℤ
difference_of s none = none
difference_of s (some o) = minus (fen o.prices.payable) (fen s.prices.payable)

unfoldable pub summary_price : OwnSummary → Option ℕ
summary_price o = confirmed_price o.confidence o.stock o.prices.payable

-- `eligibleComparison`.
unfoldable pub eligible_comparison : Source → State → SnapshotFact → Option OwnSummary → Bool
eligible_comparison source state s none = false
eligible_comparison source state s (some o) =
    not (is_own source)
    && is_matched state
    && is_some (confirmed_price s.confidence s.stock s.prices.payable)
    && is_some (summary_price o)

abbrev decided : Bool → Option ℤ → ComparisonState
decided false d = undecided
decided true none = undecided
decided true (some d) = if is_positive d then lower else not_lower

-- `comparisonState`.
unfoldable pub comparison_state_of : Source → Bool → Option ℤ → ComparisonState
comparison_state_of own eligible d = own_row
comparison_state_of competitor eligible d = decided eligible d

abbrev abs_option : Option ℤ → Option ℕ
abs_option none = none
abs_option (some d) = some (abs_int d)

abbrev payable_of : Option OwnSummary → Option ℤ
payable_of none = none
payable_of (some o) = o.prices.payable

abbrev first_url : List PositionFact → Text
first_url [] = []
first_url (p ∷ ps) = p.url

-- `snapshot.url || itemPositions[0]?.url || ""`.
abbrev row_url : Text → List PositionFact → Text
row_url [] ps = first_url ps
row_url (a ∷ t) ps = a ∷ t

-- The row of one snapshot, from its relation and the positions of its item.
unfoldable pub row_of :
    Builtins → Bool → OwnMaps → Option OwnSummary → List PositionFact → SnapshotFact → SkuRow
row_of builtins complete maps selected ps s =
    let source : Source = source_of (present s.own_listing_id) in
    let state : State = projected_state complete s selected in
    let difference : Option ℤ = difference_of s selected in
    record {
      id = s.id;
      source = source;
      item_id = s.item_id;
      sku_id = s.sku_id;
      shop_name = s.shop_name;
      title = s.title;
      sku_text = s.sku_text;
      url = row_url s.url ps;
      ranks = map PositionFact.rank ps;
      positions = map (position_output builtins) ps;
      attributes = clone_attributes s.attributes;
      components = s.components;
      promotions = s.promotions;
      gifts = s.gifts;
      prices = s.prices;
      stock = s.stock;
      confidence = s.confidence;
      match_fact = s.match_fact;
      state = state;
      signature = s.signature;
      label = s.label;
      reasons = projected_reasons complete s selected;
      selected_own = selected;
      alternative_own = alternatives maps selected s;
      difference = difference;
      comparison_state =
          comparison_state_of source (eligible_comparison source state s selected) difference;
      own_payable = payable_of selected;
      comparison_difference = abs_option difference;
      evidence_sha256 = evidence_sha256 s.evidence_key;
      captured_at = builtins.iso s.captured_at;
    }

-- What the loops before the `map` of `projectedRows` compute.
unfoldable pub project : Builtins → ReportInput → SnapshotFact → SkuRow
project builtins input s =
    let maps = own_maps input.snapshots in
    row_of builtins input.catalog_complete maps (selected_of maps.by_id s)
      (rows_of s.item_id (positions_by_item builtins input.positions)) s

unfoldable pub projected_rows : Builtins → ReportInput → List SkuRow
projected_rows builtins input = sort compare_row (map (project builtins input) input.snapshots)
