-- ===== src/Comparison/Classify.antt =====
-- run-sku-comparison.ts: the decision on one candidate, in the main loop.
use price_monitor.Prelude.{
  ℕ, ◌-◌, Bool, not, ◌&&◌, Option, none, some, List, [], ◌∷◌, ◌++◌, any, all, is_empty, ltb,
  if◌then◌else◌, Text, codes, Dict, get,
}
use price_monitor.Money.{Number}
use price_monitor.Comparison.{
  Combination, signed, review, excluded, Candidate, Signed, Priced, as_eligible,
  has_confirmed_payable, out_of_stock?, unknown_stock?, unique, is_own,
}
use price_monitor.Comparison.Own.{rows_of}

pub data State : Type 0 where
  own_state matched missing_own review_state excluded_state : State

-- `SnapshotCombinationDecision`.
pub record Decision : Type 0 where
  pub snapshot_id : Text
  pub signature : Option Text
  pub label : Option Text
  pub state : State
  pub comparison_own : Option Text
  pub reasons : List Text

-- `RunSkuAlertCandidate`, with the competitor's SKU that it is of.
pub record Alert : Type 0 where
  pub candidate : Candidate
  pub comparison_own : Text
  pub signature : Text
  pub label : Text
  pub competitor_price : ℕ
  pub own_price : ℕ
  pub difference : ℕ
  pub search_ranks : List Number

pub data MissingReason : Type 0 where
  own_combination_absent own_out_of_stock_only : MissingReason

pub record MissingEntry : Type 0 where
  pub offer : Priced
  pub reason : MissingReason

-- What one round of the main loop adds to the three results.
pub record Round : Type 0 where
  pub decision : Decision
  pub alert : Option Alert
  pub missing : Option MissingEntry

-- What the main loop reads: `ownCatalogComplete`, `selectedOwnBySignature`, `allOwnBySignature`.
pub record Context : Type 0 where
  pub catalog_complete : Bool
  pub selected : Dict Priced
  pub all_own : Dict (List Signed)

abbrev pub signature_of : Combination → Option Text
signature_of (signed signature label reasons) = some signature
signature_of _ = none

abbrev pub label_of : Combination → Option Text
label_of (signed signature label reasons) = some label
label_of (review label reasons) = label
label_of (excluded reasons) = none

-- `decision`.
abbrev pub decision : Candidate → State → List Text → Option Text → Decision
decision c state reasons comparison_own = record {
  snapshot_id = c.snapshot_id;
  signature = signature_of c.combination;
  label = label_of c.combination;
  state = state;
  comparison_own = comparison_own;
  reasons = reasons;
}

abbrev pub only : Decision → Round
only d = record { decision = d; alert = none; missing = none }

abbrev when : Bool → Text → List Text
when b reason = if b then reason ∷ [] else []

unfoldable pub own_review_reasons : Signed → List Text
own_review_reasons s = unique (
    s.reasons
    ++ (when (not (has_confirmed_payable s.candidate)) (codes "OWN_PRICE_UNCONFIRMED")
        ++ (when (out_of_stock? s.candidate.stock) (codes "OWN_OUT_OF_STOCK")
            ++ when (unknown_stock? s.candidate.stock) (codes "OWN_STOCK_UNCONFIRMED"))))

unfoldable pub competitor_review_reasons : Signed → List Text
competitor_review_reasons s = unique (
    s.reasons
    ++ (when (out_of_stock? s.candidate.stock) (codes "COMPETITOR_OUT_OF_STOCK")
        ++ (when (unknown_stock? s.candidate.stock) (codes "COMPETITOR_STOCK_UNKNOWN")
            ++ when (not (has_confirmed_payable s.candidate))
                (codes "COMPETITOR_PRICE_UNCONFIRMED"))))

-- `uniqueReasons(candidate.combination.reasons, [reason])`.
unfoldable pub with_reason : Signed → Text → List Text
with_reason s reason = unique (s.reasons ++ reason ∷ [])

unfoldable pub classify_own_signed : Signed → Option Priced → Round
classify_own_signed s (some p) = only (decision s.candidate own_state s.reasons none)
classify_own_signed s none = only (decision s.candidate review_state (own_review_reasons s) none)

abbrev pub alert_of : Signed → ℕ → Priced → Alert
alert_of s price baseline = record {
  candidate = s.candidate;
  comparison_own = baseline.signed.candidate.snapshot_id;
  signature = s.signature;
  label = s.label;
  competitor_price = price;
  own_price = baseline.price;
  difference = baseline.price - price;
  search_ranks = s.candidate.search_ranks;
}

-- The branch of an exact match: `if (selectedBaseline) …`.
unfoldable pub classify_matched : Signed → ℕ → Priced → Round
classify_matched s price baseline = record {
  decision =
      decision s.candidate matched (with_reason s (codes "EXACT_SIGNATURE"))
        (some baseline.signed.candidate.snapshot_id);
  alert = if ltb price baseline.price then some (alert_of s price baseline) else none;
  missing = none;
}

abbrev pub missing_round : Signed → ℕ → MissingReason → List Text → Round
missing_round s price reason reasons = record {
  decision = decision s.candidate missing_own reasons none;
  alert = none;
  missing = some (record { offer = record { signed = s; price = price }; reason = reason });
}

-- The branches without a baseline, from the own rows of the same signature.
unfoldable pub classify_unmatched : Signed → ℕ → List Signed → Round
classify_unmatched s price rows =
    if any (λ (o : Signed). not (has_confirmed_payable o.candidate)) rows
    then only
        (decision s.candidate review_state (with_reason s (codes "OWN_PRICE_UNCONFIRMED")) none)
    else if not (is_empty rows) && all (λ (o : Signed). out_of_stock? o.candidate.stock) rows
    then missing_round s price own_out_of_stock_only (with_reason s (codes "OWN_OUT_OF_STOCK_ONLY"))
    else if not (is_empty rows)
    then only
        (decision s.candidate review_state (with_reason s (codes "OWN_STOCK_UNCONFIRMED")) none)
    else missing_round s price own_combination_absent
        (with_reason s (codes "OWN_COMBINATION_ABSENT"))

-- From `selectedOwnBySignature.get(signature)` on.
unfoldable pub classify_against : Context → Signed → ℕ → Option Priced → Round
classify_against ctx s price (some baseline) = classify_matched s price baseline
classify_against ctx s price none = classify_unmatched s price (rows_of s.signature ctx.all_own)

-- A competitor's signed candidate that is in stock and has a confirmed price.
unfoldable pub classify_priced : Context → Signed → ℕ → Round
classify_priced ctx s price =
    if not ctx.catalog_complete
    then only
        (decision s.candidate review_state (with_reason s (codes "OWN_CATALOG_INCOMPLETE")) none)
    else classify_against ctx s price (get s.signature ctx.selected)

unfoldable pub classify_competitor : Context → Signed → Option Priced → Round
classify_competitor ctx s none =
    only (decision s.candidate review_state (competitor_review_reasons s) none)
classify_competitor ctx s (some p) = classify_priced ctx s p.price

unfoldable pub classify_by : Context → Candidate → Combination → Round
classify_by ctx c (excluded reasons) = only (decision c excluded_state reasons none)
classify_by ctx c (review label reasons) = only (decision c review_state reasons none)
classify_by ctx c (signed signature label reasons) =
    let s : Signed = record {
      candidate = c;
      signature = signature;
      label = label;
      reasons = reasons;
    } in
    if is_own c.source
    then classify_own_signed s (as_eligible s)
    else classify_competitor ctx s (as_eligible s)

-- One round of the main loop.
unfoldable pub classify : Context → Candidate → Round
classify ctx c = classify_by ctx c c.combination
