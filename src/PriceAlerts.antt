-- ===== src/PriceAlerts.antt =====
-- The rows of price alerts: apps/api/src/alerts/alert.service.ts `AlertService.evaluate`,
-- apps/api/src/alerts/alert-dedup.ts, and `createIfAbsent` of
-- apps/api/src/alerts/prisma-alert.repository.ts. The digest of a key, JSON and SHA-256 of libraries,
-- is a parameter.
pub mod Laws
pub mod Tests
use price_monitor.Prelude.{
  ℕ, ◌-◌, Bool, true, false, not, ◌&&◌, ◌||◌, Option, none, some, List, [], ◌∷◌, any, is_empty, leb,
  if◌then◌else◌, Text, codes, ◌++◌, text_eq, Result, ok, err, ◌>>=◌,
}
use price_monitor.Money.{Number, PriceError, type_error, is_safe}
use price_monitor.Pricing.PublicPrice.{Confidence}
use price_monitor.Comparison.{Stock, fen_of, is_confirmed, in_stock?}

pub data Kind : Type 0 where
  bare bundle : Kind

-- `AlertOffer`.
pub record Offer : Type 0 where
  pub model : Text
  pub snapshot_id : Text
  pub signature : Text
  pub item_id : Text
  pub sku_id : Text
  pub brand : Text
  pub standard_model : Text
  pub kind : Kind
  pub shop_name : Text
  pub sku_text : Text
  pub payable : Option Number
  pub confidence : Confidence
  pub stock : Stock
  pub url : Text
  pub captured_at : ℕ
  pub owner : Text

pub data Category : Type 0 where
  bare_match bundle_match rejected manual : Category

pub data Configuration : Type 0 where
  same different unknown not_applicable : Configuration

-- `AlertEvaluationDecision`.
pub record Evaluation : Type 0 where
  pub category : Category
  pub comparable : Bool
  pub configuration : Configuration
  pub reasons : List Text

pub data Severity : Type 0 where
  confirmed_low manual_review : Severity

pub data AlertStatus : Type 0 where
  pending price_changed no_follow false_positive watching : AlertStatus

-- `PriceAlertRecord`, as it is created; `own` and `competitor` stand for the fields that are copied from
-- the two offers.
pub record PriceAlert : Type 0 where
  pub model : Text
  pub severity : Severity
  pub status : AlertStatus
  pub dedup_key : Text
  pub own : Offer
  pub competitor : Offer
  pub own_price : ℕ
  pub competitor_price : ℕ
  pub difference : ℕ
  pub reasons : List Text
  pub first_seen_at : ℕ
  pub last_seen_at : ℕ

-- The object that `dedupKey` digests.
pub record KeyInput : Type 0 where
  pub model : Text
  pub signature : Text
  pub own_snapshot_id : Text
  pub item_id : Text
  pub sku_id : Text
  pub price : ℕ

-- `dedupKey`.
unfoldable pub dedup_key : (KeyInput → Text) → KeyInput → Result PriceError Text
dedup_key digest input =
    if is_safe input.price then ok (codes "price-v3:" ++ digest input) else err type_error

unfoldable pub key_input : Offer → Offer → ℕ → KeyInput
key_input own competitor price = record {
  model = own.model;
  signature = own.signature;
  own_snapshot_id = own.snapshot_id;
  item_id = competitor.item_id;
  sku_id = competitor.sku_id;
  price = price;
}

-- The negation of the first test of `evaluate`.
unfoldable pub is_comparable : Offer → Offer → Bool
is_comparable own competitor =
    text_eq own.model competitor.model
    && (not (is_empty own.signature)
        && (text_eq own.signature competitor.signature
            && (is_confirmed own.confidence
                && (is_confirmed competitor.confidence
                    && (in_stock? own.stock && in_stock? competitor.stock)))))

abbrev pub is_bundle : Category → Bool
is_bundle bundle_match = true
is_bundle _ = false

abbrev pub is_same : Configuration → Bool
is_same same = true
is_same _ = false

unfoldable pub severity_of : Evaluation → Option Severity
severity_of e =
    if e.comparable
    then some confirmed_low
    else if is_bundle e.category && not (is_same e.configuration)
    then some manual_review
    else none

abbrev pub Alerts : Type 0
Alerts = List PriceAlert

-- `createIfAbsent`, with the rows after it; the key is unique.
unfoldable pub create_if_absent : PriceAlert → Alerts → Option PriceAlert × Alerts
create_if_absent a rows =
    if any (λ (r : PriceAlert). text_eq r.dedup_key a.dedup_key) rows
    then (none, rows)
    else (some a, a ∷ rows)

unfoldable pub new_alert : Offer → Offer → ℕ → ℕ → Severity → List Text → Text → PriceAlert
new_alert own competitor own_price price severity reasons key = record {
  model = own.model;
  severity = severity;
  status = pending;
  dedup_key = key;
  own = own;
  competitor = competitor;
  own_price = own_price;
  competitor_price = price;
  difference = own_price - price;
  reasons = reasons;
  first_seen_at = competitor.captured_at;
  last_seen_at = competitor.captured_at;
}

-- `evaluate` from the severity on.
unfoldable pub raise_alert :
    (KeyInput → Text)
    → Offer
    → Offer
    → ℕ
    → ℕ
    → List Text
    → Alerts
    → Option Severity
    → Result PriceError (Option PriceAlert × Alerts)
raise_alert digest own competitor own_price price reasons rows none = ok (none, rows)
raise_alert digest own competitor own_price price reasons rows (some severity) =
    dedup_key digest (key_input own competitor price) >>= λ key.
    ok (create_if_absent (new_alert own competitor own_price price severity reasons key) rows)

-- `evaluate` from `validMoney` on.
unfoldable pub evaluate_prices :
    (KeyInput → Text)
    → Offer
    → Offer
    → Evaluation
    → Alerts
    → Option ℕ
    → Option ℕ
    → Result PriceError (Option PriceAlert × Alerts)
evaluate_prices digest own competitor e rows (some own_price) (some price) =
    if leb own_price price
    then ok (none, rows)
    else raise_alert digest own competitor own_price price e.reasons rows (severity_of e)
evaluate_prices digest own competitor e rows _ _ = ok (none, rows)

-- `AlertService.evaluate`.
unfoldable pub evaluate_alert :
    (KeyInput → Text)
    → Offer
    → Offer
    → Evaluation
    → Alerts
    → Result PriceError (Option PriceAlert × Alerts)
evaluate_alert digest own competitor e rows =
    if is_comparable own competitor
    then evaluate_prices digest own competitor e rows (fen_of own.payable)
        (fen_of competitor.payable)
    else ok (none, rows)
