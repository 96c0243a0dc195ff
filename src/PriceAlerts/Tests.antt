-- ===== src/PriceAlerts/Tests.antt =====
-- Two offers, of which the competitor's is cheaper.
use price_monitor.Prelude.{ℕ, ◌≡◌, refl, true, none, some, [], ◌∷◌, ◌++◌, Text, codes, text_eq, ok}
use price_monitor.Money.{natural}
use price_monitor.Pricing.PublicPrice.{Confidence}
use price_monitor.Comparison.{Stock}
use price_monitor.PriceAlerts.{
  Offer, AlertStatus, Evaluation, bare_match, same, confirmed_low, KeyInput, PriceAlert, bare,
  evaluate_alert, evaluate_prices, raise_alert, dedup_key, key_input, is_comparable, severity_of,
  create_if_absent, new_alert,
}
use price_monitor.PriceAlerts.Laws.{Raises, evaluate_alert-Raises, evaluate_alert-once}

abbrev digest : KeyInput → Text
digest k = k.signature ++ k.own_snapshot_id ++ k.item_id ++ k.sku_id

abbrev offer : Text → ℕ → Offer
offer id price = record {
  model = codes "m";
  snapshot_id = id;
  signature = codes "k";
  item_id = id;
  sku_id = id;
  brand = codes "b";
  standard_model = codes "s";
  kind = bare;
  shop_name = codes "shop";
  sku_text = codes "sku";
  payable = some (natural price);
  confidence = Confidence.confirmed;
  stock = Stock.in_stock;
  url = codes "u";
  captured_at = 5;
  owner = codes "o";
}

abbrev match : Evaluation
match = record { category = bare_match; comparable = true; configuration = same; reasons = [] }

abbrev raised : PriceAlert
raised = record {
  model = codes "m";
  severity = confirmed_low;
  status = AlertStatus.pending;
  dedup_key = codes "price-v3:" ++ (codes "k" ++ codes "o" ++ codes "c" ++ codes "c");
  own = offer (codes "o") 1000;
  competitor = offer (codes "c") 900;
  own_price = 1000;
  competitor_price = 900;
  difference = 100;
  reasons = [];
  first_seen_at = 5;
  last_seen_at = 5;
}

evaluate_alert_sample :
    evaluate_alert digest (offer (codes "o") 1000) (offer (codes "c") 900) match []
    ≡ ok (some raised, raised ∷ [])
unfolding evaluate_alert evaluate_prices raise_alert dedup_key key_input is_comparable severity_of
    create_if_absent new_alert text_eq
evaluate_alert_sample = refl

evaluate_alert-Raises_example :
    Raises digest (offer (codes "o") 1000) (offer (codes "c") 900) match [] raised (raised ∷ [])
evaluate_alert-Raises_example =
    evaluate_alert-Raises digest (offer (codes "o") 1000) (offer (codes "c") 900) match []
      evaluate_alert_sample

evaluate_alert-once_example :
    evaluate_alert digest (offer (codes "o") 1000) (offer (codes "c") 900) match (raised ∷ [])
    ≡ ok (none, raised ∷ [])
evaluate_alert-once_example =
    evaluate_alert-once digest (offer (codes "o") 1000) (offer (codes "c") 900) match []
      evaluate_alert_sample
