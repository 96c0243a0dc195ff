-- ===== src/Pricing/Tests.antt =====
-- The prices of sample inputs.
use mathlib.Core.List.Perm
use price_monitor.Prelude.{
  ℕ, ◌≡◌, refl, none, some, List, [], ◌∷◌, Text, codes, text_eq, get, put, decimal, false, map,
  filter, ◌≤◌, ◌<◌, ◌⊎◌, ok, err, map_result, ◌↔◌,
}
use price_monitor.Money.{natural, assert_fen, max_safe, range_error}
use price_monitor.Pricing.Discounts
use price_monitor.Pricing.Discounts.{
  Inclusion, Promotion, Components, Derivation, derive, select, select_from, consider, finish,
}
use price_monitor.Pricing.Discounts.Totals.{Finished, finish-Finished, deducted}
use price_monitor.Pricing.Discounts.Reordering.{derive-total_perm}
use price_monitor.Pricing.Discounts.Grouping.{
  maximum, amounts, amount_in, select-maximum, select-reasons, undecided,
}
use price_monitor.Pricing.PublicPrice
use price_monitor.Pricing.PublicPrice.{
  Confidence, Input, PublicPrice, Checked, check_input, price_checked, assert_optional,
}
use price_monitor.Pricing.PublicPrice.Settlement.{
  Balanced, Explains, calculate-Explains, price_checked-confirmed_iff, price_checked_total,
}
use price_monitor.Pricing.Engine
use price_monitor.Pricing.Engine.Laws.{Accounts, calculate-Accounts}
use price_monitor.Pricing.Engine.{Adjustment, PriceInput, PriceResult}

abbrev promotion : Text → ℕ → ℕ → Text → Promotion ℕ
promotion label amount threshold group = record {
  kind = codes "COUPON";
  label = label;
  amount = some amount;
  threshold = some threshold;
  audience = codes "PUBLIC";
  stack_group = some group;
  inclusion = some Inclusion.excluded;
}

abbrev promotions : List (Promotion ℕ)
promotions =
    promotion (codes "a") 300 0 (codes "g")
    ∷ promotion (codes "b") 500 2000 (codes "g")
    ∷ promotion (codes "c") 900 9999 (codes "g")
    ∷ promotion (codes "d") 100 0 (codes "h")
    ∷ []

abbrev checked : Checked
checked = record {
  list_price = 6000;
  activity_price = 5000;
  mandatory_fee = 50;
  displayed_payable = none;
  promotions = promotions;
}

abbrev checked_price : PublicPrice
checked_price = record {
  list_price = 6000;
  activity_price = 5000;
  components = record { coupon = 600; full_reduction = 0; direct = 0; total = 600 };
  mandatory_fee = 50;
  payable = some 4450;
  confidence = Confidence.confirmed;
  applied_labels = codes "b" ∷ codes "d" ∷ [];
  review_reasons = [];
}

-- A hub to unfold what a run reads.
unfoldable pricing : Unit {0}
unfolding PublicPrice.calculate check_input PublicPrice.check_promotion assert_optional assert_fen
    price_checked derive select select_from consider Discounts.choose Discounts.consider_excluded
    Discounts.is_public Discounts.is_known_private Discounts.finish Discounts.sum_by_kind
    Discounts.assemble Discounts.add_fen PublicPrice.settle PublicPrice.payable_of
    PublicPrice.resolved PublicPrice.unresolved text_eq get put
pricing = tt

price_checked_sample : price_checked checked ≡ ok checked_price
unfolding pricing
price_checked_sample = refl

select-maximum_example :
    amount_in (codes "g") (select 5000 promotions).selected
    ≡ maximum (amounts 5000 (codes "g") promotions)
select-maximum_example = select-maximum 5000 (codes "g") promotions

select-reasons_example :
    (select 5000 promotions).reasons
    ≡ map (λ (p : Promotion ℕ). p.label) (filter (undecided 5000) promotions)
select-reasons_example = select-reasons 5000 promotions

finish-Finished_example : Finished (select 5000 promotions) (finish (select 5000 promotions))
finish-Finished_example = finish-Finished (select 5000 promotions)

price_checked-confirmed_example :
    (checked_price.confidence ≡ Confidence.confirmed) ↔ Balanced checked
price_checked-confirmed_example = price_checked-confirmed_iff checked price_checked_sample

price_checked_total_example :
    ((r : PublicPrice) × (price_checked checked ≡ ok r)
      × (deducted (select checked.activity_price checked.promotions) ≤ max_safe))
    ⊎ ((price_checked checked ≡ err range_error)
        × (max_safe < deducted (select checked.activity_price checked.promotions)))
price_checked_total_example = price_checked_total checked

derive-total_perm_example :
    map_result
      (λ (d : Derivation). d.components.total)
      (derive 5000
        (promotion (codes "a") 300 0 (codes "g") ∷ promotion (codes "b") 500 2000 (codes "g") ∷ []))
    ≡ map_result
        (λ (d : Derivation). d.components.total)
        (derive 5000 (
          promotion (codes "b") 500 2000 (codes "g")
          ∷ promotion (codes "a") 300 0 (codes "g")
          ∷ []))
derive-total_perm_example = derive-total_perm 5000 (
    Perm.swap (promotion (codes "b") 500 2000 (codes "g")) (promotion (codes "a") 300 0 (codes "g"))
      [])

abbrev input : Input
input = record {
  list_price = natural 6000;
  activity_price = natural 5000;
  mandatory_fee = natural 50;
  displayed_payable = some (natural 4800);
  promotions =
      record {
        kind = codes "DIRECT_DISCOUNT";
        label = codes "a";
        amount = some (natural 200);
        threshold = some (natural 0);
        audience = codes "MYSTERY";
        stack_group = none;
        inclusion = none;
      }
      ∷ [];
}

abbrev estimated_price : PublicPrice
estimated_price = record {
  list_price = 6000;
  activity_price = 5000;
  components = record { coupon = 0; full_reduction = 0; direct = 0; total = 0 };
  mandatory_fee = 50;
  payable = some 4800;
  confidence = Confidence.estimated;
  applied_labels = [];
  review_reasons = codes "a" ∷ [];
}

calculate_sample : PublicPrice.calculate input ≡ ok estimated_price
unfolding pricing
calculate_sample = refl

calculate-Explains_example : (c : Checked) × (check_input input ≡ ok c) × Explains c estimated_price
calculate-Explains_example = calculate-Explains input calculate_sample

abbrev order : PriceInput
order = record {
  page_price = some (natural 9900);
  public_discounts =
      record { label = codes "x"; amount = some (natural 1000) }
      ∷ record { label = codes "y"; amount = some (natural 400) }
      ∷ [];
  mandatory_fees = record { label = codes "z"; amount = some (natural 200) } ∷ [];
  private_price_required = false;
}

abbrev order_price : PriceResult
order_price = record {
  payable = some 8700;
  public_discount = 1400;
  confidence = Engine.confirmed;
  reasons = codes "具体SKU页面价 9900 分" ∷ codes "扣除公开优惠 1400 分" ∷ codes "加上必付费用 200 分" ∷ [];
}

order_sample : Engine.calculate order ≡ ok order_price
unfolding pricing Engine.calculate Engine.price_page Engine.known_total Engine.known_total_from
    Engine.price_discounts Engine.price_fees Engine.price_known Engine.legacy_promotions
    Engine.legacy_group Engine.conclude decimal
order_sample = refl

calculate-Accounts_example : Accounts order order_price
calculate-Accounts_example = calculate-Accounts order order_sample refl
