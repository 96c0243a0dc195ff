-- ===== src/Pricing/Engine.antt =====
-- apps/api/src/pricing/price-engine.service.ts: the price of an offer from its page price, its public
-- discounts and its mandatory fees.
pub mod Legacy
pub mod Laws
use price_monitor.Prelude.{
  ℕ, suc, ◌+◌, Bool, true, false, Option, none, some, List, [], ◌∷◌, ◌++◌, ltb, if◌then◌else◌, Text,
  codes, decimal, Result, ok, err, ◌>>=◌,
}
use price_monitor.Money.{Number, natural, PriceError, range_error, assert_fen, is_safe}
use price_monitor.Pricing.Discounts.{Inclusion, Promotion}
use price_monitor.Pricing.PublicPrice
use price_monitor.Pricing.PublicPrice.{Confidence, PublicPrice, assert_optional}

pub record Adjustment : Type 0 where
  pub label : Text
  pub amount : Option Number

pub record PriceInput : Type 0 where
  pub page_price : Option Number
  pub public_discounts : List Adjustment
  pub mandatory_fees : List Adjustment
  pub private_price_required : Bool

pub data Verdict : Type 0 where
  confirmed manual : Verdict

pub record PriceResult : Type 0 where
  pub payable : Option ℕ
  pub public_discount : ℕ
  pub confidence : Verdict
  pub reasons : List Text

-- The loop of `knownTotal`, over `total` and `hasUnknownAmount`.
unfoldable pub known_total_from : List Adjustment → ℕ → Bool → Result PriceError (Option ℕ)
known_total_from [] total unknown = ok (if unknown then none else some total)
known_total_from (a ∷ rest) total unknown = elim a.amount [
  | none ↦ known_total_from rest total true
  | some n ↦ assert_fen n >>= λ v.
      (let next = known_total_from rest (total + v) unknown in
        if is_safe (total + v) then next else err range_error)
]

unfoldable pub known_total : List Adjustment → Result PriceError (Option ℕ)
unfolding known_total_from
known_total adjustments = known_total_from adjustments 0 false

-- `stackGroup` of the discount at index `k`.
unfoldable pub legacy_group : ℕ → Text
legacy_group k = codes "legacy-public-discount-" ++ decimal k

-- `legacyPromotions`, from the discount at index `k` on.
unfoldable pub legacy_promotions : ℕ → List Adjustment → List (Promotion Number)
legacy_promotions k [] = []
legacy_promotions k (a ∷ rest) =
    record {
      kind = codes "DIRECT_DISCOUNT";
      label = a.label;
      amount = a.amount;
      threshold = some (natural 0);
      audience = codes "PUBLIC";
      stack_group = some (legacy_group k);
      inclusion = some Inclusion.excluded;
    }
    ∷ legacy_promotions (suc k) rest

abbrev pub manual_result : ℕ → Text → PriceResult
manual_result discount reason = record {
  payable = none;
  public_discount = discount;
  confidence = manual;
  reasons = reason ∷ [];
}

abbrev pub line : Text → ℕ → List Text
line label n = (label ++ decimal n ++ codes " 分") ∷ []

-- The end of `calculate`, from the result of `calculateDesktop`.
unfoldable pub conclude : ℕ → ℕ → PublicPrice → PriceResult
conclude page fee r = conclude_by r.confidence r.payable
  where
    invalid : PriceResult
    invalid = manual_result r.components.total (codes "优惠或费用组合产生无效到手价，需要人工核对")

    conclude_by : Confidence → Option ℕ → PriceResult
    conclude_by Confidence.confirmed (some payable) = record {
      payable = some payable;
      public_discount = r.components.total;
      confidence = confirmed;
      reasons =
          line (codes "具体SKU页面价 ") page
          ++ (if ltb 0 r.components.total then line (codes "扣除公开优惠 ") r.components.total else [])
          ++ (if ltb 0 fee then line (codes "加上必付费用 ") fee else []);
    }
    conclude_by _ _ = invalid

-- `calculate` from the two totals on.
unfoldable pub price_known : PriceInput → ℕ → ℕ → Result PriceError PriceResult
unfolding legacy_promotions legacy_group conclude
price_known input page fee =
    PublicPrice.calculate (record {
      list_price = natural page;
      activity_price = natural page;
      promotions = legacy_promotions 0 input.public_discounts;
      mandatory_fee = natural fee;
      displayed_payable = none;
    })
    >>= λ r. ok (conclude page fee r)

-- `calculate` from `knownTotal(input.mandatoryFees, …)` on.
unfoldable pub price_fees : PriceInput → ℕ → ℕ → Option ℕ → Result PriceError PriceResult
unfolding price_known
price_fees input page discount none = ok (manual_result discount (codes "存在金额无法确认的必付费用，需要人工核对"))
price_fees input page discount (some fee) = price_known input page fee

-- `calculate` from `knownTotal(input.publicDiscounts, …)` on.
unfoldable pub price_discounts : PriceInput → ℕ → Option ℕ → Result PriceError PriceResult
unfolding known_total price_fees
price_discounts input page none = ok (manual_result 0 (codes "存在金额无法确认的公开优惠，需要人工核对适用条件"))
price_discounts input page (some discount) =
    known_total input.mandatory_fees >>= price_fees input page discount

-- `calculate` after the check of the page price.
unfoldable pub price_page : PriceInput → Option ℕ → Result PriceError PriceResult
unfolding known_total price_discounts
price_page input page =
    if input.private_price_required
    then ok (manual_result 0 (codes "价格需要私聊或联系客服后才能确定，不能作为自动比价依据"))
    else elim page [
      | none ↦ ok (manual_result 0 (codes "缺少具体SKU页面价，不能使用搜索区间最低价代替"))
      | some p ↦ known_total input.public_discounts >>= price_discounts input p
    ]

-- `PriceEngineService.calculate`.
unfoldable pub calculate : PriceInput → Result PriceError PriceResult
unfolding price_page
calculate input = assert_optional input.page_price >>= price_page input
