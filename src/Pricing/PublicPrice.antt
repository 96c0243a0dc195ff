-- ===== src/Pricing/PublicPrice.antt =====
-- packages/config/src/public-price.ts: the public payable price of a SKU.
pub mod Settlement
use price_monitor.Prelude.{
  ℕ, ◌+◌, ◌-◌, Option, none, some, List, [], ◌∷◌, ltb, is_empty, if◌then◌else◌, Text, codes, Result,
  ok, err, ◌>>=◌, traverse,
}
use price_monitor.Money.{Number, PriceError, assert_fen, is_safe}
use price_monitor.Pricing.Discounts.{Promotion, Components, Derivation, derive}

pub data Confidence : Type 0 where
  confirmed estimated manual_review : Confidence

pub record Input : Type 0 where
  pub list_price : Number
  pub activity_price : Number
  pub promotions : List (Promotion Number)
  pub mandatory_fee : Number
  pub displayed_payable : Option Number

pub record PublicPrice : Type 0 where
  pub list_price : ℕ
  pub activity_price : ℕ
  pub components : Components
  pub mandatory_fee : ℕ
  pub payable : Option ℕ
  pub confidence : Confidence
  pub applied_labels : List Text
  pub review_reasons : List Text

-- `if (value !== null) assertFen(value, …)`.
unfoldable pub assert_optional : Option Number → Result PriceError (Option ℕ)
assert_optional none = ok none
assert_optional (some n) = assert_fen n >>= λ m. ok (some m)

-- The body of the validation loop; the promotion comes back with its checked amounts.
unfoldable pub check_promotion : Promotion Number → Result PriceError (Promotion ℕ)
unfolding assert_optional
check_promotion p = do
  amount ← assert_optional p.amount
  threshold ← assert_optional p.threshold
  ok (record {
    kind = p.kind;
    label = p.label;
    amount = amount;
    threshold = threshold;
    audience = p.audience;
    stack_group = p.stack_group;
    inclusion = p.inclusion;
  })

abbrev pub invalid_payable : Text
invalid_payable = codes "优惠或费用组合产生无效到手价，需要人工核对"

-- `activityPriceFen - publicDiscountFen + mandatoryFeeFen`, if that is a safe number from 0 on.
unfoldable pub payable_of : ℕ → ℕ → ℕ → Option ℕ
payable_of activity discount fee =
    if ltb (activity + fee) discount
    then none
    else if is_safe (activity + fee - discount)
    then some (activity + fee - discount)
    else none

-- The result where promotions are left to review: `if (reviewReasons.length > 0) …`.
unfoldable pub unresolved : PublicPrice → Option ℕ → PublicPrice
unresolved base none = base
unresolved base (some shown) = record base {
  payable = some shown;
  confidence = Confidence.estimated;
}

-- The result where none is.
unfoldable pub resolved : PublicPrice → Option ℕ → PublicPrice
resolved base none = record base { review_reasons = invalid_payable ∷ [] }
resolved base (some payable) = record base {
  payable = some payable;
  confidence = Confidence.confirmed;
}

-- `baseResult`, without a price.
abbrev pub base_result : ℕ → ℕ → ℕ → Derivation → PublicPrice
base_result list activity fee d = record {
  list_price = list;
  activity_price = activity;
  components = d.components;
  mandatory_fee = fee;
  payable = none;
  confidence = Confidence.manual_review;
  applied_labels = d.applied_labels;
  review_reasons = d.review_reasons;
}

-- `calculatePublicPrice` after the derivation.
unfoldable pub settle : ℕ → ℕ → ℕ → Option ℕ → Derivation → PublicPrice
unfolding payable_of resolved unresolved
settle list activity fee displayed d =
    let base = base_result list activity fee d in
    if is_empty d.review_reasons
    then resolved base (payable_of activity d.components.total fee)
    else unresolved base displayed

-- The input after the validation of its numbers.
pub record Checked : Type 0 where
  pub list_price : ℕ
  pub activity_price : ℕ
  pub mandatory_fee : ℕ
  pub displayed_payable : Option ℕ
  pub promotions : List (Promotion ℕ)

-- The validation that `calculatePublicPrice` begins with.
unfoldable pub check_input : Input → Result PriceError Checked
unfolding check_promotion assert_optional
check_input input = do
  list ← assert_fen input.list_price
  activity ← assert_fen input.activity_price
  fee ← assert_fen input.mandatory_fee
  displayed ← assert_optional input.displayed_payable
  promotions ← traverse check_promotion input.promotions
  ok (record {
    list_price = list;
    activity_price = activity;
    mandatory_fee = fee;
    displayed_payable = displayed;
    promotions = promotions;
  })

-- The rest of `calculatePublicPrice`.
unfoldable pub price_checked : Checked → Result PriceError PublicPrice
unfolding settle
price_checked c = derive c.activity_price c.promotions >>= λ d.
    ok (settle c.list_price c.activity_price c.mandatory_fee c.displayed_payable d)

-- `calculatePublicPrice`.
unfoldable pub calculate : Input → Result PriceError PublicPrice
unfolding check_input price_checked
calculate input = check_input input >>= price_checked
