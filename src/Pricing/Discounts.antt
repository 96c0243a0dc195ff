-- ===== src/Pricing/Discounts.antt =====
-- packages/contracts/src/promotion-discount-components.ts: which promotions are deducted.
-- Amounts are checked by the callers before they come here, so they are natural numbers.
pub mod Grouping
pub mod Totals
pub mod Reordering
use price_monitor.Prelude.{
  ℕ, ◌+◌, Bool, true, false, ◌||◌, Option, none, some, List, [], ◌∷◌, ◌++◌, map, ltb, if◌then◌else◌,
  Text, codes, text_eq, Dict, get, put, values, any, Result, ok, err, ◌>>=◌,
}
use price_monitor.Money.{PriceError, range_error, is_safe}

pub data Inclusion : Type 0 where
  included excluded unknown : Inclusion

-- `amountFen`, `thresholdFen` are numbers of type `N`.
pub record Promotion (N : Type 0) : Type 0 where
  pub kind : Text
  pub label : Text
  pub amount : Option N
  pub threshold : Option N
  pub audience : Text
  pub stack_group : Option Text
  pub inclusion : Option Inclusion

pub record Applied : Type 0 where
  pub kind : Text
  pub label : Text
  pub amount : ℕ

pub record Components : Type 0 where
  pub coupon : ℕ
  pub full_reduction : ℕ
  pub direct : ℕ
  pub total : ℕ

pub record Derivation : Type 0 where
  pub components : Components
  pub applied_labels : List Text
  pub review_reasons : List Text

abbrev pub known_private_audiences : List Text
known_private_audiences =
    codes "MEMBER" ∷ codes "88VIP" ∷ codes "ACCOUNT" ∷ codes "PERSONAL_RED_PACKET" ∷ []

unfoldable pub is_known_private : Text → Bool
unfolding text_eq
is_known_private audience = any (text_eq audience) known_private_audiences

unfoldable pub is_public : Text → Bool
unfolding text_eq
is_public audience = text_eq audience (codes "PUBLIC")

unfoldable pub add_fen : ℕ → ℕ → Result PriceError ℕ
add_fen total value = if is_safe (total + value) then ok (total + value) else err range_error

-- The state of the first loop: `selectedByStackGroup` and `reviewReasons`.
pub record Selection : Type 0 where
  pub selected : Dict Applied
  pub reasons : List Text

-- The last `if` of the loop: the first of the largest amounts of a group stays.
unfoldable pub choose : Text → Applied → Dict Applied → Dict Applied
choose group offer selected = elim (get group selected) [
  | none ↦ put group offer selected
  | some current ↦ if ltb current.amount offer.amount then put group offer selected else selected
]

abbrev push_reason : Promotion ℕ → Selection → Selection
push_reason p s = record s { reasons = s.reasons ++ p.label ∷ [] }

-- A public promotion that is not included in the activity price.
unfoldable pub consider_excluded : ℕ → Promotion ℕ → Selection → Selection
consider_excluded activity p s = elim p.threshold [
  | none ↦ push_reason p s
  | some threshold ↦ if ltb activity threshold then s else elim p.amount [
    | none ↦ push_reason p s
    | some amount ↦ elim p.stack_group [
      | none ↦ push_reason p s
      | some group ↦ record s {
        selected =
            choose group (record { kind = p.kind; label = p.label; amount = amount }) s.selected;
      }
    ]
  ]
]

-- The body of the first loop.
unfoldable pub consider : ℕ → Promotion ℕ → Selection → Selection
unfolding consider_excluded
consider activity p s =
    if is_public p.audience
    then elim p.inclusion [
      | some Inclusion.included ↦ s
      | some Inclusion.excluded ↦ consider_excluded activity p s
      | some Inclusion.unknown ↦ push_reason p s
      | none ↦ push_reason p s
    ]
    else if is_known_private p.audience
    then s
    else push_reason p s

unfoldable pub select_from : ℕ → List (Promotion ℕ) → Selection → Selection
select_from activity [] s = s
select_from activity (p ∷ ps) s = select_from activity ps (consider activity p s)

unfoldable pub select : ℕ → List (Promotion ℕ) → Selection
unfolding select_from
select activity ps = select_from activity ps (record { selected = []; reasons = [] })

-- The second loop, over `couponDiscountFen`, `fullReductionFen` and `directDiscountFen`.
unfoldable pub sum_by_kind : List Applied → ℕ → ℕ → ℕ → Result PriceError (ℕ × ℕ × ℕ)
sum_by_kind [] coupon full direct = ok (coupon, full, direct)
sum_by_kind (p ∷ ps) coupon full direct =
    let as_coupon = add_fen coupon p.amount >>= λ c. sum_by_kind ps c full direct in
    let as_full = add_fen full p.amount >>= λ f. sum_by_kind ps coupon f direct in
    let as_direct = add_fen direct p.amount >>= λ d. sum_by_kind ps coupon full d in
    if text_eq p.kind (codes "COUPON")
    then as_coupon
    else if text_eq p.kind (codes "FULL_REDUCTION")
    then as_full
    else as_direct

-- The returned object, from the three sums.
unfoldable pub assemble : Selection → ℕ × ℕ × ℕ → Result PriceError Derivation
unfolding add_fen
assemble s (coupon, full, direct) = do
  both ← add_fen coupon full
  total ← add_fen both direct
  ok (record {
    components = record { coupon = coupon; full_reduction = full; direct = direct; total = total };
    applied_labels = map (λ (p : Applied). p.label) (values s.selected);
    review_reasons = s.reasons;
  })

-- `derivePromotionDiscounts` after its first loop.
unfoldable pub finish : Selection → Result PriceError Derivation
unfolding sum_by_kind assemble
finish s = sum_by_kind (values s.selected) 0 0 0 >>= assemble s

unfoldable pub derive : ℕ → List (Promotion ℕ) → Result PriceError Derivation
unfolding finish
derive activity ps = finish (select activity ps)
