-- ===== src/Pricing/PublicPrice/Settlement.antt =====
-- What the result of `calculatePublicPrice` says of its price.
use mathlib.Core.Logic.Iff
use price_monitor.Prelude.{
  ℕ, ◌≤◌, ◌≡◌, refl, subst, sym, ap, ◌∙◌, ◌≢◌, true, false, is_empty, ◌⊎◌, ◌↔◌, ◌+◌, map, inl, inr,
  Option, none, some, List, [], ◌∷◌, filter, arith, Result, ok, err, ◌<◌, ◌>>=◌, >>=-eq-ok,
  ok-injective, traverse,
}
use price_monitor.Money.{PriceError, range_error, max_safe, assert_fen}
use price_monitor.Pricing.Discounts.{
  Promotion, Components, Derivation, Selection, derive, select, finish,
}
use price_monitor.Pricing.Discounts.Grouping.{undecided, select-reasons}
use price_monitor.Pricing.Discounts.Totals.{AddsUp, Finished, deducted, finish-Finished}
use price_monitor.Pricing.PublicPrice.{
  Confidence, confirmed, estimated, manual_review, Input, PublicPrice, assert_optional,
  check_promotion, payable_of, resolved, unresolved, base_result, settle, assert_optional,
  check_promotion, Checked, check_input, price_checked, calculate,
}

-- A confirmed price balances and leaves nothing to review; an estimated price is the displayed one,
-- and something is to be reviewed; without either there is no price, and a reason is given.
abbrev pub Priced : Confidence → Option ℕ → PublicPrice → Type 0
Priced confirmed displayed r =
    (n : ℕ) × (r.payable ≡ some n)
    × (n + r.components.total ≡ r.activity_price + r.mandatory_fee)
    × (n ≤ max_safe)
    × (r.review_reasons ≡ [])
Priced estimated displayed r =
    (n : ℕ) × (r.payable ≡ some n) × (displayed ≡ some n) × (r.review_reasons ≢ [])
Priced manual_review displayed r = (r.payable ≡ none) × (r.review_reasons ≢ [])

payable_of-eq-some :
    (activity discount fee : ℕ) {n : ℕ}
    → payable_of activity discount fee ≡ some n
    → (n + discount ≡ activity + fee) × (n ≤ max_safe)
unfolding payable_of
payable_of-eq-some activity discount fee h = ground arith

-- A list that is empty, and one that is not.
is_empty-cases {ℓ} :
    {A : Type ℓ} (xs : List A)
    → ((is_empty xs ≡ true) × (xs ≡ [])) ⊎ ((is_empty xs ≡ false) × (xs ≢ []))
is_empty-cases [] = inl (refl, refl)
is_empty-cases (x ∷ xs) = inr (refl, λ e. cc)

resolved-Priced :
    (base : PublicPrice) (displayed o : Option ℕ)
    → payable_of base.activity_price base.components.total base.mandatory_fee ≡ o
    → base.payable ≡ none
    → base.confidence ≡ manual_review
    → base.review_reasons ≡ []
    → Priced (resolved base o).confidence displayed (resolved base o)
unfolding resolved
resolved-Priced base displayed none h p c e = rw c (p, λ e'. cc)
resolved-Priced base displayed (some n) h p c e =
    let (balance, le) = payable_of-eq-some _ _ _ h in (n, refl, balance, le, e)

unresolved-Priced :
    (base : PublicPrice) (displayed : Option ℕ)
    → base.payable ≡ none
    → base.confidence ≡ manual_review
    → base.review_reasons ≢ []
    → Priced (unresolved base displayed).confidence displayed (unresolved base displayed)
unfolding unresolved
unresolved-Priced base none p c e = rw c (p, e)
unresolved-Priced base (some n) p c e = (n, refl, refl, e)

settle-Priced :
    (list activity fee : ℕ) (displayed : Option ℕ) (d : Derivation)
    → let r = settle list activity fee displayed d in Priced r.confidence displayed r
unfolding settle
settle-Priced list activity fee displayed d =
    let base = base_result list activity fee d in
    elim (is_empty-cases d.review_reasons) [
      | inl (empty, e) ↦ rw empty (resolved-Priced base displayed _ refl refl refl e)
      | inr (more, e) ↦ rw more (unresolved-Priced base displayed refl refl e)
    ]

settle-kept :
    (list activity fee : ℕ) (displayed : Option ℕ) (d : Derivation)
    → let r = settle list activity fee displayed d in
      (r.list_price ≡ list)
      × (r.activity_price ≡ activity)
      × (r.mandatory_fee ≡ fee)
      × (r.components ≡ d.components)
      × (r.applied_labels ≡ d.applied_labels)
unfolding settle resolved unresolved
settle-kept list activity fee displayed d = ground arith

derive-AddsUp :
    (activity : ℕ) (ps : List (Promotion ℕ)) {d : Derivation}
    → derive activity ps ≡ ok d
    → AddsUp (select activity ps) d
unfolding derive
derive-AddsUp activity ps e =
    subst (Finished (select activity ps)) e (finish-Finished (select activity ps))

-- What the result says of the checked input: the prices are the input's, the discount is the sum of
-- the amounts selected, and the price is as `Priced` says.
pub record Explains (c : Checked) (r : PublicPrice) : Type 0 where
  pub list : r.list_price ≡ c.list_price
  pub activity : r.activity_price ≡ c.activity_price
  pub fee : r.mandatory_fee ≡ c.mandatory_fee
  pub discount : r.components.total ≡ deducted (select c.activity_price c.promotions)
  pub priced : Priced r.confidence c.displayed_payable r

settle-Explains :
    (c : Checked) (d : Derivation)
    → AddsUp (select c.activity_price c.promotions) d
    → Explains c (settle c.list_price c.activity_price c.mandatory_fee c.displayed_payable d)
settle-Explains c d h =
    let kept = settle-kept c.list_price c.activity_price c.mandatory_fee c.displayed_payable d in
    record {
      list = kept.0;
      activity = kept.1;
      fee = kept.2;
      discount = ap Components.total kept.3 ∙ h.0;
      priced = settle-Priced c.list_price c.activity_price c.mandatory_fee c.displayed_payable d;
    }

price_checked-Explains : (c : Checked) {r : PublicPrice} → price_checked c ≡ ok r → Explains c r
unfolding price_checked
price_checked-Explains c {r} h =
    let (d, e, s) = >>=-eq-ok (derive c.activity_price c.promotions) _ h in
    subst (Explains c) (ok-injective s)
      (settle-Explains c d (derive-AddsUp c.activity_price c.promotions e))

-- What the validation hands on.
pub check_input-eq-ok :
    (input : Input) {c : Checked}
    → check_input input ≡ ok c
    → (assert_fen input.list_price ≡ ok c.list_price)
      × (assert_fen input.activity_price ≡ ok c.activity_price)
      × (assert_fen input.mandatory_fee ≡ ok c.mandatory_fee)
      × (assert_optional input.displayed_payable ≡ ok c.displayed_payable)
      × (traverse check_promotion input.promotions ≡ ok c.promotions)
unfolding check_input
check_input-eq-ok input {c} h = ground arith

-- A price that is returned comes from an input whose numbers all passed the validation. Its discount
-- is the sum of the amounts selected. If it is confirmed, price and discount are activity price and
-- fee; if it is estimated, it is the displayed price; and if it is for manual review, there is none.
pub calculate-Explains :
    (input : Input) {r : PublicPrice}
    → calculate input ≡ ok r
    → (c : Checked) × (check_input input ≡ ok c) × Explains c r
unfolding calculate
calculate-Explains input {r} h =
    let (c, e, h') = >>=-eq-ok (check_input input) price_checked h in
    (c, e, price_checked-Explains c h')

settle-confirmed_iff :
    (list activity fee : ℕ) (displayed : Option ℕ) (d : Derivation)
    → ((settle list activity fee displayed d).confidence ≡ confirmed) ↔ (
        (d.review_reasons ≡ [])
        × (d.components.total ≤ activity + fee)
        × (activity + fee ≤ d.components.total + max_safe))
unfolding settle resolved unresolved payable_of
settle-confirmed_iff list activity fee displayed d = (ground arith, ground arith)

map-eq-nil {ℓ κ} : {A : Type ℓ} {B : Type κ} (f : A → B) (xs : List A) → (map f xs ≡ []) ↔ (xs ≡ [])
map-eq-nil f [] = (λ e. refl, λ e. refl)
map-eq-nil f (x ∷ xs) = (λ e. cc, λ e. cc)

-- No promotion is left undecided, and the price lies in the safe range.
abbrev pub Balanced : Checked → Type 0
Balanced c =
    (filter (undecided c.activity_price) c.promotions ≡ [])
    × (deducted (select c.activity_price c.promotions) ≤ c.activity_price + c.mandatory_fee)
    × (c.activity_price + c.mandatory_fee
        ≤ deducted (select c.activity_price c.promotions) + max_safe)

Balanced-iff :
    (c : Checked) (d : Derivation)
    → AddsUp (select c.activity_price c.promotions) d
    → ((d.review_reasons ≡ [])
        × (d.components.total ≤ c.activity_price + c.mandatory_fee)
        × (c.activity_price + c.mandatory_fee ≤ d.components.total + max_safe))
      ↔ Balanced c
Balanced-iff c d (total, parts, coupons, reductions, directs, safe, labels, reasons) =
    let nothing =
      map-eq-nil (λ (p : Promotion ℕ). p.label)
        (filter (undecided c.activity_price) c.promotions) in
    let reviewed = reasons ∙ select-reasons c.activity_price c.promotions in
    (
      λ h. (nothing.0 (sym reviewed ∙ h.0), omega arith, omega arith),
      λ h. (reviewed ∙ nothing.1 h.0, omega arith, omega arith),
    )

settle-confirmed_iff_Balanced :
    (c : Checked) (d : Derivation)
    → AddsUp (select c.activity_price c.promotions) d
    → ((settle c.list_price c.activity_price c.mandatory_fee c.displayed_payable d).confidence
        ≡ confirmed)
      ↔ Balanced c
settle-confirmed_iff_Balanced c d sums =
    Iff.trans
      (settle-confirmed_iff c.list_price c.activity_price c.mandatory_fee c.displayed_payable d)
      (Balanced-iff c d sums)

-- The confidence is CONFIRMED exactly when no promotion is left undecided and the price, activity
-- price less discount plus fee, lies in the safe range from 0 on.
pub price_checked-confirmed_iff :
    (c : Checked) {r : PublicPrice}
    → price_checked c ≡ ok r
    → (r.confidence ≡ confirmed) ↔ Balanced c
unfolding price_checked
price_checked-confirmed_iff c {r} h =
    let (d, e, s) = >>=-eq-ok (derive c.activity_price c.promotions) _ h in
    subst (λ (q : PublicPrice). (q.confidence ≡ confirmed) ↔ Balanced c) (ok-injective s)
      (settle-confirmed_iff_Balanced c d (derive-AddsUp c.activity_price c.promotions e))

-- A checked input is priced unless the amounts selected exceed the safe range, and then the error is
-- the RangeError.
pub price_checked_total :
    (c : Checked)
    → ((r : PublicPrice) × (price_checked c ≡ ok r)
        × (deducted (select c.activity_price c.promotions) ≤ max_safe))
      ⊎ ((price_checked c ≡ err range_error)
          × (max_safe < deducted (select c.activity_price c.promotions)))
unfolding price_checked derive
price_checked_total c = from (finish s) (finish-Finished s)
  where
    s : Selection
    s = select c.activity_price c.promotions

    from :
        (x : Result PriceError Derivation)
        → Finished s x
        → let out =
            (x >>= λ d.
            ok (settle c.list_price c.activity_price c.mandatory_fee c.displayed_payable d)) in
          ((r : PublicPrice) × (out ≡ ok r) × (deducted s ≤ max_safe))
          ⊎ ((out ≡ err range_error) × (max_safe < deducted s))
    from (ok d) h = inl (_, refl, omega arith)
    from (err e) (same, over) = inr (rw same, over)
