-- ===== src/Pricing/Engine/Laws.antt =====
-- The result of `PriceEngineService.calculate` where it is confirmed.
use mathlib.Core.Option
use price_monitor.Prelude.{
  ℕ, ◌+◌, ◌≤◌, ◌≡◌, ◌≢◌, inl, inr, refl, sym, ap, ap₂, Option-cases, ◌∙◌, subst, Bool, true, false,
  Option, none, some, List, [], ◌∷◌, map, arith, if◌then◌else◌, Bool-cases, Text, Result, ok, err,
  ◌>>=◌, >>=-eq-ok, ok-injective,
}
use price_monitor.Money.{
  Number, natural, other, PriceError, range_error, max_safe, is_safe, assert_fen,
}
use price_monitor.Pricing.Discounts.{select}
use price_monitor.Pricing.Discounts.Totals.{deducted}
use price_monitor.Pricing.PublicPrice
use price_monitor.Pricing.PublicPrice.{
  Confidence, PublicPrice, Checked, assert_optional, check_input, price_checked,
}
use price_monitor.Pricing.PublicPrice.Settlement.{
  Priced, Explains, calculate-Explains, check_input-eq-ok,
}
use price_monitor.Pricing.Engine.{
  Adjustment, PriceInput, PriceResult, confirmed, manual, manual_result, known_total_from,
  known_total, legacy_promotions, conclude, price_known, price_fees, price_discounts, price_page,
  calculate,
}
use price_monitor.Pricing.Engine.Legacy.{
  Known, adjustment, sum_known, AllSafe, checked, legacy_promotions-checked, deducted-checked,
}

assert_fen-eq-ok : (n : Number) {v : ℕ} → assert_fen n ≡ ok v → (n ≡ natural v) × (v ≤ max_safe)
unfolding assert_fen
assert_fen-eq-ok (natural n) h = ground arith
assert_fen-eq-ok other h = cc

-- A total that is known is the sum of amounts that are all known.
abbrev pub Totals : List Adjustment → ℕ → ℕ → Type 0
Totals adjustments total n =
    (ks : List Known) × (adjustments ≡ map adjustment ks) × AllSafe ks × (total + sum_known ks ≡ n)

Totals-cons :
    (a : Adjustment) (rest : List Adjustment) (total v : ℕ) {n : ℕ}
    → a.amount ≡ some (natural v)
    → v ≤ max_safe
    → Totals rest (total + v) n
    → Totals (a ∷ rest) total n
Totals-cons a rest total v {n} e le (ks, same, safe, sum) = (
  (a.label, v) ∷ ks,
  ap₂ ◌∷◌ (λ i. record { label = a.label; amount = e i }) same,
  (le, safe),
  omega arith,
)

-- The rest of the loop after one amount, if it is in range.
safe_branch {ℓ} :
    {A : Type ℓ} (b : Bool) (x : Result PriceError A) (e : PriceError) {y : A}
    → (if b then x else err e) ≡ ok y
    → x ≡ ok y
safe_branch true x e h = h
safe_branch false x e h = cc

-- One round of the loop, by the amount that it meets.
round : Option Number → List Adjustment → ℕ → Bool → Result PriceError (Option ℕ)
round none rest total unknown = known_total_from rest total true
round (some n) rest total unknown = assert_fen n >>= λ v.
    (if is_safe (total + v) then known_total_from rest (total + v) unknown else err range_error)

known_total_from-round :
    (a : Adjustment) (rest : List Adjustment) (total : ℕ) (unknown : Bool)
    → known_total_from (a ∷ rest) total unknown ≡ round a.amount rest total unknown
unfolding known_total_from round
known_total_from-round a rest total unknown = ground arith

round-eq-ok :
    (n : Number) (rest : List Adjustment) (total : ℕ) (unknown : Bool) {o : Option ℕ}
    → round (some n) rest total unknown ≡ ok o
    → (v : ℕ) × (n ≡ natural v)
      × (v ≤ max_safe)
      × (known_total_from rest (total + v) unknown ≡ ok o)
unfolding round
round-eq-ok n rest total unknown h =
    let (v, e, h') = >>=-eq-ok (assert_fen n) _ h in
    let (same, le) = assert_fen-eq-ok n e in (v, same, le, safe_branch (is_safe (total + v)) _ _ h')

-- Once an amount is unknown, so is the total.
known_total_from_unknown :
    (adjustments : List Adjustment) (total : ℕ) {n : ℕ}
    → known_total_from adjustments total true ≢ ok (some n)
unfolding known_total_from round
known_total_from_unknown [] total h = cc
known_total_from_unknown (a ∷ rest) total h = elim (Option-cases a.amount) [
  | inl absent ↦ known_total_from_unknown rest total (
      ap (λ o. round o rest total true) (sym absent)
      ∙ sym (known_total_from-round a rest total true)
      ∙ h)
  | inr (m, here) ↦
      (let (v, same, le, h') = round-eq-ok m rest total true (
          ap (λ o. round o rest total true) (sym here)
          ∙ sym (known_total_from-round a rest total true)
          ∙ h) in
        known_total_from_unknown rest (total + v) h')
]

known_total_from-Totals :
    (adjustments : List Adjustment) (total : ℕ) {n : ℕ}
    → known_total_from adjustments total false ≡ ok (some n)
    → Totals adjustments total n
unfolding known_total_from round
known_total_from-Totals [] total h = ([], refl, tt, ground arith)
known_total_from-Totals (a ∷ rest) total h = elim (Option-cases a.amount) [
  | inl absent ↦ absurd (
      known_total_from_unknown rest total (
        ap (λ o. round o rest total false) (sym absent)
        ∙ sym (known_total_from-round a rest total false)
        ∙ h))
  | inr (m, here) ↦
      (let (v, same, le, h') = round-eq-ok m rest total false (
          ap (λ o. round o rest total false) (sym here)
          ∙ sym (known_total_from-round a rest total false)
          ∙ h) in
        Totals-cons a rest total v (here ∙ ap some same) le
          (known_total_from-Totals rest (total + v) h'))
]

natural-injective : {m n : ℕ} → natural m ≡ natural n → m ≡ n
natural-injective e = cc

manual-ne-confirmed : manual ≢ confirmed
manual-ne-confirmed e = cc

conclude-confirmed :
    (page fee : ℕ) (q : PublicPrice)
    → (conclude page fee q).confidence ≡ confirmed
    → (q.confidence ≡ Confidence.confirmed)
      × ((conclude page fee q).payable ≡ q.payable)
      × ((conclude page fee q).public_discount ≡ q.components.total)
unfolding conclude
conclude-confirmed page fee q h = ground arith

known_total-Totals :
    (adjustments : List Adjustment) {n : ℕ}
    → known_total adjustments ≡ ok (some n)
    → Totals adjustments 0 n
unfolding known_total
known_total-Totals adjustments h = known_total_from-Totals adjustments 0 h

-- The input that `calculate` hands to `calculateDesktop`.
abbrev desktop_input : List Adjustment → ℕ → ℕ → PublicPrice.Input
desktop_input discounts page fee = record {
  list_price = natural page;
  activity_price = natural page;
  promotions = legacy_promotions 0 discounts;
  mandatory_fee = natural fee;
  displayed_payable = none;
}

abbrev Balances : ℕ → ℕ → List Known → PublicPrice → Type 0
Balances page fee discounts q =
    (n : ℕ) × (q.payable ≡ some n)
    × (q.components.total ≡ sum_known discounts)
    × (n + sum_known discounts ≡ page + fee)

Explains-balance :
    (page fee : ℕ) (discounts : List Known) (c : Checked) (q : PublicPrice)
    → page ≡ c.activity_price
    → fee ≡ c.mandatory_fee
    → checked 0 discounts ≡ c.promotions
    → Explains c q
    → q.confidence ≡ Confidence.confirmed
    → Balances page fee discounts q
Explains-balance page fee discounts c q same_page same_fee same_promotions x conf =
    let (n, payable, balance, le, reasons) =
      subst (λ k. Priced k c.displayed_payable q) conf x.priced in
    let total : deducted (select c.activity_price c.promotions) ≡ sum_known discounts =
      ap (λ ps. deducted (select c.activity_price ps)) (sym same_promotions)
      ∙ deducted-checked c.activity_price discounts in
    (n, payable, x.discount ∙ total, omega (arith, x.activity, x.fee, x.discount, total))

desktop-balance :
    (discounts : List Known) (page fee : ℕ) {q : PublicPrice}
    → AllSafe discounts
    → PublicPrice.calculate (desktop_input (map adjustment discounts) page fee) ≡ ok q
    → q.confidence ≡ Confidence.confirmed
    → Balances page fee discounts q
desktop-balance discounts page fee {q} safe h conf =
    let input = desktop_input (map adjustment discounts) page fee in
    let (c, e, x) = calculate-Explains input h in
    let (list, activity, mandatory, displayed, promotions) = check_input-eq-ok input e in
    Explains-balance page fee discounts c q
      (natural-injective (assert_fen-eq-ok (natural page) activity).0)
      (natural-injective (assert_fen-eq-ok (natural fee) mandatory).0)
      (ok-injective (sym (legacy_promotions-checked 0 discounts safe) ∙ promotions)) x conf

-- What a confirmed price says of the input: the page price and the amounts of all discounts and fees
-- are known, and price and discounts are page price and fees.
abbrev pub Accounts : PriceInput → PriceResult → Type 0
Accounts input r =
    (page : ℕ) × (payable : ℕ) × (discounts : List Known) × (fees : List Known)
    × (input.private_price_required ≡ false)
    × (input.page_price ≡ some (natural page))
    × (input.public_discounts ≡ map adjustment discounts)
    × (input.mandatory_fees ≡ map adjustment fees)
    × (r.payable ≡ some payable)
    × (r.public_discount ≡ sum_known discounts)
    × (payable + sum_known discounts ≡ page + sum_known fees)

-- `calculate` succeeds with a confirmed price only along the path where everything is known.
price_fees-confirmed :
    (input : PriceInput) (page d : ℕ) (o : Option ℕ) {r : PriceResult}
    → price_fees input page d o ≡ ok r
    → r.confidence ≡ confirmed
    → (fee : ℕ) × (o ≡ some fee) × (price_known input page fee ≡ ok r)
unfolding price_fees
price_fees-confirmed input page d none h conf =
    absurd (manual-ne-confirmed (ap PriceResult.confidence (ok-injective h) ∙ conf))
price_fees-confirmed input page d (some fee) h conf = (fee, refl, h)

price_discounts-confirmed :
    (input : PriceInput) (page : ℕ) (o : Option ℕ) {r : PriceResult}
    → price_discounts input page o ≡ ok r
    → r.confidence ≡ confirmed
    → (d : ℕ) × (fee : ℕ) × (o ≡ some d)
      × (known_total input.mandatory_fees ≡ ok (some fee))
      × (price_known input page fee ≡ ok r)
unfolding price_discounts
price_discounts-confirmed input page none h conf =
    absurd (manual-ne-confirmed (ap PriceResult.confidence (ok-injective h) ∙ conf))
price_discounts-confirmed input page (some d) h conf =
    let (o, e, h') = >>=-eq-ok (known_total input.mandatory_fees) _ h in
    let (fee, same, h'') = price_fees-confirmed input page d o h' conf in
    (d, fee, refl, e ∙ ap ok same, h'')

price_page-confirmed :
    (input : PriceInput) (page : Option ℕ) {r : PriceResult}
    → price_page input page ≡ ok r
    → r.confidence ≡ confirmed
    → (p : ℕ) × (d : ℕ) × (fee : ℕ) × (input.private_price_required ≡ false)
      × (page ≡ some p)
      × (known_total input.public_discounts ≡ ok (some d))
      × (known_total input.mandatory_fees ≡ ok (some fee))
      × (price_known input p fee ≡ ok r)
unfolding price_page
price_page-confirmed input page {r} h conf = elim (Bool-cases input.private_price_required) [
  | inl private_price ↦ absurd (manual-ne-confirmed (refused (rw private_price at h)))
  | inr open_price ↦ elim (Option-cases page) [
    | inl absent ↦ absurd (manual-ne-confirmed (refused (rw (open_price, absent) at h)))
    | inr (p, here) ↦
        (let h' : (known_total input.public_discounts >>= price_discounts input p) ≡ ok r =
            rw (open_price, here) at h in
          let (o, e, h'') = >>=-eq-ok (known_total input.public_discounts) _ h' in
          let (d, fee, same, fees, last) = price_discounts-confirmed input p o h'' conf in
          (p, d, fee, open_price, here, e ∙ ap ok same, fees, last))
  ]
]
  where
    refused :
        {reason : Text}
        → ◌≡◌ {A = Result PriceError PriceResult} (ok (manual_result 0 reason)) (ok r)
        → manual ≡ confirmed
    refused e = ap PriceResult.confidence (ok-injective e) ∙ conf

assert_optional-eq-some :
    (o : Option Number) {p : ℕ} → assert_optional o ≡ ok (some p) → o ≡ some (natural p)
unfolding assert_optional
assert_optional-eq-some none h = cc
assert_optional-eq-some (some n) h =
    let (m, e, h') = >>=-eq-ok (assert_fen n) _ h in
    let same : some m ≡ some _ = ok-injective h' in
    ap some ((assert_fen-eq-ok n e).0) ∙ ap (Option.map natural) same

price_known-confirmed :
    (input : PriceInput) (page fee : ℕ) (discounts : List Known) {r : PriceResult}
    → input.public_discounts ≡ map adjustment discounts
    → AllSafe discounts
    → price_known input page fee ≡ ok r
    → r.confidence ≡ confirmed
    → (n : ℕ) × (r.payable ≡ some n)
      × (r.public_discount ≡ sum_known discounts)
      × (n + sum_known discounts ≡ page + fee)
unfolding price_known
price_known-confirmed input page fee discounts {r} same safe h conf =
    let (q, e, h') =
      >>=-eq-ok (PublicPrice.calculate (desktop_input input.public_discounts page fee)) _ h in
    let result : conclude page fee q ≡ r = ok-injective h' in
    let (sure, payable, discount) =
      conclude-confirmed page fee q (ap PriceResult.confidence result ∙ conf) in
    let (n, price, total, balance) =
      desktop-balance discounts page fee safe
        (ap (λ ds. PublicPrice.calculate (desktop_input ds page fee)) (sym same) ∙ e) sure in
    (
      n,
      sym (ap PriceResult.payable result) ∙ payable ∙ price,
      sym (ap PriceResult.public_discount result) ∙ discount ∙ total,
      balance,
    )

-- A confirmed price is computed only where the page price and the amounts of all discounts and fees
-- are known and no private price is required. Then the price and the sum of all discounts are
-- together the page price and the sum of the fees: each discount is deducted once.
pub calculate-Accounts :
    (input : PriceInput) {r : PriceResult}
    → calculate input ≡ ok r
    → r.confidence ≡ confirmed
    → Accounts input r
unfolding calculate
calculate-Accounts input {r} h conf =
    let (o, e, h') = >>=-eq-ok (assert_optional input.page_price) _ h in
    let (page, d, fee, open_price, here, sum_d, sum_f, last) =
      price_page-confirmed input o h' conf in
    let (discounts, same_d, safe_d, eq_d) = known_total-Totals input.public_discounts sum_d in
    let (fees, same_f, safe_f, eq_f) = known_total-Totals input.mandatory_fees sum_f in
    let (n, payable, discount, balance) =
      price_known-confirmed input page fee discounts same_d safe_d last conf in
    (
      page,
      n,
      discounts,
      fees,
      open_price,
      assert_optional-eq-some input.page_price (e ∙ ap ok here),
      same_d,
      same_f,
      payable,
      discount,
      omega arith,
    )
