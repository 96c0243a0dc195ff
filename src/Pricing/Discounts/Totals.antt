-- ===== src/Pricing/Discounts/Totals.antt =====
-- The second loop of `derivePromotionDiscounts`: the discount by kind, and the total.
use price_monitor.Prelude.{
  ℕ, Bool, not, ◌&&◌, filter, ◌+◌, ◌≤◌, ◌<◌, ◌≡◌, refl, ap, true, false, text_eq→eq, subst, inl,
  inr, List, [], ◌∷◌, map, arith, if◌then◌else◌, Bool-cases, codes, text_eq, values, Result, ok,
  err, map_result, ◌>>=◌,
}
use price_monitor.Money.{PriceError, range_error, is_safe, max_safe}
use price_monitor.Pricing.Discounts.{
  Applied, Selection, Derivation, add_fen, sum_by_kind, assemble, finish,
}

abbrev pub sum_amounts : List Applied → ℕ
sum_amounts [] = 0
sum_amounts (a ∷ rest) = a.amount + sum_amounts rest

-- What the map of selected promotions deducts in all.
abbrev pub deducted : Selection → ℕ
deducted s = sum_amounts (values s.selected)

-- The kinds: a coupon, a full reduction, and every other kind, which is direct.
abbrev pub is_coupon : Applied → Bool
is_coupon a = text_eq a.kind (codes "COUPON")

abbrev pub is_full_reduction : Applied → Bool
is_full_reduction a = text_eq a.kind (codes "FULL_REDUCTION")

abbrev pub is_direct : Applied → Bool
is_direct a = not (is_coupon a) && not (is_full_reduction a)

-- What the promotions of a kind deduct.
abbrev pub deducted_by : (Applied → Bool) → Selection → ℕ
deducted_by kind s = sum_amounts (filter kind (values s.selected))

abbrev pub safe_total : ℕ → Result PriceError ℕ
safe_total n = if is_safe n then ok n else err range_error

-- The sums of a run of the loop, or the reason why it threw.
abbrev Sums : Result PriceError (ℕ × ℕ × ℕ) → ℕ → ℕ → ℕ → Type 0
Sums (ok (c, f, d)) l m n = (c ≡ l) × (f ≡ m) × (d ≡ n)
Sums (err e) l m n = (e ≡ range_error) × (max_safe < l + m + n)

add_fen-Sums :
    (total value : ℕ) (next : ℕ → Result PriceError (ℕ × ℕ × ℕ)) (l m n : ℕ)
    → Sums (next (total + value)) l m n
    → total + value ≤ l + m + n
    → Sums (add_fen total value >>= next) l m n
unfolding add_fen
add_fen-Sums total value next l m n h le = elim (Bool-cases (is_safe (total + value))) [
  | inl safe ↦ rw safe h
  | inr unsafe ↦ rw unsafe (refl, ground arith)
]

-- The promotions of a kind.
abbrev of_kind : (Applied → Bool) → List Applied → ℕ
of_kind kind ps = sum_amounts (filter kind ps)

coupon→not_full : (p : Applied) → is_coupon p ≡ true → is_full_reduction p ≡ false
unfolding text_eq
coupon→not_full p h =
    ap (λ k. text_eq k (codes "FULL_REDUCTION")) (text_eq→eq p.kind (codes "COUPON") h)

plus_plus : (a b c : ℕ) → a + b + c ≡ a + (b + c)
plus_plus a b c = omega arith

sum_by_kind-Sums :
    (ps : List Applied) (c f d : ℕ)
    → Sums
        (sum_by_kind ps c f d)
        (c + of_kind is_coupon ps)
        (f + of_kind is_full_reduction ps)
        (d + of_kind is_direct ps)
unfolding sum_by_kind
sum_by_kind-Sums [] c f d = (omega arith, omega arith, omega arith)
sum_by_kind-Sums (p ∷ ps) c f d =
    let cs = of_kind is_coupon ps in
    let fs = of_kind is_full_reduction ps in
    let ds = of_kind is_direct ps in
    elim (Bool-cases (is_coupon p)) [
      | inl coupon ↦
          rw (coupon, coupon→not_full p coupon)
            (add_fen-Sums c p.amount (λ c'. sum_by_kind ps c' f d) _ _ _
              (subst (λ n. Sums (sum_by_kind ps (c + p.amount) f d) n (f + fs) (d + ds))
                (plus_plus c p.amount cs) (sum_by_kind-Sums ps (c + p.amount) f d))
              (omega arith))
      | inr other ↦ elim (Bool-cases (is_full_reduction p)) [
        | inl full ↦
            rw (other, full)
              (add_fen-Sums f p.amount (λ f'. sum_by_kind ps c f' d) _ _ _
                (subst (λ n. Sums (sum_by_kind ps c (f + p.amount) d) (c + cs) n (d + ds))
                  (plus_plus f p.amount fs) (sum_by_kind-Sums ps c (f + p.amount) d))
                (omega arith))
        | inr direct ↦
            rw (other, direct)
              (add_fen-Sums d p.amount (λ d'. sum_by_kind ps c f d') _ _ _
                (subst (λ n. Sums (sum_by_kind ps c f (d + p.amount)) (c + cs) (f + fs) n)
                  (plus_plus d p.amount ds) (sum_by_kind-Sums ps c f (d + p.amount)))
                (omega arith))
      ]
    ]

-- The parts are all that is deducted.
of_kind-sum :
    (ps : List Applied)
    → of_kind is_coupon ps + of_kind is_full_reduction ps + of_kind is_direct ps ≡ sum_amounts ps
of_kind-sum [] = omega arith
of_kind-sum (p ∷ ps) =
    let ih = of_kind-sum ps in
    elim (Bool-cases (is_coupon p)) [
      | inl coupon ↦ rw (coupon, coupon→not_full p coupon) (omega arith)
      | inr other ↦ elim (Bool-cases (is_full_reduction p)) [
        | inl full ↦ rw (other, full) (omega arith)
        | inr direct ↦ rw (other, direct) (omega arith)
      ]
    ]

-- A derivation adds up: its total is the sum of its three parts and of the amounts selected, and each
-- part is what the promotions of its kind deduct.
abbrev pub AddsUp : Selection → Derivation → Type 0
AddsUp s d =
    (d.components.total ≡ deducted s)
    × (d.components.total ≡ d.components.coupon + d.components.full_reduction + d.components.direct)
    × (d.components.coupon ≡ deducted_by is_coupon s)
    × (d.components.full_reduction ≡ deducted_by is_full_reduction s)
    × (d.components.direct ≡ deducted_by is_direct s)
    × (d.components.total ≤ max_safe)
    × (d.applied_labels ≡ map (λ (a : Applied). a.label) (values s.selected))
    × (d.review_reasons ≡ s.reasons)

abbrev pub Finished : Selection → Result PriceError Derivation → Type 0
Finished s (ok d) = AddsUp s d
Finished s (err e) = (e ≡ range_error) × (max_safe < deducted s)

assemble-Finished :
    (s : Selection) (sums : Result PriceError (ℕ × ℕ × ℕ))
    → Sums sums
        (deducted_by is_coupon s)
        (deducted_by is_full_reduction s)
        (deducted_by is_direct s)
    → Finished s (sums >>= assemble s)
unfolding assemble
assemble-Finished s (err e) (same, over) =
    let parts = of_kind-sum (values s.selected) in (same, omega arith)
assemble-Finished s (ok (c, f, d)) (hc, hf, hd) =
    let parts = of_kind-sum (values s.selected) in
    elim (Bool-cases (is_safe (c + f))) [
      | inr unsafe ↦ rw unsafe (refl, ground arith)
      | inl safe ↦ elim (Bool-cases (is_safe (c + f + d))) [
        | inr unsafe ↦ rw (safe, unsafe) (refl, ground arith)
        | inl safe' ↦ rw (safe, safe') ((omega arith, refl, hc, hf, hd, ground arith, refl, refl))
      ]
    ]

zero_parts : (l m n : ℕ) → ◌≡◌ {A = ℕ × ℕ × ℕ} (0 + l, 0 + m, 0 + n) (l, m, n)
zero_parts l m n =
    let a : 0 + l ≡ l = omega arith in
    let b : 0 + m ≡ m = omega arith in let c : 0 + n ≡ n = omega arith in rw (a, b, c)

-- Either the derivation throws since the amounts selected exceed the safe range, or it returns their
-- total, the labels of the selected promotions and the reasons for review, and splits the total by kind:
-- the coupon part is what the selected coupons deduct, the full reduction part what the full reductions
-- deduct, and the direct part what all the others deduct.
pub finish-Finished : (s : Selection) → Finished s (finish s)
unfolding finish
finish-Finished s = assemble-Finished s (sum_by_kind (values s.selected) 0 0 0) (
    subst (λ (n : ℕ × ℕ × ℕ). Sums (sum_by_kind (values s.selected) 0 0 0) n.0 n.1 n.2)
      (zero_parts _ _ _) (sum_by_kind-Sums (values s.selected) 0 0 0))

-- The total alone: the sum of the selected amounts, if that is a safe integer.
pub finish-total :
    (s : Selection)
    → map_result (λ (d : Derivation). d.components.total) (finish s) ≡ safe_total (deducted s)
finish-total s = from (finish s) (finish-Finished s)
  where
    from :
        (r : Result PriceError Derivation)
        → Finished s r
        → map_result (λ (d : Derivation). d.components.total) r ≡ safe_total (deducted s)
    from (ok d) h = ground arith
    from (err e) (same, over) = ground arith
