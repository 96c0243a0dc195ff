-- ===== src/Pricing/Engine/Legacy.antt =====
-- The promotions that `PriceEngineService.calculate` makes of known discounts, each in a stack group
-- of its own.
use mathlib.Core.List.{append_cancel_left}
use price_monitor.Prelude.{
  ℕ, suc, ◌+◌, ◌≤◌, ◌≡◌, ◌≢◌, inl, inr, le→leb, get, refl, false, Option, some, List, [], ◌∷◌, map,
  arith, All, Bool-cases, Text, codes, text_eq, text_eq_iff, decimal, decimal-injective, ok,
  traverse,
}
use price_monitor.Money.{natural, max_safe, assert_fen}
use price_monitor.Pricing.Discounts.{Inclusion, Promotion, Selection, select, is_public}
use price_monitor.Pricing.Discounts.Grouping.{amount_in, offer_of}
use price_monitor.Pricing.Discounts.Totals.{deducted}
use price_monitor.Pricing.Discounts.Reordering.{
  Amounts, current, raise, gains, deducted-select_from,
}
use price_monitor.Pricing.PublicPrice.{check_promotion}
use price_monitor.Pricing.Engine.{Adjustment, legacy_group, legacy_promotions}

-- A discount or a fee whose amount is known.
abbrev pub Known : Type 0
Known = Text × ℕ

abbrev pub adjustment : Known → Adjustment
adjustment (label, amount) = record { label = label; amount = some (natural amount) }

abbrev pub sum_known : List Known → ℕ
sum_known [] = 0
sum_known ((label, amount) ∷ rest) = amount + sum_known rest

abbrev pub AllSafe : List Known → Type 0
AllSafe = All (λ k. k.1 ≤ max_safe)

-- The promotions after their validation.
abbrev pub promotion : ℕ → Text → ℕ → Promotion ℕ
promotion k label amount = record {
  kind = codes "DIRECT_DISCOUNT";
  label = label;
  amount = some amount;
  threshold = some 0;
  audience = codes "PUBLIC";
  stack_group = some (legacy_group k);
  inclusion = some Inclusion.excluded;
}

abbrev pub checked : ℕ → List Known → List (Promotion ℕ)
checked k [] = []
checked k ((label, amount) ∷ rest) = promotion k label amount ∷ checked (suc k) rest

pub legacy_promotions-checked :
    (k : ℕ) (ks : List Known)
    → AllSafe ks
    → traverse check_promotion (legacy_promotions k (map adjustment ks)) ≡ ok (checked k ks)
unfolding legacy_promotions check_promotion assert_fen
legacy_promotions-checked k [] h = refl
legacy_promotions-checked k ((label, amount) ∷ rest) (le, h) =
    simp (le→leb _ _ le, legacy_promotions-checked (suc k) rest h)

legacy_group-ne : (j k : ℕ) → j ≢ k → text_eq (legacy_group j) (legacy_group k) ≡ false
unfolding legacy_group
legacy_group-ne j k ne = elim (Bool-cases (text_eq (legacy_group j) (legacy_group k))) [
  | inr different ↦ different
  | inl same ↦ absurd (
      ne (
        decimal-injective j k (
          append_cancel_left (codes "legacy-public-discount-") (decimal j) (decimal k)
            ((text_eq_iff (legacy_group j) (legacy_group k)).0 same))))
]

raise_later :
    (k amount : ℕ) (cur : Amounts)
    → ((j : ℕ) → k ≤ j → cur (legacy_group j) ≡ 0)
    → (j : ℕ) → suc k ≤ j
    → raise (some (legacy_group k, amount)) cur (legacy_group j) ≡ 0
raise_later k amount cur h j lt = rw (legacy_group-ne k j (λ e. omega arith)) (h j (omega arith))

offer_of-checked :
    (page k amount : ℕ) (label : Text)
    → offer_of page (promotion k label amount) ≡ some (legacy_group k, amount)
unfolding offer_of is_public text_eq
offer_of-checked page k amount label = ground arith

gains-checked :
    (page k : ℕ) (ks : List Known) (cur : Amounts)
    → ((j : ℕ) → k ≤ j → cur (legacy_group j) ≡ 0)
    → gains page (checked k ks) cur ≡ sum_known ks
unfolding gains
gains-checked page k [] cur h = refl
gains-checked page k ((label, amount) ∷ rest) cur h = rw (offer_of-checked page k amount label) (
    let offer : Option (Text × ℕ) = some (legacy_group k, amount) in
    let ih = gains-checked page (suc k) rest (raise offer cur) (raise_later k amount cur h) in
    rw ih (omega (arith, h k (omega arith))))

pub deducted-checked :
    (page : ℕ) (ks : List Known) → deducted (select page (checked 0 ks)) ≡ sum_known ks
unfolding select
deducted-checked page ks =
    let start : Selection = record { selected = []; reasons = [] } in
    let empty : (j : ℕ) → 0 ≤ j → current start.selected (legacy_group j) ≡ 0 =
      λ j le. unfold amount_in get in refl in
    omega (
      arith,
      deducted-select_from page (checked 0 ks) start,
      gains-checked page 0 ks (current start.selected) empty,
    )
