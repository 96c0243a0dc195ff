-- ===== src/Pricing/Discounts/Reordering.antt =====
-- `derivePromotionDiscounts` under a reordering of the promotions.
use mathlib.Core.List.{Permᴰ, Perm}
use mathlib.Core.Path.{fun_ext}
use mathlib.Core.Logic.{∥∥₁_elim}
use native.Mathlib.Nat.{ℕ_set}
use price_monitor.Prelude.{
  ℕ, ◌+◌, ◌-◌, max, ◌≡◌, refl, sym, ap, ◌∙◌, Option, none, some, List, [], ◌∷◌, arith,
  if◌then◌else◌, Text, text_eq, text_eq_iff, Dict, get, put, values, map_result,
}
use price_monitor.Pricing.Discounts.{
  Promotion, Applied, Selection, Derivation, choose, consider, select_from, select, derive,
}
use price_monitor.Pricing.Discounts.Grouping.{
  offer_of, amount_in, with_choice, raised, consider-selected, amount_in-with_choice,
}
use price_monitor.Pricing.Discounts.Totals.{sum_amounts, deducted, safe_total, finish-total}

-- The amount of each group so far, 0 where it has none.
abbrev pub Amounts : Type 0
Amounts = Text → ℕ

abbrev pub or_zero : Option ℕ → ℕ
or_zero none = 0
or_zero (some n) = n

abbrev pub current : Dict Applied → Amounts
current m group = or_zero (amount_in group m)

abbrev pub raise : Option (Text × ℕ) → Amounts → Amounts
raise none cur group = cur group
raise (some (g, amount)) cur group = if text_eq g group then max (cur group) amount else cur group

-- By how much an offer raises the total.
abbrev pub gain : Option (Text × ℕ) → Amounts → ℕ
gain none cur = 0
gain (some (g, amount)) cur = max (cur g) amount - cur g

unfoldable pub gains : ℕ → List (Promotion ℕ) → Amounts → ℕ
gains activity [] cur = 0
gains activity (p ∷ ps) cur =
    gain (offer_of activity p) cur + gains activity ps (raise (offer_of activity p) cur)

sum_amounts-put :
    (g : Text) (a : Applied) (m : Dict Applied)
    → sum_amounts (values (put g a m)) + current m g ≡ sum_amounts (values m) + a.amount
unfolding put get amount_in
sum_amounts-put g a [] = omega arith
sum_amounts-put g a ((k, b) ∷ m) = ground (arith, sum_amounts-put g a m)

sum_amounts-with_choice :
    (p : Promotion ℕ) (offer : Option (Text × ℕ)) (m : Dict Applied)
    → sum_amounts (values (with_choice p offer m)) ≡ sum_amounts (values m) + gain offer (current m)
unfolding choose amount_in
sum_amounts-with_choice p none m = omega arith
sum_amounts-with_choice p (some (g, amount)) m =
    ground (arith, sum_amounts-put g (record { kind = p.kind; label = p.label; amount = amount }) m)

or_zero-raised :
    (g : Text) (offer : Option (Text × ℕ)) (m : Dict Applied)
    → or_zero (raised g offer (amount_in g m)) ≡ raise offer (current m) g
or_zero-raised g none m = refl
or_zero-raised g (some (h, amount)) m = ground arith

current-with_choice :
    (p : Promotion ℕ) (offer : Option (Text × ℕ)) (m : Dict Applied)
    → current (with_choice p offer m) ≡ raise offer (current m)
current-with_choice p offer m =
    fun_ext (λ g. ap or_zero (amount_in-with_choice g p offer m) ∙ or_zero-raised g offer m)

-- The loop adds the gains of the promotions, one after the other.
pub deducted-select_from :
    (activity : ℕ) (ps : List (Promotion ℕ)) (s : Selection)
    → deducted (select_from activity ps s) ≡ deducted s + gains activity ps (current s.selected)
unfolding select_from gains
deducted-select_from activity [] s = omega arith
deducted-select_from activity (p ∷ ps) s =
    let offer = offer_of activity p in
    let step : (consider activity p s).selected ≡ with_choice p offer s.selected =
      consider-selected activity p s in
    omega (
      arith,
      deducted-select_from activity ps (consider activity p s),
      ap (λ m. sum_amounts (values m)) step ∙ sum_amounts-with_choice p offer s.selected,
      ap (λ m. gains activity ps (current m)) step
          ∙ ap (gains activity ps) (current-with_choice p offer s.selected),
    )

raise_comm :
    (a b : Option (Text × ℕ)) (cur : Amounts) → raise a (raise b cur) ≡ raise b (raise a cur)
raise_comm none b cur = refl
raise_comm (some a) none cur = refl
raise_comm (some (g, n)) (some (h, m)) cur = fun_ext (λ k. ground arith)

gain_comm :
    (a b : Option (Text × ℕ)) (cur : Amounts)
    → gain a cur + gain b (raise a cur) ≡ gain b cur + gain a (raise b cur)
gain_comm none b cur = ground arith
gain_comm (some a) none cur = ground arith
gain_comm (some (g, n)) (some (h, m)) cur = ground (arith, text_eq_iff g h, text_eq_iff h g)

gains-Permᴰ :
    (activity : ℕ) {ps qs : List (Promotion ℕ)}
    → Permᴰ ps qs
    → (cur : Amounts) → gains activity ps cur ≡ gains activity qs cur
unfolding gains
gains-Permᴰ activity Permᴰ.nil cur = refl
gains-Permᴰ activity (Permᴰ.cons {a} {b} {l₁} {l₂} e d) cur =
    rw (e, gains-Permᴰ activity d (raise (offer_of activity b) cur))
gains-Permᴰ activity (Permᴰ.swap {a} {b} {a'} {b'} {l} e f) cur =
    rw (e, f)
      (omega (
        arith,
        gain_comm (offer_of activity b') (offer_of activity a') cur,
        ap (gains activity l) (raise_comm (offer_of activity b') (offer_of activity a') cur),
      ))
gains-Permᴰ activity (Permᴰ.trans d d') cur =
    gains-Permᴰ activity d cur ∙ gains-Permᴰ activity d' cur

deducted-select_perm :
    (activity : ℕ) {ps qs : List (Promotion ℕ)}
    → Perm ps qs
    → deducted (select activity ps) ≡ deducted (select activity qs)
unfolding select
deducted-select_perm activity {ps} {qs} p =
    let start : Selection = record { selected = []; reasons = [] } in
    ∥∥₁_elim p (ℕ_set _ _) λ d.
      (deducted-select_from activity ps start
        ∙ ap (λ n. deducted start + n) (gains-Permᴰ activity d (current start.selected))
        ∙ sym (deducted-select_from activity qs start))

-- Whatever the order of the promotions, the total discount is the same, and the derivation throws
-- for one order exactly when it throws for the other.
pub derive-total_perm :
    (activity : ℕ) {ps qs : List (Promotion ℕ)}
    → Perm ps qs
    → map_result (λ (d : Derivation). d.components.total) (derive activity ps)
      ≡ map_result (λ (d : Derivation). d.components.total) (derive activity qs)
unfolding derive
derive-total_perm activity {ps} {qs} p =
    finish-total (select activity ps)
    ∙ ap safe_total (deducted-select_perm activity p)
    ∙ sym (finish-total (select activity qs))
