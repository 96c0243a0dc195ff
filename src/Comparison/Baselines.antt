-- ===== src/Comparison/Baselines.antt =====
-- The baseline that competitors are compared with: `selectedOwnBySignature` of run-sku-comparison.ts.
use mathlib.Core.List.{Memᴰ}
use price_monitor.Prelude.{
  ◌≤◌, true, some, List, [], ◌∷◌, ◌≡◌, sym, ◌∙◌, head?, IfSome, filter_map, All-filter_map,
  Memᴰ-filter_map, Memᴰ-head?, arith, All, Text, get, compare-IsOrder, compare_text-IsOrder,
  IsOrder, or_else-IsOrder, key-IsOrder, sort, not_gt, All-of_sort, head?-sort_least, Memᴰ_of_sort,
}
use price_monitor.Comparison.{
  Candidate, Priced, compare_identity, compare_eligible, compare_candidate,
}
use price_monitor.Comparison.Own.{own_rows, selected_own}
use price_monitor.Comparison.Rows.{own_eligible, get-selected_own}

pub compare_identity-IsOrder : IsOrder compare_identity
unfolding compare_identity
compare_identity-IsOrder = or_else-IsOrder (key-IsOrder Candidate.item_id compare_text-IsOrder) (
    or_else-IsOrder (key-IsOrder Candidate.sku_id compare_text-IsOrder)
      (key-IsOrder Candidate.snapshot_id compare_text-IsOrder))

pub compare_eligible-IsOrder : IsOrder compare_eligible
unfolding compare_eligible
compare_eligible-IsOrder =
    or_else-IsOrder (key-IsOrder Priced.price compare-IsOrder)
      (key-IsOrder (λ (p : Priced). p.signed.candidate) compare_identity-IsOrder)

-- `p` is an eligible own offer among the candidates, with this signature, and no other one costs less.
abbrev pub IsBaseline : List Candidate → Text → Priced → Type 0
IsBaseline cs k p =
    (c : Candidate) × Memᴰ c cs
    × (own_eligible k c ≡ some p)
    × All (λ d. IfSome (λ (q : Priced). p.price ≤ q.price) (own_eligible k d)) cs

compare_eligible-price : (p q : Priced) → not_gt (compare_eligible p q) ≡ true → p.price ≤ q.price
unfolding compare_eligible
compare_eligible-price p q h = ground arith

All-map {ℓ κ μ} :
    {A : Type ℓ} {P : A → Type κ} {Q : A → Type μ} (xs : List A)
    → ((a : A) → P a → Q a)
    → All P xs
    → All Q xs
All-map [] f h = tt
All-map (x ∷ xs) f (p, h) = (f x p, All-map xs f h)

pub get-selected_own-IsBaseline :
    (k : Text) (cs : List Candidate) {p : Priced}
    → get k (selected_own (own_rows cs)) ≡ some p
    → IsBaseline cs k p
get-selected_own-IsBaseline k cs {p} e =
    let rows = filter_map (own_eligible k) cs in
    let first : head? (sort compare_eligible rows) ≡ some p = sym (get-selected_own k cs) ∙ e in
    let (c, m, h) =
      Memᴰ-filter_map (own_eligible k) cs
        (Memᴰ_of_sort compare_eligible rows (Memᴰ-head? _ first)) in
    (
      c,
      m,
      h,
      All-filter_map (λ (q : Priced). p.price ≤ q.price) (own_eligible k) cs
          (All-map rows (compare_eligible-price p)
            (head?-sort_least compare_eligible-IsOrder rows first)),
    )

-- The order in which the candidates are collected is no matter for being a baseline.
pub IsBaseline-of_sort :
    (cs : List Candidate) (k : Text) (p : Priced)
    → IsBaseline (sort compare_candidate cs) k p
    → IsBaseline cs k p
IsBaseline-of_sort cs k p (c, m, e, least) =
    (c, Memᴰ_of_sort compare_candidate cs m, e, All-of_sort compare_candidate _ cs least)
