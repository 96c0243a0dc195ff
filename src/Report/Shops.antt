-- ===== src/Report/Shops.antt =====
-- The loop of `priceBoard` over the items, and the maps that it reads.

use price_monitor.Prelude.{
  ℕ, ◌+◌, false, Option, none, some, List, [], ◌∷◌, ◌++◌, ◌≡◌, refl, ap, ap₂, ◌∙◌, inl, inr, filter,
  is_empty, Bool-cases, Text, text_eq, Dict, get, put, All, arith, sort,
}
use price_monitor.Comparison.Own.{rows_of, or_empty, add_by_signature}
use price_monitor.Report.{PositionFact, SkuRow, ItemGroup, Builtins}
use price_monitor.Report.Rows.{compare_row, normalized_shop}
use price_monitor.Report.Board.{Shop, item_group, shop_or_new, add_item, shops_from, rows_from}
use price_monitor.Report.Grouping.{group_from, rows_of-group_from}
use price_monitor.Report.Counting.{total, total-append, weigh, weight_at, weigh-put, count_keys}

abbrev pub NonEmpty {ℓ} : {A : Type ℓ} → Dict (List A) → Type 0
NonEmpty m = All (λ entry. is_empty entry.1 ≡ false) m

module _ (builtins : Builtins) (by_item : Dict (List SkuRow)) (f : ItemGroup → ℕ)
    (cost : Text × List PositionFact → ℕ)
    (fits : (name item : Text) (first : PositionFact) (facts : List PositionFact)
      → f (
          item_group builtins name first
            (first ∷ facts)
            (sort compare_row (rows_of item by_item))
            item)
        ≡ cost (item, first ∷ facts)) where
  abbrev shop_weight : Shop → ℕ
  shop_weight shop = total f shop.items

  shop_or_new-weight :
      (name : Text) (o : Option Shop) → shop_weight (shop_or_new name o) ≡ weight_at shop_weight o
  shop_or_new-weight name none = refl
  shop_or_new-weight name (some shop) = refl

  -- An item adds its weight to the shops.
  add_item-weight :
      (item : Text) (first : PositionFact) (facts : List PositionFact) (shops : Dict Shop)
      → weigh shop_weight (add_item builtins by_item (item, first ∷ facts) shops)
        ≡ weigh shop_weight shops + cost (item, first ∷ facts)
  unfolding add_item
  add_item-weight item first facts shops =
      let key = normalized_shop builtins first.shop_name in
      let shop : Shop = shop_or_new (builtins.display first.shop_name) (get key shops) in
      let group =
        item_group builtins shop.name first (first ∷ facts)
          (sort compare_row (rows_of item by_item)) item in
      let new : Shop = record { name = shop.name; items = shop.items ++ group ∷ [] } in
      let old = shop_or_new-weight (builtins.display first.shop_name) (get key shops) in
      let step = weigh-put shop_weight key new shops in
      let more = total-append f shop.items (group ∷ []) in
      let fit = fits shop.name item first facts in omega arith

  pub shops_from-weight :
      (entries : Dict (List PositionFact)) (shops : Dict Shop)
      → NonEmpty entries
      → weigh shop_weight (shops_from builtins by_item entries shops)
        ≡ weigh shop_weight shops + total cost entries
  unfolding shops_from
  shops_from-weight [] shops h = omega arith
  shops_from-weight ((item, []) ∷ entries) shops (h, hs) = cc
  shops_from-weight ((item, first ∷ facts) ∷ entries) shops (h, hs) =
      let ih =
        shops_from-weight entries (add_item builtins by_item (item, first ∷ facts) shops) hs in
      let step = add_item-weight item first facts shops in omega arith

is_empty-append {ℓ} : {A : Type ℓ} (xs : List A) (a : A) → is_empty (xs ++ a ∷ []) ≡ false
is_empty-append [] a = refl
is_empty-append (x ∷ xs) a = refl

put-NonEmpty {ℓ} :
    {A : Type ℓ} (k : Text) (rows : List A) (m : Dict (List A))
    → is_empty rows ≡ false
    → NonEmpty m
    → NonEmpty (put k rows m)
unfolding put
put-NonEmpty k rows [] h hs = (h, tt)
put-NonEmpty k rows ((j, v) ∷ m) h (g, hs) = elim (Bool-cases (text_eq j k)) [
  | inl hit ↦ rw hit (h, hs)
  | inr miss ↦ rw miss (g, put-NonEmpty k rows m h hs)
]

pub group_from-NonEmpty {ℓ} :
    {A : Type ℓ} (key : A → Text) (xs : List A) (m : Dict (List A))
    → NonEmpty m
    → NonEmpty (group_from key xs m)
unfolding add_by_signature
group_from-NonEmpty key [] m h = h
group_from-NonEmpty key (x ∷ xs) m h =
    group_from-NonEmpty key xs (add_by_signature (key x) x m)
      (put-NonEmpty (key x) _ m (is_empty-append _ x) h)

module _ {ℓ} {A : Type ℓ} (v : A → ℕ) where
  rows_of-weight :
      (o : Option (List A)) → total v (or_empty o) ≡ weight_at (λ (xs : List A). total v xs) o
  rows_of-weight none = refl
  rows_of-weight (some rows) = refl

  add-weight :
      (k : Text) (a : A) (m : Dict (List A))
      → weigh (λ (xs : List A). total v xs) (add_by_signature k a m)
        ≡ v a + weigh (λ (xs : List A). total v xs) m
  unfolding add_by_signature rows_of
  add-weight k a m =
      let old = rows_of-weight (get k m) in
      let step = weigh-put (λ (xs : List A). total v xs) k (rows_of k m ++ a ∷ []) m in
      let more = total-append v (rows_of k m) (a ∷ []) in omega arith

  pub group_from-weight :
      (key : A → Text) (xs : List A) (m : Dict (List A))
      → weigh (λ (ys : List A). total v ys) (group_from key xs m)
        ≡ weigh (λ (ys : List A). total v ys) m + total v xs
  group_from-weight key [] m = omega arith
  group_from-weight key (x ∷ xs) m =
      let ih = group_from-weight key xs (add_by_signature (key x) x m) in
      let step = add-weight (key x) x m in omega arith

rows_from-group :
    (rows : List SkuRow) (m : Dict (List SkuRow))
    → rows_from rows m ≡ group_from SkuRow.item_id rows m
unfolding rows_from
rows_from-group [] m = refl
rows_from-group (r ∷ rows) m = rows_from-group rows (add_by_signature r.item_id r m)

rows_of-rows_from :
    (item : Text) (rows : List SkuRow)
    → rows_of item (rows_from rows []) ≡ filter (λ (r : SkuRow). text_eq r.item_id item) rows
rows_of-rows_from item rows =
    ap (rows_of item) (rows_from-group rows [])
    ∙ unfold rows_of get in rows_of-group_from SkuRow.item_id item rows []

pub row_cost-count :
    (w : Text → SkuRow → ℕ) (rows : List SkuRow) (entries : Dict (List PositionFact))
    → total
        (λ (e : Text × List PositionFact). total (w e.0) (rows_of e.0 (rows_from rows [])))
        entries
      ≡ count_keys SkuRow.item_id w rows entries
row_cost-count w rows [] = refl
row_cost-count w rows ((k, ps) ∷ entries) =
    ap₂ ◌+◌ (ap (total (w k)) (rows_of-rows_from k rows)) (row_cost-count w rows entries)

pub total-weigh {ℓ} :
    {A : Type ℓ} (v : A → ℕ) (m : Dict (List A))
    → total (λ (e : Text × List A). total v e.1) m ≡ weigh (λ (xs : List A). total v xs) m
total-weigh v [] = refl
total-weigh v ((k, xs) ∷ m) = ap (λ n. total v xs + n) (total-weigh v m)
