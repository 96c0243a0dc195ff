-- ===== src/SkuCombination/Sorting.antt =====
-- The sort of a reordered list, by a comparator that tells different items apart.
use mathlib.Core.List.{Permᴰ}
use price_monitor.Prelude.{
  Bool, true, false, List, [], ◌∷◌, map, ◌≡◌, refl, sym, ap, ap₂, ◌∙◌, inl, inr, ◌⊎◌, any, ◌||◌,
  Bool-cases, Ordering, compare, compare_text, or_else, not_gt, IsOrder, compare-IsOrder,
  compare_text-IsOrder, key-IsOrder, or_else-IsOrder, insert, sort, arith,
}
use price_monitor.SkuCombination.{Part, compare_part}

-- The comparator puts only equal items level.
abbrev pub Separates {ℓ} : {A : Type ℓ} → (A → A → Ordering) → Type ℓ
Separates {A} cmp = (a b : A) → cmp a b ≡ Ordering.eq → a ≡ b

Ordering-cases : (o : Ordering) → (o ≡ Ordering.lt) ⊎ ((o ≡ Ordering.eq) ⊎ (o ≡ Ordering.gt))
Ordering-cases Ordering.lt = inl refl
Ordering-cases Ordering.eq = inr (inl refl)
Ordering-cases Ordering.gt = inr (inr refl)

module _ {ℓ} {A : Type ℓ} {cmp : A → A → Ordering} (order : IsOrder cmp) where
  later : (x y : A) → cmp x y ≡ Ordering.lt → not_gt (cmp y x) ≡ false
  later x y h = rw (order.flips x y, h) refl

  earlier : (x y : A) → cmp x y ≡ Ordering.lt → not_gt (cmp x y) ≡ true
  earlier x y h = rw h refl

  insert-lt :
      (x y : A) (zs : List A)
      → cmp x y ≡ Ordering.lt
      → insert cmp x (insert cmp y zs) ≡ insert cmp y (insert cmp x zs)
  unfolding insert
  insert-lt x y [] h = rw (earlier x y h, later x y h)
  insert-lt x y (z ∷ zs) h = elim (Bool-cases (not_gt (cmp y z))) [
    | inl first ↦
        (let x_first = order.trans x y z (earlier x y h) first in
          rw (first, x_first, earlier x y h, later x y h, first))
    | inr passed ↦ elim (Bool-cases (not_gt (cmp x z))) [
      | inl x_first ↦ rw (passed, x_first, later x y h, passed)
      | inr x_passed ↦ rw (passed, x_passed, passed) (ap (λ ws. z ∷ ws) (insert-lt x y zs h))
    ]
  ]

  insert-swap :
      Separates cmp
      → (x y : A) (zs : List A) → insert cmp x (insert cmp y zs) ≡ insert cmp y (insert cmp x zs)
  insert-swap apart x y zs = elim (Ordering-cases (cmp x y)) [
    | inl less ↦ insert-lt x y zs less
    | inr (inl level) ↦
        (let same = apart x y level in ap₂ (λ a b. insert cmp a (insert cmp b zs)) same (sym same))
    | inr (inr more) ↦ sym (insert-lt y x zs (rw (order.flips x y, more) refl))
  ]

  -- A list sorts as its reorderings do.
  pub sort-Permᴰ : {xs ys : List A} → Separates cmp → Permᴰ xs ys → sort cmp xs ≡ sort cmp ys
  unfolding sort
  sort-Permᴰ apart Permᴰ.nil = refl
  sort-Permᴰ apart (Permᴰ.cons e p) = ap₂ (insert cmp) e (sort-Permᴰ apart p)
  sort-Permᴰ apart (Permᴰ.swap {a} {b} {l} e f) =
      insert-swap apart a b (sort cmp l) ∙ ap₂ (λ x y. insert cmp x (insert cmp y (sort cmp l))) f e
  sort-Permᴰ apart (Permᴰ.trans p q) = sort-Permᴰ apart p ∙ sort-Permᴰ apart q

any-swap : (a b r : Bool) → (a || (b || r)) ≡ (b || (a || r))
any-swap a b r = ground arith

module _ {ℓ} {A : Type ℓ} where
  pub Permᴰ_refl : (xs : List A) → Permᴰ xs xs
  Permᴰ_refl [] = Permᴰ.nil
  Permᴰ_refl (x ∷ xs) = Permᴰ.cons refl (Permᴰ_refl xs)

  pub Permᴰ-map {κ} :
      {B : Type κ} (f : A → B) {xs ys : List A} → Permᴰ xs ys → Permᴰ (map f xs) (map f ys)
  Permᴰ-map f Permᴰ.nil = Permᴰ.nil
  Permᴰ-map f (Permᴰ.cons e p) = Permᴰ.cons (ap f e) (Permᴰ-map f p)
  Permᴰ-map f (Permᴰ.swap e g) = Permᴰ.swap (ap f e) (ap f g)
  Permᴰ-map f (Permᴰ.trans p q) = Permᴰ.trans (Permᴰ-map f p) (Permᴰ-map f q)

  pub any-Permᴰ : (p : A → Bool) {xs ys : List A} → Permᴰ xs ys → any p xs ≡ any p ys
  any-Permᴰ p Permᴰ.nil = refl
  any-Permᴰ p (Permᴰ.cons e q) = ap₂ ◌||◌ (ap p e) (any-Permᴰ p q)
  any-Permᴰ p (Permᴰ.swap {a} {b} {l} e f) =
      any-swap (p a) (p b) (any p l) ∙ ap₂ (λ x y. p x || (p y || any p l)) f e
  any-Permᴰ p (Permᴰ.trans q r) = any-Permᴰ p q ∙ any-Permᴰ p r

compare_text-Separates : Separates compare_text
unfolding compare_text
compare_text-Separates [] [] h = refl
compare_text-Separates [] (b ∷ t) h = cc
compare_text-Separates (a ∷ s) [] h = cc
compare_text-Separates (a ∷ s) (b ∷ t) h = ground (arith, compare_text-Separates s t)

compare-Separates : Separates compare
compare-Separates a b h = ground arith

or_else-eq : (o p : Ordering) → or_else o p ≡ Ordering.eq → (o ≡ Ordering.eq) × (p ≡ Ordering.eq)
or_else-eq o p h = ground arith

pub compare_part-Separates : Separates compare_part
unfolding compare_part
compare_part-Separates a b h =
    let (e, f) = or_else-eq (compare_text a.model b.model) (compare a.quantity b.quantity) h in
    ap₂ (λ m n. record { model = m; quantity = n }) (compare_text-Separates a.model b.model e)
      (compare-Separates a.quantity b.quantity f)

pub compare_part-IsOrder : IsOrder compare_part
unfolding compare_part
compare_part-IsOrder =
    or_else-IsOrder (key-IsOrder Part.model compare_text-IsOrder)
      (key-IsOrder Part.quantity compare-IsOrder)
