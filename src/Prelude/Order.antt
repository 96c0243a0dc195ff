-- ===== src/Prelude/Order.antt =====
-- Comparators, as `Array.prototype.sort` takes them, and the stable sort by a comparator.
use Prim.Native.Nat.{compare, Ordering}
use mathlib.Core.Path.{◌≡◌, refl, sym, subst}
use mathlib.Core.Logic.{inl, inr}
use mathlib.Core.Bool.{Bool, true, false}
use mathlib.Core.Option.{some}
use mathlib.Core.List.{List, [], ◌∷◌, Memᴰ}
use native.Mathlib.Omega.{arith}
use price_monitor.Prelude.Tests.{if◌then◌else◌, Bool-cases}
use price_monitor.Prelude.Lists.{All, All-Memᴰ, All-of_Memᴰ, head?}
use price_monitor.Prelude.Texts.{Text}

-- `a || b` on the results of two comparators.
abbrev pub or_else : Ordering → Ordering → Ordering
or_else Ordering.lt o = Ordering.lt
or_else Ordering.eq o = o
or_else Ordering.gt o = Ordering.gt

abbrev pub flip : Ordering → Ordering
flip Ordering.lt = Ordering.gt
flip Ordering.eq = Ordering.eq
flip Ordering.gt = Ordering.lt

abbrev pub not_gt : Ordering → Bool
not_gt Ordering.gt = false
not_gt _ = true

-- `left === right ? 0 : (left < right ? -1 : 1)` on strings: lexicographic by code unit.
unfoldable pub compare_text : Text → Text → Ordering
compare_text [] [] = Ordering.eq
compare_text [] (b ∷ t) = Ordering.lt
compare_text (a ∷ s) [] = Ordering.gt
compare_text (a ∷ s) (b ∷ t) = or_else (compare a b) (compare_text s t)

-- A consistent comparator: what `sort` needs to have one result.
pub record IsOrder {ℓ} {A : Type ℓ} (cmp : A → A → Ordering) : Type ℓ where
  pub flips : (a b : A) → cmp b a ≡ flip (cmp a b)
  pub trans :
      (a b c : A) → not_gt (cmp a b) ≡ true → not_gt (cmp b c) ≡ true → not_gt (cmp a c) ≡ true

pub compare-IsOrder : IsOrder compare
compare-IsOrder = record { flips = λ a b. ground arith; trans = λ a b c p q. ground arith }

compare_text-flip : (s t : Text) → compare_text t s ≡ flip (compare_text s t)
unfolding compare_text
compare_text-flip [] [] = refl
compare_text-flip [] (b ∷ t) = refl
compare_text-flip (a ∷ s) [] = refl
compare_text-flip (a ∷ s) (b ∷ t) = ground (arith, compare_text-flip s t)

compare_text_trans :
    (s t u : Text)
    → not_gt (compare_text s t) ≡ true
    → not_gt (compare_text t u) ≡ true
    → not_gt (compare_text s u) ≡ true
unfolding compare_text
compare_text_trans [] t [] p q = refl
compare_text_trans [] t (c ∷ u) p q = refl
compare_text_trans (a ∷ s) [] u p q = cc
compare_text_trans (a ∷ s) (b ∷ t) [] p q = cc
compare_text_trans (a ∷ s) (b ∷ t) (c ∷ u) p q = ground (arith, compare_text_trans s t u)

pub compare_text-IsOrder : IsOrder compare_text
compare_text-IsOrder = record { flips = compare_text-flip; trans = compare_text_trans }

module _ {ℓ} {A : Type ℓ} {f g : A → A → Ordering} where
  -- `f(a, b) || g(a, b)`.
  pub or_else-IsOrder : IsOrder f → IsOrder g → IsOrder (λ a b. or_else (f a b) (g a b))
  or_else-IsOrder hf hg = record {
    flips = λ a b. ground (arith, hf.flips a b, hg.flips a b);
    trans = λ a b c p q. ground (
      arith,
      hf.flips a b,
      hf.flips b c,
      hf.flips a c,
      hf.trans a b c,
      hf.trans b c a,
      hf.trans c a b,
      hg.trans a b c,
    );
  }

module _ {ℓ κ} {A : Type ℓ} {B : Type κ} {f : B → B → Ordering} (key : A → B) where
  -- A comparator on a field.
  pub key-IsOrder : IsOrder f → IsOrder (λ a b. f (key a) (key b))
  key-IsOrder h = record {
    flips = λ a b. h.flips (key a) (key b);
    trans = λ a b c. h.trans (key a) (key b) (key c);
  }

module _ {ℓ} {A : Type ℓ} (cmp : A → A → Ordering) where
  unfoldable pub insert : A → List A → List A
  insert x [] = x ∷ []
  insert x (y ∷ ys) = if not_gt (cmp x y) then x ∷ y ∷ ys else y ∷ insert x ys

  unfoldable pub sort : List A → List A
  unfolding insert
  sort [] = []
  sort (x ∷ xs) = insert x (sort xs)

  pub All-insert {κ} : (P : A → Type κ) (x : A) (xs : List A) → P x → All P xs → All P (insert x xs)
  unfolding insert
  All-insert P x [] p h = (p, tt)
  All-insert P x (y ∷ ys) p (q, h) = elim (Bool-cases (not_gt (cmp x y))) [
    | inl first ↦ rw first (p, (q, h))
    | inr later ↦ rw later (q, All-insert P x ys p h)
  ]

  pub All-sort {κ} : (P : A → Type κ) (xs : List A) → All P xs → All P (sort xs)
  unfolding sort
  All-sort P [] h = tt
  All-sort P (x ∷ xs) (p, h) = All-insert P x (sort xs) p (All-sort P xs h)

  pub All-of_insert {κ} :
      (P : A → Type κ) (x : A) (xs : List A) → All P (insert x xs) → P x × All P xs
  unfolding insert
  All-of_insert P x [] (p, h) = (p, tt)
  All-of_insert P x (y ∷ ys) h = elim (Bool-cases (not_gt (cmp x y))) [
    | inl first ↦ rw first at h
    | inr later ↦ swap (rw later at h) (All-of_insert P x ys)
  ]
    where
      swap :
          P y × All P (insert x ys)
          → (All P (insert x ys) → P x × All P ys)
          → P x × (P y × All P ys)
      swap (q, h) ih = let (p, rest) = ih h in (p, (q, rest))

  pub All-of_sort {κ} : (P : A → Type κ) (xs : List A) → All P (sort xs) → All P xs
  unfolding sort
  All-of_sort P [] h = tt
  All-of_sort P (x ∷ xs) h =
      let (p, rest) = All-of_insert P x (sort xs) h in (p, All-of_sort P xs rest)

  Memᴰ-insert_self : (x : A) (xs : List A) → Memᴰ x (insert x xs)
  unfolding insert
  Memᴰ-insert_self x [] = Memᴰ.head refl
  Memᴰ-insert_self x (y ∷ ys) = elim (Bool-cases (not_gt (cmp x y))) [
    | inl first ↦ rw first (Memᴰ.head refl)
    | inr later ↦ rw later (Memᴰ.tail (Memᴰ-insert_self x ys))
  ]

  Memᴰ-insert_of : (x : A) {a : A} (xs : List A) → Memᴰ a xs → Memᴰ a (insert x xs)
  unfolding insert
  Memᴰ-insert_of x [] m = elim m [ ]
  Memᴰ-insert_of x (y ∷ ys) (Memᴰ.head e) = elim (Bool-cases (not_gt (cmp x y))) [
    | inl first ↦ rw first (Memᴰ.tail (Memᴰ.head e))
    | inr later ↦ rw later (Memᴰ.head e)
  ]
  Memᴰ-insert_of x (y ∷ ys) (Memᴰ.tail m) = elim (Bool-cases (not_gt (cmp x y))) [
    | inl first ↦ rw first (Memᴰ.tail (Memᴰ.tail m))
    | inr later ↦ rw later (Memᴰ.tail (Memᴰ-insert_of x ys m))
  ]

  pub Memᴰ-sort : {a : A} (xs : List A) → Memᴰ a xs → Memᴰ a (sort xs)
  unfolding sort
  Memᴰ-sort [] m = elim m [ ]
  Memᴰ-sort {a} (x ∷ xs) (Memᴰ.head e) =
      subst (λ y. Memᴰ y (insert x (sort xs))) (sym e) (Memᴰ-insert_self x (sort xs))
  Memᴰ-sort (x ∷ xs) (Memᴰ.tail m) = Memᴰ-insert_of x (sort xs) (Memᴰ-sort xs m)

  -- Sorting brings in no item.
  pub Memᴰ_of_sort : {a : A} (xs : List A) → Memᴰ a (sort xs) → Memᴰ a xs
  Memᴰ_of_sort xs m =
      All-Memᴰ (λ y. Memᴰ y xs) m (All-sort (λ y. Memᴰ y xs) xs (All-of_Memᴰ _ xs (λ y k. k)))

  -- Each item stands in order before all that follow it.
  abbrev pub IsSorted : List A → Type 0
  IsSorted [] = Unit
  IsSorted (x ∷ xs) = All (λ y. not_gt (cmp x y) ≡ true) xs × IsSorted xs

module _ {ℓ} {A : Type ℓ} {cmp : A → A → Ordering} (order : IsOrder cmp) where
  All-not_gt_trans :
      (x y : A) (zs : List A)
      → not_gt (cmp x y) ≡ true
      → All (λ z. not_gt (cmp y z) ≡ true) zs
      → All (λ z. not_gt (cmp x z) ≡ true) zs
  All-not_gt_trans x y [] h hs = tt
  All-not_gt_trans x y (z ∷ zs) h (k, ks) = (order.trans x y z h k, All-not_gt_trans x y zs h ks)

  pub insert-IsSorted : (x : A) (xs : List A) → IsSorted cmp xs → IsSorted cmp (insert cmp x xs)
  unfolding insert
  insert-IsSorted x [] h = (tt, tt)
  insert-IsSorted x (y ∷ ys) (least, h) = elim (Bool-cases (not_gt (cmp x y))) [
    | inl first ↦ rw first ((first, All-not_gt_trans x y ys first least), (least, h))
    | inr later ↦ rw later (
      All-insert cmp (λ z. not_gt (cmp y z) ≡ true) x ys (ground (arith, order.flips x y)) least,
      insert-IsSorted x ys h,
    )
  ]

  pub sort-IsSorted : (xs : List A) → IsSorted cmp (sort cmp xs)
  unfolding sort
  sort-IsSorted [] = tt
  sort-IsSorted (x ∷ xs) = insert-IsSorted x (sort cmp xs) (sort-IsSorted xs)

  not_gt_refl : (x : A) → not_gt (cmp x x) ≡ true
  not_gt_refl x = ground (arith, order.flips x x)

  -- The first item of a sorted list is a least one.
  head?-least :
      (xs : List A) {m : A}
      → IsSorted cmp xs
      → head? xs ≡ some m
      → All (λ x. not_gt (cmp m x) ≡ true) xs
  head?-least [] h e = tt
  head?-least (x ∷ xs) {m} (least, h) e =
      let same : x ≡ m = cc in
      subst (λ y. All (λ z. not_gt (cmp y z) ≡ true) (x ∷ xs)) same (not_gt_refl x, least)

  -- The first item of the sorted list is a least item of the list.
  pub head?-sort_least :
      (xs : List A) {m : A} → head? (sort cmp xs) ≡ some m → All (λ x. not_gt (cmp m x) ≡ true) xs
  head?-sort_least xs {m} e = All-of_sort cmp _ xs (head?-least (sort cmp xs) (sort-IsSorted xs) e)
