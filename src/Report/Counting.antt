-- ===== src/Report/Counting.antt =====
-- Sums over the lists and the maps of a report.
use price_monitor.Prelude.{
  ℕ, suc, ◌+◌, ap₂, subst, true, Option, none, some, List, [], ◌∷◌, ◌++◌, map, ◌≡◌, refl, sym, ap,
  ◌∙◌, ◌≢◌, inl, inr, filter, length, flat_map, if◌then◌else◌, Bool-cases, Text, text_eq,
  text_eq→eq, text_eq_iff, text_eq_refl, Dict, get, put, Fresh, IsMap, All, arith, Ordering, sort,
  insert, not_gt,
}

abbrev pub total {ℓ} : {A : Type ℓ} → (A → ℕ) → List A → ℕ
total f [] = 0
total f (x ∷ xs) = f x + total f xs

module _ {ℓ} {A : Type ℓ} (f : A → ℕ) where
  pub total-append : (xs ys : List A) → total f (xs ++ ys) ≡ total f xs + total f ys
  total-append [] ys = omega arith
  total-append (x ∷ xs) ys = let ih = total-append xs ys in omega arith

  total-insert :
      (cmp : A → A → Ordering) (x : A) (xs : List A) → total f (insert cmp x xs) ≡ f x + total f xs
  unfolding insert
  total-insert cmp x [] = refl
  total-insert cmp x (y ∷ ys) = elim (Bool-cases (not_gt (cmp x y))) [
    | inl first ↦ rw first
    | inr later ↦ rw later (let ih = total-insert cmp x ys in omega arith)
  ]

  pub total-sort : (cmp : A → A → Ordering) (xs : List A) → total f (sort cmp xs) ≡ total f xs
  unfolding sort
  total-sort cmp [] = refl
  total-sort cmp (x ∷ xs) =
      let ih = total-sort cmp xs in let step = total-insert cmp x (sort cmp xs) in omega arith

  pub total-eq : (g : A → ℕ) (xs : List A) → ((x : A) → f x ≡ g x) → total f xs ≡ total g xs
  total-eq g [] h = refl
  total-eq g (x ∷ xs) h = ap₂ ◌+◌ (h x) (total-eq g xs h)

pub total-map {ℓ κ} :
    {A : Type ℓ} {B : Type κ} (f : B → ℕ) (g : A → B) (xs : List A)
    → total f (map g xs) ≡ total (λ x. f (g x)) xs
total-map f g [] = refl
total-map f g (x ∷ xs) = ap (λ n. f (g x) + n) (total-map f g xs)

pub total-length {ℓ} : {A : Type ℓ} (xs : List A) → total (λ x. 1) xs ≡ length xs
total-length [] = refl
total-length (x ∷ xs) = let ih = total-length xs in omega arith

pub length-sort {ℓ} :
    {A : Type ℓ} (cmp : A → A → Ordering) (xs : List A) → length (sort cmp xs) ≡ length xs
length-sort cmp xs = sym (total-length (sort cmp xs)) ∙ total-sort (λ x. 1) cmp xs ∙ total-length xs

pub length-append {ℓ} : {A : Type ℓ} (xs ys : List A) → length (xs ++ ys) ≡ length xs + length ys
length-append [] ys = omega arith
length-append (x ∷ xs) ys = let ih = length-append xs ys in omega arith

pub length-flat_map {ℓ κ} :
    {A : Type ℓ} {B : Type κ} (f : A → List B) (xs : List A)
    → length (flat_map f xs) ≡ total (λ x. length (f x)) xs
length-flat_map f [] = refl
length-flat_map f (x ∷ xs) =
    length-append (f x) (flat_map f xs) ∙ ap (λ n. length (f x) + n) (length-flat_map f xs)

pub length-map {ℓ κ} :
    {A : Type ℓ} {B : Type κ} (f : A → B) (xs : List A) → length (map f xs) ≡ length xs
length-map f [] = refl
length-map f (x ∷ xs) = ap suc (length-map f xs)

module _ {ℓ} {V : Type ℓ} (w : V → ℕ) where
  -- The sum over the values of a map.
  abbrev pub weigh : Dict V → ℕ
  weigh [] = 0
  weigh ((k, v) ∷ m) = w v + weigh m

  abbrev pub weight_at : Option V → ℕ
  weight_at none = 0
  weight_at (some v) = w v

  -- A value takes the place of the value that its key has.
  pub weigh-put :
      (k : Text) (v : V) (m : Dict V) → weigh (put k v m) + weight_at (get k m) ≡ weigh m + w v
  unfolding put get
  weigh-put k v [] = omega arith
  weigh-put k v ((j, u) ∷ m) = elim (Bool-cases (text_eq j k)) [
    | inl hit ↦ rw hit (omega arith)
    | inr miss ↦ rw miss (let ih = weigh-put k v m in omega arith)
  ]

-- The items of a list with a key, weighed under that key over the keys of a map.
abbrev with_key {ℓ} : {A : Type ℓ} → (A → Text) → Text → List A → List A
with_key key k xs = filter (λ x. text_eq (key x) k) xs

abbrev pub count_keys {ℓ κ} :
    {A : Type ℓ} {V : Type κ} → (A → Text) → (Text → A → ℕ) → List A → Dict V → ℕ
count_keys key w xs [] = 0
count_keys key w xs ((k, v) ∷ m) = total (w k) (with_key key k xs) + count_keys key w xs m

module _ {ℓ κ} {A : Type ℓ} {V : Type κ} (key : A → Text) (w : Text → A → ℕ) where
  -- A number for each time that a key is in a map.
  abbrev at_key : Text → ℕ → Dict V → ℕ
  at_key k n [] = 0
  at_key k n ((j, v) ∷ m) = let rest = at_key k n m in if text_eq k j then n + rest else rest

  at_key-Fresh : (k : Text) (n : ℕ) (m : Dict V) → Fresh k m → at_key k n m ≡ 0
  unfolding get
  at_key-Fresh k n [] h = refl
  at_key-Fresh k n ((j, v) ∷ m) h =
      ground (arith, at_key-Fresh k n m, text_eq_iff j k, text_eq_iff k j)

  -- A key of a map is there once.
  at_key-once : (k : Text) (n : ℕ) (m : Dict V) → IsMap m → get k m ≢ none → at_key k n m ≡ n
  unfolding get
  at_key-once k n [] h e = absurd (e refl)
  at_key-once k n ((j, v) ∷ m) (fresh, h) e = elim (Bool-cases (text_eq j k)) [
    | inl hit ↦
        (let same = text_eq→eq j k hit in
          let back : text_eq k j ≡ true = rw same (text_eq_refl k) in
          let others = at_key-Fresh k n m (subst (λ x. get x m ≡ none) same fresh) in
          rw back (omega arith))
    | inr miss ↦
        ground (arith, at_key-once k n m h (rw miss at e), text_eq_iff j k, text_eq_iff k j)
  ]

  count_keys-cons :
      (x : A) (xs : List A) (m : Dict V)
      → count_keys key w (x ∷ xs) m ≡ at_key (key x) (w (key x) x) m + count_keys key w xs m
  count_keys-cons x xs [] = omega arith
  count_keys-cons x xs ((k, v) ∷ m) = elim (Bool-cases (text_eq (key x) k)) [
    | inl hit ↦
        (let same = ap (λ j. w j x) (text_eq→eq (key x) k hit) in
          let ih = count_keys-cons x xs m in rw hit (omega arith))
    | inr miss ↦ rw miss (let ih = count_keys-cons x xs m in omega arith)
  ]

  count_keys-nil : (m : Dict V) → count_keys key w [] m ≡ 0
  count_keys-nil [] = refl
  count_keys-nil ((k, v) ∷ m) = let ih = count_keys-nil m in omega arith

  -- Items whose keys are all keys of the map are each weighed once, under their key.
  pub count_keys-total :
      (xs : List A) (m : Dict V)
      → IsMap m
      → All (λ x. get (key x) m ≢ none) xs
      → count_keys key w xs m ≡ total (λ x. w (key x) x) xs
  count_keys-total [] m h e = count_keys-nil m
  count_keys-total (x ∷ xs) m h (here, e) =
      let ih = count_keys-total xs m h e in
      let once = at_key-once (key x) (w (key x) x) m h here in
      let step = count_keys-cons x xs m in omega arith
