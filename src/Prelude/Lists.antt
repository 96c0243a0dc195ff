-- ===== src/Prelude/Lists.antt =====
-- Lists over the native numbers and Boolean tests: `Array.prototype`'s length, some, every, filter
-- and find, with the predicates that the proofs use.
use Prim.Native.Nat.{ℕ, suc}
use mathlib.Core.Path.{◌≡◌, refl, sym, ap, ◌∙◌, subst}
use mathlib.Core.Logic.{inl, inr}
use mathlib.Core.Bool.{Bool, true, false, ◌&&◌, ◌||◌}
use mathlib.Core.Option.{Option, none, some}
use mathlib.Core.List.{List, [], ◌∷◌, ◌++◌, Memᴰ}
use native.Mathlib.Omega.{arith}
use price_monitor.Prelude.Tests.{if◌then◌else◌, Bool-cases, Option-cases}

module _ {ℓ} {A : Type ℓ} where
  abbrev pub length : List A → ℕ
  length [] = 0
  length (x ∷ xs) = suc (length xs)

  abbrev pub any : (A → Bool) → List A → Bool
  any p [] = false
  any p (x ∷ xs) = p x || any p xs

  abbrev pub all : (A → Bool) → List A → Bool
  all p [] = true
  all p (x ∷ xs) = p x && all p xs

  abbrev pub filter : (A → Bool) → List A → List A
  filter p [] = []
  filter p (x ∷ xs) = let rest = filter p xs in if p x then x ∷ rest else rest

  abbrev pub find : (A → Bool) → List A → Option A
  find p [] = none
  find p (x ∷ xs) = let rest = find p xs in if p x then some x else rest

  abbrev pub head? : List A → Option A
  head? [] = none
  head? (x ∷ xs) = some x

  abbrev pub is_empty : List A → Bool
  is_empty [] = true
  is_empty (x ∷ xs) = false

module _ {ℓ κ} {A : Type ℓ} (P : A → Type κ) where
  abbrev pub All : List A → Type κ
  All [] = Unit
  All (x ∷ xs) = P x × All xs

  pub All-Memᴰ : {a : A} {xs : List A} → Memᴰ a xs → All xs → P a
  All-Memᴰ (Memᴰ.head e) (p, h) = subst P (sym e) p
  All-Memᴰ (Memᴰ.tail m) (p, h) = All-Memᴰ m h

module _ {ℓ} {A : Type ℓ} where
  -- What holds of each member holds of all.
  pub All-of_Memᴰ {κ} : (P : A → Type κ) (xs : List A) → ((a : A) → Memᴰ a xs → P a) → All P xs
  All-of_Memᴰ P [] h = tt
  All-of_Memᴰ P (x ∷ xs) h = (h x (Memᴰ.head refl), All-of_Memᴰ P xs (λ a m. h a (Memᴰ.tail m)))

  -- The items that a Boolean filter keeps satisfy its test.
  pub Memᴰ-filter :
      (p : A → Bool) (xs : List A) {a : A} → Memᴰ a (filter p xs) → Memᴰ a xs × (p a ≡ true)
  Memᴰ-filter p [] m = elim m [ ]
  Memᴰ-filter p (x ∷ xs) {a} m = elim (Bool-cases (p x)) [
    | inl kept ↦ split kept (rw kept at m) (Memᴰ-filter p xs)
    | inr dropped ↦
        let (there, test) = Memᴰ-filter p xs (rw dropped at m) in (Memᴰ.tail there, test)
  ]
    where
      split :
          p x ≡ true
          → Memᴰ a (x ∷ filter p xs)
          → (Memᴰ a (filter p xs) → Memᴰ a xs × (p a ≡ true))
          → Memᴰ a (x ∷ xs) × (p a ≡ true)
      split kept (Memᴰ.head e) ih = (Memᴰ.head e, rw e kept)
      split kept (Memᴰ.tail m) ih = let (there, test) = ih m in (Memᴰ.tail there, test)

  -- A filter keeps the items that pass its test.
  pub Memᴰ-filter_of :
      (p : A → Bool) {a : A} {xs : List A} → Memᴰ a xs → p a ≡ true → Memᴰ a (filter p xs)
  Memᴰ-filter_of p (Memᴰ.head {x} {xs} e) h =
      let kept : p x ≡ true = subst (λ y. p y ≡ true) e h in rw kept (Memᴰ.head e)
  Memᴰ-filter_of p (Memᴰ.tail {x} {xs} m) h = elim (Bool-cases (p x)) [
    | inl kept ↦ rw kept (Memᴰ.tail (Memᴰ-filter_of p m h))
    | inr dropped ↦ rw dropped (Memᴰ-filter_of p m h)
  ]

  pub any-Memᴰ : (p : A → Bool) {a : A} {xs : List A} → Memᴰ a xs → p a ≡ true → any p xs ≡ true
  any-Memᴰ p {a} (Memᴰ.head {x} {xs} e) h =
      let here : p x ≡ true = subst (λ y. p y ≡ true) e h in rw here
  any-Memᴰ p (Memᴰ.tail {x} {xs} m) h = let ih = any-Memᴰ p m h in ground arith

  -- `find` returns a member that passes the test.
  pub find-eq-some :
      (p : A → Bool) (xs : List A) {a : A} → find p xs ≡ some a → Memᴰ a xs × (p a ≡ true)
  find-eq-some p [] e = cc
  find-eq-some p (x ∷ xs) {a} e = elim (Bool-cases (p x)) [
    | inl hit ↦
        (let same : x ≡ a = let e' : some x ≡ some a = rw hit at e in cc e' in
          (Memᴰ.head (sym same), subst (λ y. p y ≡ true) same hit))
    | inr miss ↦ let (there, test) = find-eq-some p xs (rw miss at e) in (Memᴰ.tail there, test)
  ]

  -- Nothing that passes the test is overlooked.
  pub find-eq-none :
      (p : A → Bool) {a : A} {xs : List A} → find p xs ≡ none → Memᴰ a xs → p a ≡ false
  find-eq-none p {a} e (Memᴰ.head {x} {xs} m) = elim (Bool-cases (p x)) [
    | inl hit ↦ cc (rw hit at e)
    | inr miss ↦ rw m miss
  ]
  find-eq-none p e (Memᴰ.tail {x} {xs} m) = elim (Bool-cases (p x)) [
    | inl hit ↦ cc (rw hit at e)
    | inr miss ↦ find-eq-none p (rw miss at e) m
  ]

  pub Memᴰ-head? : {a : A} (xs : List A) → head? xs ≡ some a → Memᴰ a xs
  Memᴰ-head? [] e = cc
  Memᴰ-head? (x ∷ xs) e = Memᴰ.head (sym (let e' = e in cc e'))

abbrev pub flat_map {ℓ κ} : {A : Type ℓ} {B : Type κ} → (A → List B) → List A → List B
flat_map f [] = []
flat_map f (x ∷ xs) = f x ++ flat_map f xs

-- What holds of the value, if there is one.
abbrev pub IfSome {ℓ κ} : {A : Type ℓ} → (A → Type κ) → Option A → Type κ
IfSome P none = Unit
IfSome P (some a) = P a

abbrev pub cons_some {ℓ} : {A : Type ℓ} → Option A → List A → List A
cons_some none xs = xs
cons_some (some a) xs = a ∷ xs

abbrev pub filter_map {ℓ κ} : {A : Type ℓ} {B : Type κ} → (A → Option B) → List A → List B
filter_map f [] = []
filter_map f (x ∷ xs) = cons_some (f x) (filter_map f xs)

All-of_cons_some {ℓ κ} :
    {A : Type ℓ} (P : A → Type κ) (o : Option A) (xs : List A)
    → All P (cons_some o xs)
    → IfSome P o × All P xs
All-of_cons_some P none xs h = (tt, h)
All-of_cons_some P (some a) xs (p, h) = (p, h)

pub All-filter_map {ℓ κ μ} :
    {A : Type ℓ} {B : Type κ} (P : B → Type μ) (f : A → Option B) (xs : List A)
    → All P (filter_map f xs)
    → All (λ x. IfSome P (f x)) xs
All-filter_map P f [] h = tt
All-filter_map P f (x ∷ xs) h =
    let (p, rest) = All-of_cons_some P (f x) (filter_map f xs) h in (p, All-filter_map P f xs rest)

pub Memᴰ-filter_map {ℓ κ} :
    {A : Type ℓ} {B : Type κ} (f : A → Option B) {b : B} (xs : List A)
    → Memᴰ b (filter_map f xs)
    → (a : A) × Memᴰ a xs × (f a ≡ some b)
Memᴰ-filter_map f [] m = elim m [ ]
Memᴰ-filter_map {A} f {b} (x ∷ xs) m = go (f x) refl m (Memᴰ-filter_map f xs)
  where
    go :
        (o : Option _)
        → f x ≡ o
        → Memᴰ b (cons_some o (filter_map f xs))
        → (Memᴰ b (filter_map f xs) → (a : A) × Memᴰ a xs × (f a ≡ some b))
        → (a : A) × Memᴰ a (x ∷ xs) × (f a ≡ some b)
    go none e m ih = let (a, k, h) = ih m in (a, Memᴰ.tail k, h)
    go (some y) e (Memᴰ.head k) ih = (x, Memᴰ.head refl, e ∙ ap some (sym k))
    go (some y) e (Memᴰ.tail m) ih = let (a, k, h) = ih m in (a, Memᴰ.tail k, h)

-- A value that the function gives at a member is in the result.
pub Memᴰ-filter_map_of {ℓ κ} :
    {A : Type ℓ} {B : Type κ} (f : A → Option B) {a : A} {b : B} {xs : List A}
    → Memᴰ a xs
    → f a ≡ some b
    → Memᴰ b (filter_map f xs)
Memᴰ-filter_map_of f {a} (Memᴰ.head {x} {xs} e) h =
    let here : f x ≡ some _ = ap f (sym e) ∙ h in rw here (Memᴰ.head refl)
Memᴰ-filter_map_of f (Memᴰ.tail {x} {xs} m) h = elim (Option-cases (f x)) [
  | inl absent ↦ rw absent (Memᴰ-filter_map_of f m h)
  | inr (y, here) ↦ rw here (Memᴰ.tail (Memᴰ-filter_map_of f m h))
]
