-- ===== src/OwnCatalog/Sets.antt =====
-- Membership in the lists and the sets that the completeness is computed with.
use mathlib.Core.List.{Memᴰ}
use price_monitor.Prelude.{
  ◌≡◌, refl, sym, ap, ◌∙◌, subst, ◌⊎◌, inl, inr, Bool, true, false, not, List, [], ◌∷◌, ◌++◌, map,
  any, all, any-Memᴰ, Bool-cases, &&-left, &&-right, Text, text_eq, text_eq→eq, text_eq_refl,
}
use price_monitor.Comparison.{unique, unique_from}
use price_monitor.OwnCatalog.{has}

pub any-eq-true {ℓ} :
    {A : Type ℓ} (p : A → Bool) (xs : List A) → any p xs ≡ true → (a : A) × Memᴰ a xs × (p a ≡ true)
any-eq-true p [] h = cc
any-eq-true p (x ∷ xs) h = elim (Bool-cases (p x)) [
  | inl hit ↦ (x, Memᴰ.head refl, hit)
  | inr miss ↦ let (a, m, k) = any-eq-true p xs (rw miss at h) in (a, Memᴰ.tail m, k)
]

pub Memᴰ-append_right {ℓ} :
    {A : Type ℓ} {a : A} (xs : List A) {ys : List A} → Memᴰ a ys → Memᴰ a (xs ++ ys)
Memᴰ-append_right [] m = m
Memᴰ-append_right (x ∷ xs) m = Memᴰ.tail (Memᴰ-append_right xs m)

pub Memᴰ-append_left {ℓ} :
    {A : Type ℓ} {a : A} {xs : List A} (ys : List A) → Memᴰ a xs → Memᴰ a (xs ++ ys)
Memᴰ-append_left ys (Memᴰ.head {x} {xs} e) = Memᴰ.head e
Memᴰ-append_left ys (Memᴰ.tail {x} {xs} m) = Memᴰ.tail (Memᴰ-append_left ys m)

pub Memᴰ-append_cases {ℓ} :
    {A : Type ℓ} {a : A} (xs : List A) {ys : List A} → Memᴰ a (xs ++ ys) → Memᴰ a xs ⊎ Memᴰ a ys
Memᴰ-append_cases [] m = inr m
Memᴰ-append_cases (x ∷ xs) (Memᴰ.head e) = inl (Memᴰ.head e)
Memᴰ-append_cases (x ∷ xs) (Memᴰ.tail m) = elim (Memᴰ-append_cases xs m) [
  | inl k ↦ inl (Memᴰ.tail k)
  | inr k ↦ inr k
]

pub Memᴰ-one {ℓ} : {A : Type ℓ} {a x : A} → Memᴰ a (x ∷ []) → a ≡ x
Memᴰ-one (Memᴰ.head e) = e
Memᴰ-one (Memᴰ.tail m) = elim m [ ]

-- `unique` has the items of its list.
pub Memᴰ-unique_seen : {a : Text} (seen xs : List Text) → Memᴰ a seen → Memᴰ a (unique_from seen xs)
unfolding unique_from
Memᴰ-unique_seen seen [] m = m
Memᴰ-unique_seen seen (x ∷ xs) m = elim (Bool-cases (any (text_eq x) seen)) [
  | inl known ↦ rw known (Memᴰ-unique_seen seen xs m)
  | inr new ↦ rw new (Memᴰ-unique_seen (seen ++ x ∷ []) xs (Memᴰ-append_left (x ∷ []) m))
]

pub Memᴰ-unique_from :
    {a : Text} (seen : List Text) {xs : List Text} → Memᴰ a xs → Memᴰ a (unique_from seen xs)
unfolding unique_from
Memᴰ-unique_from {a} seen (Memᴰ.head {x} {xs} e) = elim (Bool-cases (any (text_eq x) seen)) [
  | inl known ↦
      (let (y, m, k) = any-eq-true (text_eq x) seen known in
        let same : y ≡ a = sym (text_eq→eq x y k) ∙ sym e in
        rw known (Memᴰ-unique_seen seen xs (subst (λ z. Memᴰ z seen) same m)))
  | inr new ↦ rw new (Memᴰ-unique_seen (seen ++ x ∷ []) xs (Memᴰ-append_right seen (Memᴰ.head e)))
]
Memᴰ-unique_from seen (Memᴰ.tail {x} {xs} m) = elim (Bool-cases (any (text_eq x) seen)) [
  | inl known ↦ rw known (Memᴰ-unique_from seen m)
  | inr new ↦ rw new (Memᴰ-unique_from (seen ++ x ∷ []) m)
]

pub Memᴰ-of_unique_from :
    {a : Text} (seen xs : List Text) → Memᴰ a (unique_from seen xs) → Memᴰ a seen ⊎ Memᴰ a xs
unfolding unique_from
Memᴰ-of_unique_from seen [] m = inl m
Memᴰ-of_unique_from {a} seen (x ∷ xs) m = elim (Bool-cases (any (text_eq x) seen)) [
  | inl known ↦ elim (Memᴰ-of_unique_from seen xs (rw known at m)) [
    | inl k ↦ inl k
    | inr k ↦ inr (Memᴰ.tail k)
  ]
  | inr new ↦ elim (Memᴰ-of_unique_from (seen ++ x ∷ []) xs (rw new at m)) [
    | inl k ↦ elim (Memᴰ-append_cases seen k) [
      | inl old ↦ inl old
      | inr here ↦ inr (Memᴰ.head (Memᴰ-one here))
    ]
    | inr k ↦ inr (Memᴰ.tail k)
  ]
]

pub Memᴰ-unique : {a : Text} {xs : List Text} → Memᴰ a xs → Memᴰ a (unique xs)
unfolding unique
Memᴰ-unique m = Memᴰ-unique_from [] m

pub Memᴰ-of_unique : {a : Text} (xs : List Text) → Memᴰ a (unique xs) → Memᴰ a xs
unfolding unique
Memᴰ-of_unique xs m = elim (Memᴰ-of_unique_from [] xs m) [ inl k ↦ elim k [ ] | inr k ↦ k ]

pub has-Memᴰ : {t : Text} {set : List Text} → Memᴰ t set → has set t ≡ true
unfolding has
has-Memᴰ {t} m = any-Memᴰ (text_eq t) m (text_eq_refl t)

pub Memᴰ-of_has : (t : Text) (set : List Text) → has set t ≡ true → Memᴰ t set
unfolding has
Memᴰ-of_has t set h =
    let (a, m, e) = any-eq-true (text_eq t) set h in
    subst (λ x. Memᴰ x set) (sym (text_eq→eq t a e)) m

pub Memᴰ-map {ℓ κ} :
    {A : Type ℓ} {B : Type κ} (f : A → B) {a : A} {xs : List A} → Memᴰ a xs → Memᴰ (f a) (map f xs)
Memᴰ-map f (Memᴰ.head {x} {xs} e) = Memᴰ.head (ap f e)
Memᴰ-map f (Memᴰ.tail {x} {xs} m) = Memᴰ.tail (Memᴰ-map f m)

pub Memᴰ-of_map {ℓ κ} :
    {A : Type ℓ} {B : Type κ} (f : A → B) {b : B} (xs : List A)
    → Memᴰ b (map f xs)
    → (a : A) × Memᴰ a xs × (f a ≡ b)
Memᴰ-of_map f [] m = elim m [ ]
Memᴰ-of_map f (x ∷ xs) (Memᴰ.head e) = (x, Memᴰ.head refl, sym e)
Memᴰ-of_map f (x ∷ xs) (Memᴰ.tail m) = let (a, k, e) = Memᴰ-of_map f xs m in (a, Memᴰ.tail k, e)

pub all-Memᴰ {ℓ} :
    {A : Type ℓ} (p : A → Bool) {a : A} {xs : List A} → all p xs ≡ true → Memᴰ a xs → p a ≡ true
all-Memᴰ p h (Memᴰ.head {x} {xs} e) = ap p e ∙ &&-left (p x) (all p xs) h
all-Memᴰ p h (Memᴰ.tail {x} {xs} m) = all-Memᴰ p (&&-right (p x) (all p xs) h) m

pub all-of_Memᴰ {ℓ} :
    {A : Type ℓ} (p : A → Bool) (xs : List A) → ((a : A) → Memᴰ a xs → p a ≡ true) → all p xs ≡ true
all-of_Memᴰ p [] h = refl
all-of_Memᴰ p (x ∷ xs) h = rw (h x (Memᴰ.head refl)) (all-of_Memᴰ p xs (λ a m. h a (Memᴰ.tail m)))

pub any-eq-false {ℓ} :
    {A : Type ℓ} (p : A → Bool) (xs : List A)
    → ((a : A) → Memᴰ a xs → p a ≡ false)
    → any p xs ≡ false
any-eq-false p [] h = refl
any-eq-false p (x ∷ xs) h = rw (h x (Memᴰ.head refl)) (any-eq-false p xs (λ a m. h a (Memᴰ.tail m)))

pub any-none {ℓ} :
    {A : Type ℓ} (p : A → Bool) {a : A} {xs : List A}
    → not (any p xs) ≡ true
    → Memᴰ a xs
    → p a ≡ false
any-none p {a} {xs} h m = elim (Bool-cases (p a)) [
  | inr miss ↦ miss
  | inl hit ↦ let found = any-Memᴰ p m hit in cc (rw found at h)
]
