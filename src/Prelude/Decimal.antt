-- ===== src/Prelude/Decimal.antt =====
-- Numbers in template literals: the decimal digits of a natural number.
use Prim.Native.Nat.{ℕ, zero, suc, ◌+◌, ◌-◌, ◌*◌, ◌/◌, ◌%◌, ◌<◌, ◌≤◌}
use mathlib.Core.Path.{◌≡◌, refl, sym, ap, ◌∙◌}
use mathlib.Core.Logic.{inl, inr}
use mathlib.Core.Bool.{Bool, true, false, ◌&&◌, not}
use mathlib.Core.List.{[], ◌∷◌, ◌++◌}
use native.Mathlib.Omega.{arith}
use price_monitor.Prelude.Lists.{all}
use price_monitor.Prelude.Tests.{ltb, leb, ◌==◌, lt→ltb, if◌then◌else◌, Bool-cases}
use price_monitor.Prelude.Texts.{Text}

decimal_fuel : ℕ → ℕ → Text
decimal_fuel zero n = []
decimal_fuel (suc f) n =
    let more = decimal_fuel f (n / 10) ++ (48 + n % 10) ∷ [] in
    if ltb n 10 then (48 + n) ∷ [] else more

-- One digit at least, and a further digit for each division by 10: `suc n` rounds are enough.
unfoldable pub decimal : ℕ → Text
unfolding decimal_fuel
decimal n = decimal_fuel (suc n) n

-- The number that a row of digits stands for.
unfoldable pub value_from : ℕ → Text → ℕ
value_from acc [] = acc
value_from acc (c ∷ s) = value_from (acc * 10 + (c - 48)) s

value_from-append :
    (acc : ℕ) (s t : Text) → value_from acc (s ++ t) ≡ value_from (value_from acc s) t
unfolding value_from
value_from-append acc [] t = refl
value_from-append acc (c ∷ s) t = value_from-append (acc * 10 + (c - 48)) s t

value_from-decimal_fuel : (f n : ℕ) → n < f → value_from 0 (decimal_fuel f n) ≡ n
unfolding value_from decimal_fuel
value_from-decimal_fuel zero n h = absurd (omega arith)
value_from-decimal_fuel (suc f) n h = elim (Bool-cases (ltb n 10)) [
  | inl short ↦ rw short (omega arith)
  | inr long ↦
      rw (long, value_from-append)
        (let ih = value_from-decimal_fuel f (n / 10) (ground arith) in rw ih (omega arith))
]

-- Different numbers are written differently.
pub decimal-injective : (m n : ℕ) → decimal m ≡ decimal n → m ≡ n
unfolding decimal
decimal-injective m n e =
    sym (value_from-decimal_fuel (suc m) m (omega arith))
    ∙ ap (value_from 0) e
    ∙ value_from-decimal_fuel (suc n) n (omega arith)

pub value_from-decimal : (n : ℕ) → value_from 0 (decimal n) ≡ n
unfolding decimal
value_from-decimal n = value_from-decimal_fuel (suc n) n (omega arith)

abbrev pub is_digit : ℕ → Bool
is_digit c = leb 48 c && leb c 57

all-append : (p : ℕ → Bool) (s t : Text) → all p s ≡ true → all p t ≡ true → all p (s ++ t) ≡ true
all-append p [] t h k = k
all-append p (c ∷ s) t h k = ground (arith, all-append p s t)

digit-is_digit : (n : ℕ) → n < 10 → is_digit (48 + n) ≡ true
digit-is_digit n h = ground arith

decimal_fuel-digits : (f n : ℕ) → all is_digit (decimal_fuel f n) ≡ true
unfolding decimal_fuel
decimal_fuel-digits zero n = refl
decimal_fuel-digits (suc f) n = elim (Bool-cases (ltb n 10)) [
  | inl short ↦ rw (short, digit-is_digit n (ground arith)) refl
  | inr long ↦ rw long (
      all-append is_digit (decimal_fuel f (n / 10)) _ (decimal_fuel-digits f (n / 10))
        (rw (digit-is_digit (n % 10) (omega arith)) refl))
]

pub decimal-digits : (n : ℕ) → all is_digit (decimal n) ≡ true
unfolding decimal
decimal-digits n = decimal_fuel-digits (suc n) n

-- A row that does not begin with 0.
abbrev pub leads : Text → Bool
leads [] = false
leads (c ∷ s) = not (c == 48)

leads-append : (s t : Text) → leads s ≡ true → leads (s ++ t) ≡ true
leads-append [] t h = cc
leads-append (c ∷ s) t h = h

decimal_fuel-leads : (f n : ℕ) → n < f → 0 < n → leads (decimal_fuel f n) ≡ true
unfolding decimal_fuel
decimal_fuel-leads zero n h k = absurd (omega arith)
decimal_fuel-leads (suc f) n h k = elim (Bool-cases (ltb n 10)) [
  | inl short ↦ rw short (ground arith)
  | inr long ↦ rw long (
      leads-append (decimal_fuel f (n / 10)) _
        (decimal_fuel-leads f (n / 10) (ground arith) (ground arith)))
]

pub decimal-leads : (n : ℕ) → 0 < n → leads (decimal n) ≡ true
unfolding decimal
decimal-leads n h = decimal_fuel-leads (suc n) n (omega arith) h

pub decimal_one : (n : ℕ) → n < 10 → decimal n ≡ (48 + n) ∷ []
unfolding decimal decimal_fuel
decimal_one n h = let short : ltb n 10 ≡ true = lt→ltb n 10 h in rw short refl

decimal_fuel-one : (f n : ℕ) → n < 10 → decimal_fuel (suc f) n ≡ (48 + n) ∷ []
unfolding decimal_fuel
decimal_fuel-one f n h = let short : ltb n 10 ≡ true = lt→ltb n 10 h in rw short refl

decimal_fuel-two :
    (f n : ℕ) → 10 ≤ n → n < 100 → decimal_fuel (suc (suc f)) n ≡ (48 + n / 10) ∷ (48 + n % 10) ∷ []
unfolding decimal_fuel
decimal_fuel-two f n h k =
    let long : ltb n 10 ≡ false = ground arith in
    rw long (ap (λ s. s ++ (48 + n % 10) ∷ []) (decimal_fuel-one f (n / 10) (omega arith)))

pub decimal_two : (n : ℕ) → 10 ≤ n → n < 100 → decimal n ≡ (48 + n / 10) ∷ (48 + n % 10) ∷ []
unfolding decimal
decimal_two zero h k = absurd (omega arith)
decimal_two (suc n) h k = decimal_fuel-two n (suc n) h k
