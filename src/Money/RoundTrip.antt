-- ===== src/Money/RoundTrip.antt =====
-- An amount that is written and read again.
use price_monitor.Prelude.{
  ℕ, zero, suc, ◌+◌, ◌*◌, ◌≤◌, ◌<◌, ◌≡◌, refl, ap, ◌∙◌, inl, inr, Bool, true, ◌&&◌, some, [], ◌∷◌,
  ◌++◌, all, ltb, le→leb, Bool-cases, Text, ok, arith, decimal, value_from, is_digit, leads,
  value_from-decimal, decimal-digits, decimal-leads, decimal_one, decimal_two, &&-left, &&-right,
}
use Prim.Native.Nat.{◌/◌, ◌%◌}
use price_monitor.Money.{max_safe}
use price_monitor.Money.Yuan.{
  take_digits, drop_digits, is_whole, cents_of, parse_parts, money_from_yuan, pad_start,
  format_amount,
}

-- The digits in front of a point are the whole part.
take_digits-point : (s t : Text) → all is_digit s ≡ true → take_digits (s ++ 46 ∷ t) ≡ s
take_digits-point [] t h = refl
take_digits-point (c ∷ s) t h =
    let here : is_digit c ≡ true = &&-left (is_digit c) (all is_digit s) h in
    rw here (ap (λ u. c ∷ u) (take_digits-point s t (&&-right (is_digit c) (all is_digit s) h)))

drop_digits-point : (s t : Text) → all is_digit s ≡ true → drop_digits (s ++ 46 ∷ t) ≡ 46 ∷ t
drop_digits-point [] t h = refl
drop_digits-point (c ∷ s) t h =
    let here : is_digit c ≡ true = &&-left (is_digit c) (all is_digit s) h in
    rw here (drop_digits-point s t (&&-right (is_digit c) (all is_digit s) h))

leads-is_whole : (s : Text) → leads s ≡ true → is_whole s ≡ true
leads-is_whole [] h = cc
leads-is_whole (c ∷ []) h = refl
leads-is_whole (c ∷ d ∷ s) h = h

decimal-is_whole : (n : ℕ) → is_whole (decimal n) ≡ true
decimal-is_whole zero = rw (decimal_one 0 (omega arith)) refl
decimal-is_whole (suc n) = leads-is_whole (decimal (suc n)) (decimal-leads (suc n) (omega arith))

digit : (n : ℕ) → n < 10 → is_digit (48 + n) ≡ true
digit n h = ground arith

-- Two digits.
abbrev two_digits : ℕ → Text
two_digits n = (48 + n / 10) ∷ (48 + n % 10) ∷ []

pad_start-decimal : (n : ℕ) → n < 100 → pad_start (decimal n) ≡ two_digits n
pad_start-decimal n h = elim (Bool-cases (ltb n 10)) [
  | inl short ↦
      (let less : n < 10 = ground arith in
        let high : n / 10 ≡ 0 = omega arith in
        let low : n % 10 ≡ n = omega arith in rw (decimal_one n less, high, low) refl)
  | inr long ↦ rw (decimal_two n (ground arith) h) refl
]

cents_of-two_digits : (n : ℕ) → n < 100 → cents_of (46 ∷ two_digits n) ≡ some n
unfolding value_from
cents_of-two_digits n h =
    let first = digit (n / 10) (omega arith) in
    let second = digit (n % 10) (omega arith) in rw (first, second) (ap some (omega arith))

-- An ASCII character that is seen, so no white space.
abbrev pub is_visible : ℕ → Bool
is_visible c = ltb 32 c && ltb c 127

digits-visible : (s : Text) → all is_digit s ≡ true → all is_visible s ≡ true
digits-visible [] h = refl
digits-visible (c ∷ s) h = ground (arith, digits-visible s)

visible-append :
    (s t : Text)
    → all is_visible s ≡ true
    → all is_visible t ≡ true
    → all is_visible (s ++ t) ≡ true
visible-append [] t h k = k
visible-append (c ∷ s) t h k = ground (arith, visible-append s t)

two_digits-visible : (n : ℕ) → n < 100 → all is_visible (46 ∷ two_digits n) ≡ true
two_digits-visible n h =
    let first : is_visible (48 + n / 10) ≡ true = visible (n / 10) (omega arith) in
    let second : is_visible (48 + n % 10) ≡ true = visible (n % 10) (omega arith) in
    rw (first, second) refl
  where
    visible : (d : ℕ) → d < 10 → is_visible (48 + d) ≡ true
    visible d h = ground arith

format_amount-eq : (n : ℕ) → format_amount n ≡ decimal (n / 100) ++ 46 ∷ two_digits (n % 100)
unfolding format_amount
format_amount-eq n =
    ap (λ t. decimal (n / 100) ++ 46 ∷ t) (pad_start-decimal (n % 100) (omega arith))

format_amount-visible : (n : ℕ) → all is_visible (format_amount n) ≡ true
format_amount-visible n = rw (format_amount-eq n) (
    visible-append (decimal (n / 100)) (46 ∷ two_digits (n % 100))
      (digits-visible (decimal (n / 100)) (decimal-digits (n / 100)))
      (two_digits-visible (n % 100) (omega arith)))

parse_parts-of :
    (whole rest : Text) (y c n : ℕ)
    → is_whole whole ≡ true
    → value_from 0 whole ≡ y
    → cents_of rest ≡ some c
    → y * 100 + c ≡ n
    → n ≤ max_safe
    → parse_parts whole rest ≡ ok n
parse_parts-of whole rest y c n w v e f h = rw (w, v, e, f, le→leb n max_safe h) refl

-- A safe amount in fen that is written for a message, without the currency sign, is read back as itself.
-- The condition on `trim` is that it leaves a text of visible ASCII characters as it is.
pub money_from_yuan-format_amount :
    (trim : Text → Text)
    → ((t : Text) → all is_visible t ≡ true → trim t ≡ t)
    → (n : ℕ) → n ≤ max_safe
    → money_from_yuan trim (format_amount n) ≡ ok n
unfolding money_from_yuan
money_from_yuan-format_amount trim keeps n h =
    let whole = decimal (n / 100) in
    let rest = two_digits (n % 100) in
    let read : trim (format_amount n) ≡ whole ++ 46 ∷ rest =
      keeps (format_amount n) (format_amount-visible n) ∙ format_amount-eq n in
    rw
      (
        read,
        take_digits-point whole rest (decimal-digits (n / 100)),
        drop_digits-point whole rest (decimal-digits (n / 100)),
      )
      (parse_parts-of whole (46 ∷ rest) (n / 100) (n % 100) n (decimal-is_whole (n / 100))
        (value_from-decimal (n / 100)) (cents_of-two_digits (n % 100) (omega arith)) (omega arith)
        h)
