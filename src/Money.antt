-- ===== src/Money.antt =====
-- Amounts in fen: packages/config/src/public-price.ts `assertFen`, apps/api/src/pricing
-- `assertMoney`. A JavaScript number is a natural number or one of the others (negative,
-- fractional, infinite, NaN), which every check refuses alike.
pub mod Yuan
pub mod RoundTrip
pub mod Tests
use price_monitor.Prelude.{ℕ, Bool, leb, if◌then◌else◌, Result, ok, err}

-- `Number.MAX_SAFE_INTEGER`.
abbrev pub max_safe : ℕ
max_safe = 9007199254740991

pub data Number : Type 0 where
  natural : ℕ → Number
  other : Number

pub data PriceError : Type 0 where
  type_error range_error : PriceError

-- `Number.isSafeInteger`, at a natural number.
abbrev pub is_safe : ℕ → Bool
is_safe n = leb n max_safe

-- The checked value, as the natural number that the rest of the code computes with.
unfoldable pub assert_fen : Number → Result PriceError ℕ
assert_fen (natural n) = if is_safe n then ok n else err type_error
assert_fen other = err type_error
