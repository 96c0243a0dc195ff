-- ===== src/Money/Yuan.antt =====
-- packages/config/src/money.ts `moneyFromYuan`, and `formatFen` of
-- apps/api/src/alerts/wecom/wecom.message.ts. `trim` is a parameter. The digits' exact value stands for
-- `parseInt`: where a JavaScript number would round it, the amount is not safe either way.
use price_monitor.Prelude.{
  ℕ, ◌+◌, ◌*◌, Bool, true, false, ◌&&◌, Option, none, some, [], ◌∷◌, ◌++◌, ◌==◌, if◌then◌else◌,
  Text, codes, Result, ok, err, decimal, value_from, is_digit, leads,
}
use Prim.Native.Nat.{◌/◌, ◌%◌}
use price_monitor.Money.{PriceError, type_error, range_error, is_safe}

-- The two parts of `\d*` and what follows.
abbrev pub take_digits : Text → Text
take_digits [] = []
take_digits (c ∷ t) = let rest = take_digits t in if is_digit c then c ∷ rest else []

abbrev pub drop_digits : Text → Text
drop_digits [] = []
drop_digits (c ∷ t) = let rest = drop_digits t in if is_digit c then rest else c ∷ t

-- `0|[1-9]\d*`, of a row of digits.
abbrev pub is_whole : Text → Bool
is_whole [] = false
is_whole (c ∷ []) = true
is_whole (c ∷ d ∷ t) = leads (c ∷ d ∷ t)

-- `(?:\.(\d{1,2}))?` and the padding of its digits to two.
abbrev pub cents_of : Text → Option ℕ
cents_of [] = some 0
cents_of (point ∷ []) = none
cents_of (point ∷ a ∷ []) =
    if (point == 46) && is_digit a then some (value_from 0 (a ∷ 48 ∷ [])) else none
cents_of (point ∷ a ∷ b ∷ []) =
    if (point == 46) && (is_digit a && is_digit b) then some (value_from 0 (a ∷ b ∷ [])) else none
cents_of (point ∷ a ∷ b ∷ c ∷ t) = none

abbrev pub total_fen : ℕ → Option ℕ → Result PriceError ℕ
total_fen yuan none = err type_error
total_fen yuan (some cents) =
    if is_safe (yuan * 100 + cents) then ok (yuan * 100 + cents) else err range_error

abbrev pub parse_parts : Text → Text → Result PriceError ℕ
parse_parts whole rest =
    if is_whole whole then total_fen (value_from 0 whole) (cents_of rest) else err type_error

-- `moneyFromYuan`.
unfoldable pub money_from_yuan : (Text → Text) → Text → Result PriceError ℕ
money_from_yuan trim value = parse_parts (take_digits (trim value)) (drop_digits (trim value))

-- `text.padStart(2, "0")`.
abbrev pub pad_start : Text → Text
pad_start [] = 48 ∷ 48 ∷ []
pad_start (a ∷ []) = 48 ∷ a ∷ []
pad_start (a ∷ b ∷ t) = a ∷ b ∷ t

-- What `formatFen` writes behind the currency sign.
unfoldable pub format_amount : ℕ → Text
format_amount fen = decimal (fen / 100) ++ (46 ∷ pad_start (decimal (fen % 100)))

-- `formatFen`.
unfoldable pub format_fen : ℕ → Text
format_fen fen = codes "¥" ++ format_amount fen
