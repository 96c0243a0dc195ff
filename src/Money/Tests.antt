-- ===== src/Money/Tests.antt =====
-- Amounts in yuan.
use price_monitor.Prelude.{◌≡◌, refl, Text, codes, ok, err, decimal, value_from, arith}
use price_monitor.Money.{type_error, range_error}
use price_monitor.Money.Yuan.{money_from_yuan, format_amount, format_fen}
use price_monitor.Money.RoundTrip.{money_from_yuan-format_amount}

abbrev untrimmed : Text → Text
untrimmed t = t

unfoldable yuan : Unit {0}
unfolding money_from_yuan format_amount format_fen decimal value_from
yuan = tt

one_decimal : money_from_yuan untrimmed (codes "12.5") ≡ ok 1250
unfolding yuan
one_decimal = refl

leading_zero : money_from_yuan untrimmed (codes "012") ≡ err type_error
unfolding yuan
leading_zero = refl

too_large : money_from_yuan untrimmed (codes "90071992547410") ≡ err range_error
unfolding yuan
too_large = refl

written : format_fen 123405 ≡ codes "¥1234.05"
unfolding yuan
written = refl

money_from_yuan-format_amount_example : money_from_yuan untrimmed (format_amount 123405) ≡ ok 123405
money_from_yuan-format_amount_example =
    money_from_yuan-format_amount untrimmed (λ t h. refl) 123405 (omega arith)
