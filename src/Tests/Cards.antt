-- ===== src/Tests/Cards.antt =====
-- Card numbers at concrete texts.
use loomground_lock.Prelude.{ℕ, ◌≤◌, ◌≡◌, refl, none, [], arith}
use loomground_lock.Text.{Text, lit}
use loomground_lock.Text.Unicode.{ascii}
use loomground_lock.Core.Luhn.{is_digit, digit_value, luhn_ok, luhn_digits, luhn_total, luhn_term}
use loomground_lock.Core.Luhn.Laws.{luhn_ok-single_error}
use loomground_lock.Core.Patterns.{cc_search}
use loomground_lock.Core.Redact.{redact_with}
use loomground_lock.Core.Redact.Cards.{redact_with-clean}

abbrev two_cards : Text
two_cards = lit "4111 1111 1111 1111 and 5500-0000-0000-0004"

redact_with-clean_example :
    cc_search ascii (redact_with ascii two_cards (lit "credit_card") (lit "[REDACTED:credit_card]"))
    ≡ none
unfolding lit is_digit
redact_with-clean_example = redact_with-clean ascii (lit "[REDACTED:credit_card]") two_cards refl

ascii_digit_small : (c : ℕ) → digit_value ascii c ≤ 9
unfolding digit_value
ascii_digit_small c = ground arith

luhn_ok-single_error_example : digit_value ascii 0x31 ≡ digit_value ascii 0x31
unfolding lit luhn_ok luhn_digits luhn_total luhn_term digit_value is_digit
luhn_ok-single_error_example =
    luhn_ok-single_error ascii (lit "411111111111111") [] 0x31 0x31 ascii_digit_small refl refl
