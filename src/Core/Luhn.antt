-- ===== src/Core/Luhn.antt =====
-- core.py: `_luhn_ok`.
pub mod Laws
use loomground_lock.Prelude.{
  ℕ, ◌+◌, ◌*◌, ◌-◌, ◌%◌, Bool, ◌&&◌, none, some, List, [], ◌∷◌, map, length, all, ltb, leb, is_some,
  ◌==◌, if◌then◌else◌,
}
use loomground_lock.Text.{Text}
use loomground_lock.Text.Unicode.{Unicode}

-- What the digit `d` adds at the place `i`.
unfoldable pub luhn_term : ℕ → ℕ → ℕ → ℕ
luhn_term parity i d = if i % 2 == parity then (if ltb 9 (d * 2) then d * 2 - 9 else d * 2) else d

unfoldable pub luhn_total : ℕ → ℕ → ℕ → List ℕ → ℕ
unfolding luhn_term
luhn_total parity i total [] = total
luhn_total parity i total (d ∷ ds) = luhn_total parity (i + 1) (total + luhn_term parity i d) ds

-- The test on a string of decimal digits, by their values.
unfoldable pub luhn_digits : List ℕ → Bool
unfolding luhn_total
luhn_digits ds =
    leb 13 (length ds) && leb (length ds) 19 && luhn_total (length ds % 2) 0 0 ds % 10 == 0

module _ (u : Unicode) where
  -- `int(ch)`
  unfoldable pub digit_value : ℕ → ℕ
  digit_value c = elim (u.decimal c) [ none ↦ 0 | some d ↦ d ]

  unfoldable pub is_digit : ℕ → Bool
  is_digit c = is_some (u.decimal c)

  unfoldable pub luhn_ok : Text → Bool
  unfolding digit_value is_digit luhn_digits
  luhn_ok s = all is_digit s && luhn_digits (map digit_value s)
