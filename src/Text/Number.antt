-- ===== src/Text/Number.antt =====
-- A number in an f-string.
use loomground_lock.Prelude.{ℕ, zero, suc, ◌+◌, ◌/◌, ◌%◌, [], ◌∷◌, ltb, if◌then◌else◌}
use loomground_lock.Text.{Text}

decimal_from : ℕ → ℕ → Text → Text
decimal_from zero n acc = acc
decimal_from (suc fuel) n acc =
    let digit = 48 + n % 10 in
    let rest = decimal_from fuel (n / 10) (digit ∷ acc) in if ltb n 10 then digit ∷ acc else rest

-- `str(n)`: a number has no more digits than its value and one
unfoldable pub show : ℕ → Text
unfolding decimal_from
show n = decimal_from (suc n) n []
