-- ===== src/Core/Luhn/Laws.antt =====
-- core.py: `_luhn_ok` on texts that differ in one place.
use loomground_lock.Prelude.{
  ℕ, suc, ◌+◌, ◌%◌, ◌≤◌, ◌≡◌, refl, ap, ◌∙◌, Bool, true, ◌&&◌, List, [], ◌∷◌, ◌++◌, length, map,
  all, arith,
}
use loomground_lock.Core.Luhn.{luhn_term, luhn_total, luhn_digits, is_digit, digit_value, luhn_ok}
use loomground_lock.Text.{Text}
use loomground_lock.Text.Unicode.{Unicode}
use mathlib.Core.List.{map-append}

add_assoc : (a b c : ℕ) → (a + b) + c ≡ a + (b + c)
add_assoc a b c = omega arith

luhn_total-shift :
    (parity i t s : ℕ) (ds : List ℕ) → luhn_total parity i (t + s) ds ≡ t + luhn_total parity i s ds
unfolding luhn_total
luhn_total-shift parity i t s [] = refl
luhn_total-shift parity i t s (d ∷ ds) =
    let term = luhn_term parity i d in
    ap (λ n. luhn_total parity (i + 1) n ds) (add_assoc t s term)
    ∙ luhn_total-shift parity (i + 1) t (s + term) ds

rearranged : (t n : ℕ) → t + n ≡ (n + t) + 0
rearranged t n = omega arith

-- The sum from the digit `a` on, with what the digits behind it add apart.
luhn_total-cons :
    (parity i t a : ℕ) (ys : List ℕ)
    → luhn_total parity i t (a ∷ ys) ≡ luhn_term parity i a + (t + luhn_total parity (i + 1) 0 ys)
unfolding luhn_total
luhn_total-cons parity i t a ys =
    ap (λ n. luhn_total parity (i + 1) n ys) (rearranged t (luhn_term parity i a))
    ∙ luhn_total-shift parity (i + 1) (luhn_term parity i a + t) 0 ys
    ∙ add_assoc (luhn_term parity i a) t (luhn_total parity (i + 1) 0 ys)

luhn_total-changed :
    (parity i t a b : ℕ) (xs ys : List ℕ)
    → (k : ℕ) × (j : ℕ) × (luhn_total parity i t (xs ++ a ∷ ys) ≡ luhn_term parity j a + k)
      × (luhn_total parity i t (xs ++ b ∷ ys) ≡ luhn_term parity j b + k)
unfolding luhn_total
luhn_total-changed parity i t a b [] ys = (
  t + luhn_total parity (i + 1) 0 ys,
  i,
  luhn_total-cons parity i t a ys,
  luhn_total-cons parity i t b ys,
)
luhn_total-changed parity i t a b (x ∷ xs) ys =
    luhn_total-changed parity (i + 1) (t + luhn_term parity i x) a b xs ys

right_true : (a b : Bool) → (a && b) ≡ true → b ≡ true
right_true a b h = ground arith

luhn_term-small : (parity i d : ℕ) → d ≤ 9 → luhn_term parity i d ≤ 9
unfolding luhn_term
luhn_term-small parity i d h = ground arith

luhn_term-inj :
    (parity i a b : ℕ) → a ≤ 9 → b ≤ 9 → luhn_term parity i a ≡ luhn_term parity i b → a ≡ b
unfolding luhn_term
luhn_term-inj parity i a b ha hb e = ground arith

same_of_mod : (a b k : ℕ) → a ≤ 9 → b ≤ 9 → (a + k) % 10 ≡ 0 → (b + k) % 10 ≡ 0 → a ≡ b
same_of_mod a b k ha hb ea eb = omega arith

luhn_digits-total :
    (ds : List ℕ) → luhn_digits ds ≡ true → luhn_total (length ds % 2) 0 0 ds % 10 ≡ 0
unfolding luhn_digits
luhn_digits-total ds h = ground arith

length-changed : (a b : ℕ) (xs ys : List ℕ) → length (xs ++ a ∷ ys) ≡ length (xs ++ b ∷ ys)
length-changed a b [] ys = refl
length-changed a b (x ∷ xs) ys = ap suc (length-changed a b xs ys)

luhn_digits-single_error :
    (xs ys : List ℕ) (a b : ℕ)
    → a ≤ 9
    → b ≤ 9
    → luhn_digits (xs ++ a ∷ ys) ≡ true
    → luhn_digits (xs ++ b ∷ ys) ≡ true
    → a ≡ b
luhn_digits-single_error xs ys a b ha hb pa pb =
    let parity = length (xs ++ a ∷ ys) % 2 in
    let (k, j, ea, eb) = luhn_total-changed parity 0 0 a b xs ys in
    let ta = luhn_digits-total (xs ++ a ∷ ys) pa in
    let tb = rw (← length-changed a b xs ys) at (luhn_digits-total (xs ++ b ∷ ys) pb) in
    luhn_term-inj parity j a b ha hb (
      same_of_mod (luhn_term parity j a) (luhn_term parity j b) k (luhn_term-small parity j a ha)
        (luhn_term-small parity j b hb) (rw ea at ta) (rw eb at tb))

module _ (u : Unicode) where
  checked_digits : (s : Text) → luhn_ok u s ≡ true → luhn_digits (map (digit_value u) s) ≡ true
  unfolding luhn_ok
  checked_digits s h = right_true (all (is_digit u) s) (luhn_digits (map (digit_value u) s)) h

  -- Where every digit is at most 9: of two texts that differ in one place at most, both pass the
  -- checksum only if the two characters there are the same digit.
  pub luhn_ok-single_error :
      (s t : Text) (c e : ℕ)
      → ((x : ℕ) → digit_value u x ≤ 9)
      → luhn_ok u (s ++ c ∷ t) ≡ true
      → luhn_ok u (s ++ e ∷ t) ≡ true
      → digit_value u c ≡ digit_value u e
  luhn_ok-single_error s t c e small pc pe =
      let v = digit_value u in
      luhn_digits-single_error (map v s) (map v t) (v c) (v e) (small c) (small e)
        (rw (map-append v s (c ∷ t)) at (checked_digits (s ++ c ∷ t) pc))
        (rw (map-append v s (e ∷ t)) at (checked_digits (s ++ e ∷ t) pe))
