-- ===== src/Text/Regex/Build.antt =====
-- The syntax of `re` in words: classes of characters, repetitions, literals.
use mathlib.Core.List.{reverse}
use loomground_lock.Prelude.{
  ℕ, ◌-◌, ◌+◌, Bool, ◌&&◌, ◌||◌, none, some, List, [], ◌∷◌, String, any, leb, ◌==◌ as eqb, is_some,
}
use loomground_lock.Text.{Text, lit, is_space}
use loomground_lock.Text.Unicode.{Unicode}
use loomground_lock.Text.Regex.{Regex, eps, chr, seq, alt, rep, boundary, behind}

abbrev Class : Type 0
Class = ℕ → Bool

-- `[abc]`
unfoldable pub among : String → Class
unfolding lit
among s c = any (eqb c) (lit s)

-- `[A-Z]`, `[a-z]`, `[0-9]`
unfoldable pub is_upper : Class
is_upper c = leb 65 c && leb c 90

unfoldable pub is_lower : Class
is_lower c = leb 97 c && leb c 122

unfoldable pub is_ascii_digit : Class
is_ascii_digit c = leb 48 c && leb c 57

unfoldable pub is_letter : Class
unfolding is_upper is_lower
is_letter c = is_upper c || is_lower c

unfoldable pub is_upper_digit : Class
unfolding is_upper is_ascii_digit
is_upper_digit c = is_upper c || is_ascii_digit c

unfoldable pub is_letter_digit : Class
unfolding is_letter is_ascii_digit
is_letter_digit c = is_letter c || is_ascii_digit c

infixr 40 ◌⨾◌
-- one after the other
abbrev pub ◌⨾◌ : Regex → Regex → Regex
a ⨾ b = seq a b

-- `r?`, `r*`, `r+`, `r{n}`, `r{m,n}`, `r{n,}`
abbrev pub optional : Regex → Regex
optional r = rep 0 (some 1) r

abbrev pub many : Regex → Regex
many r = rep 0 none r

abbrev pub some_of : Regex → Regex
some_of r = rep 1 none r

abbrev pub exactly : ℕ → Regex → Regex
exactly n r = rep n (some 0) r

abbrev pub between : ℕ → ℕ → Regex → Regex
between m n r = rep m (some (n - m)) r

abbrev pub at_least : ℕ → Regex → Regex
at_least n r = rep n none r

literal_codes : Text → Regex
literal_codes [] = eps
literal_codes (c ∷ []) = chr (eqb c)
literal_codes (c ∷ d ∷ s) = seq (chr (eqb c)) (literal_codes (d ∷ s))

unfoldable pub literal : String → Regex
unfolding literal_codes lit
literal s = literal_codes (lit s)

-- A letter under `re.IGNORECASE`: besides the two cases, the Kelvin sign for k, the long s for s,
-- and the dotted capital and the dotless small i for i.
unfoldable pub same_letter : ℕ → ℕ → Bool
unfolding is_upper is_lower
same_letter p c =
    eqb p c
    || (is_upper p && eqb (p + 32) c)
    || (is_lower p && eqb (p - 32) c)
    || ((eqb p 75 || eqb p 107) && eqb c 0x212a)
    || ((eqb p 83 || eqb p 115) && eqb c 0x17f)
    || ((eqb p 73 || eqb p 105) && (eqb c 0x130 || eqb c 0x131))

-- `[A-Za-z]` under `re.IGNORECASE`
unfoldable pub is_any_letter : Class
unfolding is_letter
is_any_letter c = is_letter c || eqb c 0x212a || eqb c 0x17f || eqb c 0x130 || eqb c 0x131

caseless_codes : Text → Regex
unfolding same_letter
caseless_codes [] = eps
caseless_codes (c ∷ []) = chr (same_letter c)
caseless_codes (c ∷ d ∷ s) = seq (chr (same_letter c)) (caseless_codes (d ∷ s))

unfoldable pub caseless : String → Regex
unfolding caseless_codes lit
caseless s = caseless_codes (lit s)

-- `(?:a|b|c)`, of a list with at least one alternative
unfoldable pub choice : Regex → List Regex → Regex
choice r [] = r
choice r (s ∷ rs) = alt r (choice s rs)

unfoldable pub choice_of : (String → Regex) → String → List String → Regex
choice_of f s [] = f s
choice_of f s (t ∷ ts) = alt (f s) (choice_of f t ts)

module _ (u : Unicode) where
  -- `\d`, `\w`, `\b`, `\s`
  abbrev pub is_digit_char : Class
  is_digit_char c = is_some (u.decimal c)

  abbrev pub is_word : Class
  is_word c = u.is_alnum c || eqb c 95

  abbrev pub digit : Regex
  digit = chr is_digit_char

  abbrev pub word : Regex
  word = chr is_word

  abbrev pub edge : Regex
  edge = boundary is_word

  unfoldable pub behind_word : String → Regex
  unfolding lit
  behind_word s = behind is_word (reverse (lit s))

abbrev pub space : Regex
space = chr is_space
