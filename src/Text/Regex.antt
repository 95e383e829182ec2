-- ===== src/Text/Regex.antt =====
-- The part of Python's `re` that the package's patterns use: character classes, sequences,
-- alternatives, greedy repetition, `\b` and a look-behind, by backtracking in the engine's order.
pub mod Build
pub mod Progress
use mathlib.Core.List.{reverse}
use loomground_lock.Prelude.{
  ℕ, zero, suc, ◌-◌, Bool, false, not, ◌&&◌, ◌||◌, Option, none, some, [], ◌∷◌, ◌++◌, length,
  ◌==◌ as eqb, if◌then◌else◌,
}
use loomground_lock.Text.{Text}

pub data Regex : Type 0 where
  -- matches the empty text
  eps : Regex
  -- one character that passes the test
  chr : (ℕ → Bool) → Regex
  seq alt : Regex → Regex → Regex
  -- greedy; at least so many times, and at most so many more (`none` for no bound)
  rep : ℕ → Option ℕ → Regex → Regex
  -- `\b`, for the given word characters
  boundary : (ℕ → Bool) → Regex
  -- `(?<=\b...)` over a literal, which is held reversed
  behind : (ℕ → Bool) → Text → Regex

-- What stands before the place, reversed, and what stands behind it.
abbrev pub Place : Type 0
Place = Text × Text

abbrev Continuation : Type 0
Continuation = Place → Option Place

abbrev Matcher : Type 0
Matcher = Continuation → Place → Option Place

abbrev or_else : Option Place → Option Place → Option Place
or_else none other = other
or_else (some p) other = some p

one : (ℕ → Bool) → Matcher
one test k (before, []) = none
one test k (before, c ∷ rest) = if test c then k (c ∷ before, rest) else none

starts_word : (ℕ → Bool) → Text → Bool
starts_word word [] = false
starts_word word (c ∷ s) = word c

at_boundary : (ℕ → Bool) → Place → Bool
unfolding starts_word
at_boundary word (before, rest) =
    let left = starts_word word before in
    let right = starts_word word rest in (left && not right) || (not left && right)

strip_prefix : Text → Text → Option Text
strip_prefix [] s = some s
strip_prefix (p ∷ ps) [] = none
strip_prefix (p ∷ ps) (c ∷ s) = if eqb p c then strip_prefix ps s else none

-- The literal ends here and begins at a word boundary.
follows : (ℕ → Bool) → Text → Place → Bool
unfolding strip_prefix at_boundary
follows word reversed (before, rest) = elim (strip_prefix reversed before) [
  | none ↦ false
  | some earlier ↦ at_boundary word (earlier, reverse reversed)
]

times : ℕ → Matcher → Matcher
times zero m k = k
times (suc n) m k = m (times n m k)

-- As often as can be, and then less often.
at_most : ℕ → Matcher → Matcher
at_most zero m k p = k p
at_most (suc n) m k p = elim (m (at_most n m k) p) [ some q ↦ some q | none ↦ k p ]

-- A body that consumes something is repeated no more often than there are characters left.
more_times : Option ℕ → Matcher → Matcher
unfolding at_most
more_times (some n) m k p = at_most n m k p
more_times none m k p = at_most (length p.1) m k p

unfoldable pub run : Regex → Matcher
unfolding one at_boundary follows times more_times
run eps k p = k p
run (chr test) k p = one test k p
run (seq a b) k p = run a (run b k) p
run (alt a b) k p = elim (run a k p) [ some q ↦ some q | none ↦ run b k p ]
run (rep least more r) k p = times least (run r) (more_times more (run r) k) p
run (boundary word) k p = if at_boundary word p then k p else none
run (behind word reversed) k p = if follows word reversed p then k p else none

-- A match: what was skipped before it, its text, and the place behind it.
pub record Match : Type 0 where
  pub skipped : Text
  pub group : Text
  pub place : Place

abbrev pub take : ℕ → Text → Text
take zero s = []
take (suc n) [] = []
take (suc n) (c ∷ s) = c ∷ take n s

-- `rx.search`, begun at a place: the first place where the pattern matches.
unfoldable pub search_from : Regex → Text → Text → Option Match
unfolding run
search_from r before [] = elim (run r some (before, [])) [
  | some p ↦ some (record { skipped = []; group = []; place = p })
  | none ↦ none
]
search_from r before (c ∷ rest) = elim (run r some (before, c ∷ rest)) [
  | some p ↦
      some (record {
        skipped = [];
        group = take (length (c ∷ rest) - length p.1) (c ∷ rest);
        place = p;
      })
  | none ↦ elim (search_from r (c ∷ before) rest) [
    | some m ↦ some (record m { skipped = c ∷ m.skipped })
    | none ↦ none
  ]
]

-- `rx.search(text)`
unfoldable pub search : Regex → Text → Option Match
unfolding search_from
search r text = search_from r [] text

-- `rx.sub(placeholder, text)`, with as many rounds as there are characters
sub_from : ℕ → Regex → Text → Place → Text
unfolding search_from
sub_from zero r placeholder p = p.1
sub_from (suc n) r placeholder p = elim (search_from r p.0 p.1) [
  | none ↦ p.1
  | some m ↦ m.skipped ++ (placeholder ++ sub_from n r placeholder m.place)
]

unfoldable pub sub : Regex → Text → Text → Text
unfolding sub_from
sub r placeholder text = sub_from (length text) r placeholder ([], text)
