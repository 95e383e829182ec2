-- ===== src/Text.antt =====
-- Python's `str` as its code points, and the methods of it that the package calls: `==`, `in`,
-- `strip`, `lstrip`, `splitlines`, `split`. Case folding and normal forms need the Unicode tables
-- and are parameters where they are used.
pub mod Equality
pub mod Sets
pub mod Unicode
pub mod Regex
pub mod Number
use Prim.Native.Char.{code}
use loomground_lock.Prelude.{
  zero, suc, length, Option, none, some, ℕ, Bool, true, false, ◌&&◌, ◌||◌, String, List, [], ◌∷◌,
  leb, ◌==◌ as eqb, if◌then◌else◌,
}

abbrev pub Text : Type 0
Text = List ℕ

codes : String → Text
codes String.[] = []
codes (String.◌∷◌ c s) = code c ∷ codes s

-- A literal of the source.
unfoldable pub lit : String → Text
unfolding codes
lit s = codes s

infix 50 ◌==◌
unfoldable pub ◌==◌ : Text → Text → Bool
[] == [] = true
[] == (y ∷ ys) = false
(x ∷ xs) == [] = false
(x ∷ xs) == (y ∷ ys) = eqb x y && xs == ys

-- `x in xs` for a list or a set of texts
unfoldable pub member : Text → List Text → Bool
member x [] = false
member x (y ∷ ys) = x == y || member x ys

unfoldable pub has_prefix : Text → Text → Bool
has_prefix [] s = true
has_prefix (p ∷ ps) [] = false
has_prefix (p ∷ ps) (c ∷ s) = eqb p c && has_prefix ps s

-- `sub in s`
unfoldable pub contains : Text → Text → Bool
unfolding has_prefix
contains sub [] = has_prefix sub []
contains sub (c ∷ s) = has_prefix sub (c ∷ s) || contains sub s

unfoldable pub drop : ℕ → Text → Text
drop zero s = s
drop (suc n) [] = []
drop (suc n) (c ∷ s) = drop n s

-- `s.split(marker, 1)` where the marker is in `s`: what stands before it and behind it. The place
-- of the marker is that of `s.find(marker)`.
unfoldable pub split_once : Text → Text → Option (Text × Text)
unfolding has_prefix drop
split_once marker [] = if has_prefix marker [] then some ([], []) else none
split_once marker (c ∷ s) =
    let later : Option (Text × Text) = elim (split_once marker s) [
      | none ↦ none
      | some (a, b) ↦ some (c ∷ a, b)
    ] in
    if has_prefix marker (c ∷ s) then some ([], drop (length marker) (c ∷ s)) else later

-- `str.isspace` of one character
unfoldable pub is_space : ℕ → Bool
is_space c =
    (leb 9 c && leb c 13)
    || (leb 28 c && leb c 32)
    || eqb c 0x85
    || eqb c 0xa0
    || eqb c 0x1680
    || (leb 0x2000 c && leb c 0x200a)
    || eqb c 0x2028
    || eqb c 0x2029
    || eqb c 0x202f
    || eqb c 0x205f
    || eqb c 0x3000

-- `lstrip` over the characters that `drop` accepts
unfoldable pub lstrip : (ℕ → Bool) → Text → Text
lstrip drop [] = []
lstrip drop (c ∷ s) = let rest = lstrip drop s in if drop c then rest else c ∷ s

unfoldable pub rstrip : (ℕ → Bool) → Text → Text
rstrip drop [] = []
rstrip drop (c ∷ s) = elim (rstrip drop s) [
  | [] ↦ if drop c then [] else c ∷ []
  | d ∷ r ↦ c ∷ d ∷ r
]

-- `s.strip()`
unfoldable pub strip : Text → Text
unfolding lstrip rstrip is_space
strip s = rstrip is_space (lstrip is_space s)

abbrev pub is_blank : Text → Bool
is_blank [] = true
is_blank (c ∷ s) = false

-- The line boundaries of `str.splitlines`, where `\r\n` is one.
unfoldable pub is_newline : ℕ → Bool
is_newline c =
    (leb 10 c && leb c 13) || (leb 28 c && leb c 30) || eqb c 0x85 || eqb c 0x2028 || eqb c 0x2029

cons_line : ℕ → List Text → List Text
cons_line c [] = (c ∷ []) ∷ []
cons_line c (l ∷ ls) = (c ∷ l) ∷ ls

-- `s.splitlines()`; `after_cr` says that the character before was a carriage return that has
-- ended its line.
unfoldable pub lines_from : Bool → Text → List Text
unfolding cons_line is_newline
lines_from after_cr [] = []
lines_from after_cr (c ∷ s) =
    let rest = lines_from (eqb c 13) s in
    if after_cr && eqb c 10 then rest else if is_newline c then [] ∷ rest else cons_line c rest

unfoldable pub splitlines : Text → List Text
unfolding lines_from
splitlines s = lines_from false s
