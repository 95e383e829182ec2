-- ===== src/Core/Fold.antt =====
-- core.py: the table of confusable characters and `_ascii_fold`.
use loomground_lock.Prelude.{ℕ, not, none, some, List, [], ◌∷◌, ◌++◌, filter, ◌==◌, if◌then◌else◌}
use loomground_lock.Text.{Text, lit}
use loomground_lock.Text.Unicode.{Unicode}

-- `_CONFUSABLES`: Cyrillic and Greek lookalikes by their code points, and zero-width characters
unfoldable pub confusables : List (ℕ × Text)
unfolding lit
confusables =
    (0x430, lit "a")
    ∷ (0x435, lit "e")
    ∷ (0x43e, lit "o")
    ∷ (0x440, lit "p")
    ∷ (0x441, lit "c")
    ∷ (0x443, lit "y")
    ∷ (0x445, lit "x")
    ∷ (0x456, lit "i")
    ∷ (0x458, lit "j")
    ∷ (0x455, lit "s")
    ∷ (0x4bb, lit "h")
    ∷ (0x501, lit "d")
    ∷ (0x51b, lit "q")
    ∷ (0x51d, lit "w")
    ∷ (0x261, lit "g")
    ∷ (0x217c, lit "l")
    ∷ (0x410, lit "A")
    ∷ (0x412, lit "B")
    ∷ (0x415, lit "E")
    ∷ (0x41a, lit "K")
    ∷ (0x41c, lit "M")
    ∷ (0x41d, lit "H")
    ∷ (0x41e, lit "O")
    ∷ (0x420, lit "P")
    ∷ (0x421, lit "C")
    ∷ (0x422, lit "T")
    ∷ (0x425, lit "X")
    ∷ (0x405, lit "S")
    ∷ (0x406, lit "I")
    ∷ (0x408, lit "J")
    ∷ (0x4ae, lit "Y")
    ∷ (0x51a, lit "Q")
    ∷ (0x3b1, lit "a")
    ∷ (0x3bf, lit "o")
    ∷ (0x3c1, lit "p")
    ∷ (0x3bd, lit "v")
    ∷ (0x3c4, lit "t")
    ∷ (0x3b9, lit "i")
    ∷ (0x3ba, lit "k")
    ∷ (0x3c5, lit "u")
    ∷ (0x391, lit "A")
    ∷ (0x392, lit "B")
    ∷ (0x395, lit "E")
    ∷ (0x396, lit "Z")
    ∷ (0x397, lit "H")
    ∷ (0x399, lit "I")
    ∷ (0x39a, lit "K")
    ∷ (0x39c, lit "M")
    ∷ (0x39d, lit "N")
    ∷ (0x39f, lit "O")
    ∷ (0x3a1, lit "P")
    ∷ (0x3a4, lit "T")
    ∷ (0x3a5, lit "Y")
    ∷ (0x3a7, lit "X")
    ∷ (0x200b, [])
    ∷ (0x200c, [])
    ∷ (0x200d, [])
    ∷ (0x2060, [])
    ∷ (0xfeff, [])
    ∷ []

unfoldable pub replacement : List (ℕ × Text) → ℕ → Text
replacement [] c = c ∷ []
replacement ((d, r) ∷ table) c = if d == c then r else replacement table c

-- `text.translate(_CONFUSABLES)`
unfoldable pub translate : Text → Text
unfolding replacement confusables
translate [] = []
translate (c ∷ s) = replacement confusables c ++ translate s

-- `_ascii_fold(text)`
unfoldable pub ascii_fold : Unicode → Text → Text
unfolding translate
ascii_fold u text = elim u.anyascii [
  | some transliterate ↦ transliterate text
  | none ↦ filter (λ c. not (u.combining c)) (u.nfkd (translate (u.nfkc text)))
]
