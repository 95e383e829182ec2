-- ===== src/Text/Unicode.antt =====
-- What the package takes from Python's Unicode tables and from the optional package `anyascii`,
-- which are no part of the repository.
use loomground_lock.Prelude.{
  ℕ, Bool, false, Option, some, none, ◌-◌, ◌+◌, ◌&&◌, ◌||◌, leb, map, if◌then◌else◌,
}
use loomground_lock.Text.{Text}

pub record Unicode : Type 0 where
  -- `str.lower`, `str.upper`
  pub lower : Text → Text
  pub upper : Text → Text
  -- the value of a decimal digit, that is of a character that `\d` and `int` accept
  pub decimal : ℕ → Option ℕ
  -- a letter or a digit, in the sense of `\w`
  pub is_alnum : ℕ → Bool
  -- `unicodedata.normalize`
  pub nfc : Text → Text
  pub nfkc : Text → Text
  pub nfkd : Text → Text
  -- `unicodedata.combining(c) != 0`
  pub combining : ℕ → Bool
  -- the transliterator, where it is installed
  pub anyascii : Option (Text → Text)

-- The tables cut down to ASCII.
abbrev pub ascii_lower : ℕ → ℕ
ascii_lower c = if leb 65 c && leb c 90 then c + 32 else c

abbrev pub ascii_upper : ℕ → ℕ
ascii_upper c = if leb 97 c && leb c 122 then c - 32 else c

abbrev pub ascii : Unicode
ascii = record {
  lower = map ascii_lower;
  upper = map ascii_upper;
  decimal = λ c. if leb 48 c && leb c 57 then some (c - 48) else none;
  is_alnum = λ c. (leb 48 c && leb c 57) || (leb 65 c && leb c 90) || (leb 97 c && leb c 122);
  nfc = λ s. s;
  nfkc = λ s. s;
  nfkd = λ s. s;
  combining = λ c. false;
  anyascii = none;
}
