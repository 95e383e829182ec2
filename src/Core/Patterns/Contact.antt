-- ===== src/Core/Patterns/Contact.antt =====
-- core.py: the patterns of Tier B for contacts, networks and secrets.
use loomground_lock.Prelude.{◌||◌, not, [], ◌∷◌}
use loomground_lock.Text.{is_space}
use loomground_lock.Text.Unicode.{Unicode}
use loomground_lock.Text.Regex.{Regex, chr, alt}
use loomground_lock.Text.Regex.Build.{
  among, is_upper, is_lower, is_letter, is_letter_digit, ◌⨾◌, optional, many, some_of, exactly,
  between, at_least, literal, choice, choice_of, digit, is_word, edge, behind_word, space,
  is_ascii_digit,
}

-- [A-Za-z0-9._%+-]+@[A-Za-z0-9.-]+\.[A-Za-z]{2,}
unfoldable pub email : Regex
unfolding among is_letter is_letter_digit literal
email =
    some_of (chr (λ c. is_letter_digit c || among "._%+-" c))
    ⨾ literal "@"
    ⨾ some_of (chr (λ c. is_letter_digit c || among ".-" c))
    ⨾ literal "."
    ⨾ at_least 2 (chr is_letter)

-- [a-z]{2,10}://[^/\s:@]+:[^/\s@]+@[^\s]+
unfoldable pub url_creds : Regex
unfolding among is_lower is_space literal
url_creds =
    between 2 10 (chr is_lower)
    ⨾ literal "://"
    ⨾ some_of (chr (λ c. not (is_space c || among "/:@" c)))
    ⨾ literal ":"
    ⨾ some_of (chr (λ c. not (is_space c || among "/@" c)))
    ⨾ literal "@"
    ⨾ some_of (chr (λ c. not (is_space c)))

module _ (u : Unicode) where
  -- (?:\+?\d{1,3}[\s.-]?)?\(?\d{2,4}\)?[\s.-]?\d{3,4}[\s.-]?\d{3,4}
  unfoldable pub phone : Regex
  unfolding among is_space literal
  phone =
      let gap = optional (chr (λ c. is_space c || among ".-" c)) in
      optional (optional (literal "+") ⨾ between 1 3 (digit u) ⨾ gap)
      ⨾ optional (literal "(")
      ⨾ between 2 4 (digit u)
      ⨾ optional (literal ")")
      ⨾ gap
      ⨾ between 3 4 (digit u)
      ⨾ gap
      ⨾ between 3 4 (digit u)

  -- (?<=\bBearer )[A-Za-z0-9._\-/+=]{16,}
  unfoldable pub bearer : Regex
  unfolding among behind_word is_letter_digit
  bearer = behind_word u "Bearer " ⨾ at_least 16 (chr (λ c. is_letter_digit c || among "._-/+=" c))

  -- \b(?:sk_(?:live|test)_|sk-|ghp_|github_pat_|xox[baprs]-|AIza|AKIA|ASIA|EAA|hf_)
  -- [A-Za-z0-9_\-]{10,}\b
  unfoldable pub api_key : Regex
  unfolding among choice is_letter_digit literal
  api_key =
      edge u
      ⨾ choice (literal "sk_" ⨾ alt (literal "live") (literal "test") ⨾ literal "_") (
          literal "sk-"
          ∷ literal "ghp_"
          ∷ literal "github_pat_"
          ∷ (literal "xox" ⨾ chr (among "baprs") ⨾ literal "-")
          ∷ literal "AIza"
          ∷ literal "AKIA"
          ∷ literal "ASIA"
          ∷ literal "EAA"
          ∷ literal "hf_"
          ∷ [])
      ⨾ at_least 10 (chr (λ c. is_letter_digit c || among "_-" c))
      ⨾ edge u

  -- \b(?:\d{1,3}\.){3}\d{1,3}\b
  unfoldable pub ipv4 : Regex
  unfolding literal
  ipv4 = edge u ⨾ exactly 3 (between 1 3 (digit u) ⨾ literal ".") ⨾ between 1 3 (digit u) ⨾ edge u

  -- \b(?:[0-9a-fA-F]{1,4}:){2,7}[0-9a-fA-F]{1,4}\b
  unfoldable pub ipv6 : Regex
  unfolding among is_ascii_digit literal
  ipv6 =
      let hex = chr (λ c. is_ascii_digit c || among "abcdefABCDEF" c) in
      edge u ⨾ between 2 7 (between 1 4 hex ⨾ literal ":") ⨾ between 1 4 hex ⨾ edge u

  -- \b(?:Mr|Mrs|…|Hon)\.?\s+(?:[A-ZÄÖÜÅÉÈÊÁÀÆØ][\w'’\-]+\s*){1,4}[’']s\b
  unfoldable pub name_possessive : Regex
  unfolding among choice_of is_space is_upper literal
  name_possessive =
      edge u
      ⨾ choice_of literal "Mr" (
          "Mrs" ∷ "Ms" ∷ "Mx" ∷ "Dr" ∷ "Prof" ∷ "Professor" ∷ "Sir" ∷ "Madam" ∷ "Lady" ∷ "Lord"
          ∷ "Rev" ∷ "Fr" ∷ "Herr" ∷ "Frau" ∷ "Sr" ∷ "Sra" ∷ "Sgt" ∷ "Capt" ∷ "Lt" ∷ "Col" ∷ "Gen"
          ∷ "Hon" ∷ [])
      ⨾ optional (literal ".")
      ⨾ some_of space
      ⨾ between 1 4 (
          chr (λ c. is_upper c || among "ÄÖÜÅÉÈÊÁÀÆØ" c)
          ⨾ some_of (chr (λ c. is_word u c || among "'’-" c))
          ⨾ many space)
      ⨾ chr (among "’'")
      ⨾ literal "s"
      ⨾ edge u
