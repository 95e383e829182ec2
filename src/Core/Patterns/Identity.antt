-- ===== src/Core/Patterns/Identity.antt =====
-- core.py: the patterns of Tier B for identity numbers, accounts, cards and medical records.
use loomground_lock.Prelude.{ℕ, ◌||◌, [], ◌∷◌}
use loomground_lock.Text.{is_space}
use loomground_lock.Text.Unicode.{Unicode}
use loomground_lock.Text.Regex.{Regex, chr, alt}
use loomground_lock.Text.Regex.Build.{
  among, is_upper, is_any_letter, is_ascii_digit, is_upper_digit, ◌⨾◌, optional, many, exactly,
  between, literal, caseless, choice, choice_of, digit, word, edge, space,
}

-- `[0-9]{n}` and `[A-Z0-9]{n}`
abbrev nums : ℕ → Regex
nums n = exactly n (chr is_ascii_digit)

abbrev alnums : ℕ → Regex
alnums n = exactly n (chr is_upper_digit)

abbrev uppers : ℕ → Regex
uppers n = exactly n (chr is_upper)

module _ (u : Unicode) where
  -- \b[A-Z]{2}\d{2}[A-Z0-9]{1,30}\b
  unfoldable pub iban : Regex
  unfolding is_upper_digit
  iban = edge u ⨾ uppers 2 ⨾ exactly 2 (digit u) ⨾ between 1 30 (chr is_upper_digit) ⨾ edge u

  -- The lengths by country.
  unfoldable pub iban_full : Regex
  unfolding choice is_upper literal
  iban_full =
      let check = exactly 2 (digit u) in
      edge u
      ⨾ choice (literal "AT" ⨾ check ⨾ nums 16) (
          (literal "BE" ⨾ check ⨾ nums 12)
          ∷ (literal "BG" ⨾ check ⨾ uppers 4 ⨾ nums 6 ⨾ alnums 8)
          ∷ (literal "CH" ⨾ check ⨾ nums 5 ⨾ alnums 12)
          ∷ (literal "CZ" ⨾ check ⨾ nums 20)
          ∷ (literal "DE" ⨾ check ⨾ nums 18)
          ∷ (literal "DK" ⨾ check ⨾ nums 14)
          ∷ (literal "ES" ⨾ check ⨾ nums 20)
          ∷ (literal "FI" ⨾ check ⨾ nums 14)
          ∷ (literal "FR" ⨾ check ⨾ nums 10 ⨾ alnums 11 ⨾ nums 2)
          ∷ (literal "GB" ⨾ check ⨾ uppers 4 ⨾ nums 14)
          ∷ (literal "IE" ⨾ check ⨾ uppers 4 ⨾ nums 14)
          ∷ (literal "IT" ⨾ check ⨾ chr is_upper ⨾ nums 10 ⨾ alnums 12)
          ∷ (literal "LU" ⨾ check ⨾ nums 3 ⨾ alnums 13)
          ∷ (literal "NL" ⨾ check ⨾ uppers 4 ⨾ nums 10)
          ∷ (literal "PL" ⨾ check ⨾ nums 24)
          ∷ (literal "PT" ⨾ check ⨾ nums 21)
          ∷ (literal "SE" ⨾ check ⨾ nums 20)
          ∷ [])
      ⨾ edge u

  -- \b\d{3}-\d{2}-\d{4}\b
  unfoldable pub us_ssn : Regex
  unfolding literal
  us_ssn =
      edge u
      ⨾ exactly 3 (digit u)
      ⨾ literal "-"
      ⨾ exactly 2 (digit u)
      ⨾ literal "-"
      ⨾ exactly 4 (digit u)
      ⨾ edge u

  -- \b[A-CEGHJ-PR-TW-Z]{2}\d{6}[A-D]\b
  unfoldable pub uk_nino : Regex
  unfolding among
  uk_nino =
      edge u
      ⨾ exactly 2 (chr (among "ABCEGHJKLMNOPRSTWXYZ"))
      ⨾ exactly 6 (digit u)
      ⨾ chr (among "ABCD")
      ⨾ edge u

  -- \b[CFGHJK]\w{8}\b
  unfoldable pub de_pers : Regex
  unfolding among
  de_pers = edge u ⨾ chr (among "CFGHJK") ⨾ exactly 8 (word u) ⨾ edge u

  -- \b(?:\d[ \-]?){13,19}\b
  unfoldable pub card_candidate : Regex
  unfolding among
  card_candidate = edge u ⨾ between 13 19 (digit u ⨾ optional (chr (among " -"))) ⨾ edge u

  -- \b\d{2}\s?\d{3}\s?\d{3}\s?\d{3}\b
  unfoldable pub de_steuer_id : Regex
  unfolding is_space
  de_steuer_id =
      let group = optional space ⨾ exactly 3 (digit u) in
      edge u ⨾ exactly 2 (digit u) ⨾ group ⨾ group ⨾ group ⨾ edge u

  -- \b[CFGHJKLMNPRTVWXYZ][0-9A-Z]{9}\b
  unfoldable pub de_personalausweis_10 : Regex
  unfolding among
  de_personalausweis_10 = edge u ⨾ chr (among "CFGHJKLMNPRTVWXYZ") ⨾ alnums 9 ⨾ edge u

  -- \b(?:\d{8}|[XYZ]\d{7})[A-HJ-NP-TV-Z]\b
  unfoldable pub es_dni_nie : Regex
  unfolding among
  es_dni_nie =
      edge u
      ⨾ alt (exactly 8 (digit u)) (chr (among "XYZ") ⨾ exactly 7 (digit u))
      ⨾ chr (among "ABCDEFGHJKLMNPQRSTVWXYZ")
      ⨾ edge u

  -- \b[12]\s?\d{2}\s?(?:0\d|1[0-2])\s?\d{2}\s?\d{3}\s?\d{3}\s?\d{2}\b
  unfoldable pub fr_ssn : Regex
  unfolding among is_space literal
  fr_ssn =
      let gap = optional space in
      edge u
      ⨾ chr (among "12")
      ⨾ gap
      ⨾ exactly 2 (digit u)
      ⨾ gap
      ⨾ alt (literal "0" ⨾ digit u) (literal "1" ⨾ chr (among "012"))
      ⨾ gap
      ⨾ exactly 2 (digit u)
      ⨾ gap
      ⨾ exactly 3 (digit u)
      ⨾ gap
      ⨾ exactly 3 (digit u)
      ⨾ gap
      ⨾ exactly 2 (digit u)
      ⨾ edge u

  -- \b(?:patient|case|client)\s*(?:#|id|number|no\.?)\s*\d{3,10}\b, ignoring case
  unfoldable pub patient_case_id : Regex
  unfolding caseless choice choice_of is_space literal
  patient_case_id =
      edge u
      ⨾ choice_of caseless "patient" ("case" ∷ "client" ∷ [])
      ⨾ many space
      ⨾ choice (literal "#")
          (caseless "id" ∷ caseless "number" ∷ (caseless "no" ⨾ optional (literal ".")) ∷ [])
      ⨾ many space
      ⨾ between 3 10 (digit u)
      ⨾ edge u

  -- \bMRN\s*[:#-]?\s*[A-Z0-9-]{4,15}\b, ignoring case
  unfoldable pub mrn : Regex
  unfolding among caseless is_any_letter is_ascii_digit is_space
  mrn =
      edge u
      ⨾ caseless "MRN"
      ⨾ many space
      ⨾ optional (chr (among ":#-"))
      ⨾ many space
      ⨾ between 4 15 (chr (λ c. is_any_letter c || is_ascii_digit c || among "-" c))
      ⨾ edge u

  -- \b[A-TV-Z]\d{2}(?:\.\d{1,3})?\b
  unfoldable pub icd10 : Regex
  unfolding among literal
  icd10 =
      edge u
      ⨾ chr (among "ABCDEFGHIJKLMNOPQRSTVWXYZ")
      ⨾ exactly 2 (digit u)
      ⨾ optional (literal "." ⨾ between 1 3 (digit u))
      ⨾ edge u
