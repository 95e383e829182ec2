-- ===== src/Core/Patterns.antt =====
-- core.py: `_cc_search` and the table of Tier B's patterns, in order of priority.
pub mod Contact
pub mod Identity
use loomground_lock.Prelude.{
  ℕ, zero, suc, Bool, not, Option, none, some, List, [], ◌∷◌, ◌++◌, filter, length, if◌then◌else◌,
}
use loomground_lock.Text.{Text, lit, ◌==◌}
use loomground_lock.Text.Unicode.{Unicode}
use loomground_lock.Text.Regex.{Regex, Match, Place, search_from, search}
use loomground_lock.Text.Regex.Build.{among}
use loomground_lock.Core.Luhn.{luhn_ok}
use Contact.{email, url_creds, phone, bearer, api_key, ipv4, ipv6, name_possessive}
use Identity.{
  iban, iban_full, us_ssn, uk_nino, de_pers, card_candidate, de_steuer_id, de_personalausweis_10,
  es_dni_nie, fr_ssn, patient_case_id, mrn, icd10,
}

pub data Matcher : Type 0 where
  regex : Regex → Matcher
  -- the callable `_cc_search`
  card_search : Matcher

pub record Pattern : Type 0 where
  pub label : Text
  pub matcher : Matcher
  pub confidence : ℕ

module _ (u : Unicode) where
  -- `re.sub(r"[ \-]", "", m.group(0))`
  unfoldable pub card_digits : Text → Text
  unfolding among
  card_digits s = filter (λ c. not (among " -" c)) s

  -- `finditer`: the search goes on behind a candidate that fails the checksum.
  unfoldable pub card_search_from : ℕ → Place → Option Match
  unfolding search_from card_digits card_candidate
  card_search_from zero p = none
  card_search_from (suc n) p = elim (search_from (card_candidate u) p.0 p.1) [
    | none ↦ none
    | some m ↦
        let later : Option Match = elim (card_search_from n m.place) [
          | none ↦ none
          | some l ↦ some (record l { skipped = m.skipped ++ (m.group ++ l.skipped) })
        ] in
        if luhn_ok u (card_digits m.group) then some m else later
  ]

  -- `_cc_search(text)`
  unfoldable pub cc_search : Text → Option Match
  unfolding card_search_from
  cc_search text = card_search_from (length text) ([], text)

  abbrev pattern_of : Text → Regex → ℕ → Pattern
  pattern_of l r c = record { label = l; matcher = regex r; confidence = c }

  -- `_TIER_B_PATTERNS`
  unfoldable pub tier_b_patterns : List Pattern
  unfolding lit url_creds api_key bearer email us_ssn uk_nino iban_full fr_ssn de_steuer_id
      es_dni_nie de_personalausweis_10 de_pers iban ipv6 ipv4 mrn patient_case_id icd10
      name_possessive phone
  tier_b_patterns =
      pattern_of (lit "url_with_creds") url_creds 98
      ∷ pattern_of (lit "api_key") (api_key u) 95
      ∷ pattern_of (lit "bearer_token") (bearer u) 92
      ∷ pattern_of (lit "email") email 90
      ∷ pattern_of (lit "us_ssn") (us_ssn u) 95
      ∷ pattern_of (lit "uk_nino") (uk_nino u) 95
      ∷ pattern_of (lit "iban_full") (iban_full u) 97
      ∷ pattern_of (lit "fr_ssn") (fr_ssn u) 95
      ∷ pattern_of (lit "de_steuer_id") (de_steuer_id u) 90
      ∷ pattern_of (lit "es_dni_nie") (es_dni_nie u) 93
      ∷ pattern_of (lit "de_personalausweis_10") (de_personalausweis_10 u) 85
      ∷ pattern_of (lit "de_personnummer") (de_pers u) 85
      ∷ pattern_of (lit "iban") (iban u) 95
      ∷ record { label = lit "credit_card"; matcher = card_search; confidence = 95 }
      ∷ pattern_of (lit "ipv6") (ipv6 u) 90
      ∷ pattern_of (lit "ipv4") (ipv4 u) 85
      ∷ pattern_of (lit "mrn") (mrn u) 92
      ∷ pattern_of (lit "patient_case_id") (patient_case_id u) 85
      ∷ pattern_of (lit "icd10") (icd10 u) 75
      ∷ pattern_of (lit "name_possessive") (name_possessive u) 80
      ∷ pattern_of (lit "phone") (phone u) 85
      ∷ []

  -- `matcher.search(text) if hasattr(matcher, "search") else matcher(text)`
  unfoldable pub hit : Matcher → Text → Option Match
  unfolding search cc_search
  hit (regex r) text = search r text
  hit card_search text = cc_search text
