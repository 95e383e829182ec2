-- ===== src/Core/Redact/Capture.antt =====
-- core.py: `redact_for_capture`.
use mathlib.Core.List.{reverse}
use loomground_lock.Prelude.{
  ℕ, Bool, zero, suc, ◌-◌, not, ◌||◌, none, some, List, [], ◌∷◌, ◌++◌, length, ◌==◌ as eqb,
}
use loomground_lock.Text.{Text, lit, drop, split_once, is_space}
use loomground_lock.Text.Unicode.{Unicode}
use loomground_lock.Text.Regex.{Regex, Place, chr, take, search_from, sub}
use loomground_lock.Text.Regex.Build.{
  among, is_upper, is_letter_digit, is_any_letter, is_ascii_digit, ◌⨾◌, optional, many, some_of,
  between, at_least, literal, caseless, choice, edge, space,
}
use loomground_lock.Core.Redact.{redact_for_label}

-- -----BEGIN ([A-Z ]{0,32}PRIVATE KEY)-----
unfoldable pub pem_begin : Regex
unfolding among is_upper literal
pem_begin =
    literal "-----BEGIN "
    ⨾ between 0 32 (chr (λ c. is_upper c || among " " c))
    ⨾ literal "PRIVATE KEY"
    ⨾ literal "-----"

-- `match.group(1)`: the match without the eleven characters before the label and the five after
unfoldable pub pem_label : Text → Text
unfolding drop
pem_label group = take (length group - 16) (drop 11 group)

-- `_redact_pem_private_keys` from a cursor; a block that has no END marker ends the scan.
redact_pem_from : ℕ → Place → Text
unfolding lit search_from pem_begin pem_label split_once
redact_pem_from zero p = p.1
redact_pem_from (suc n) p = elim (search_from pem_begin p.0 p.1) [
  | none ↦ p.1
  | some m ↦
      let marker = lit "-----END " ++ (pem_label m.group ++ lit "-----") in
      elim (split_once marker m.place.1) [
        | none ↦ p.1
        | some (block, after) ↦
            m.skipped
            ++ (lit "[REDACTED-PRIVATE-KEY]"
                ++ redact_pem_from n (reverse (block ++ marker) ++ m.place.0, after))
      ]
]

unfoldable pub redact_pem_private_keys : Text → Text
unfolding redact_pem_from
redact_pem_private_keys text = redact_pem_from (length text) ([], text)

-- `_CAPTURE_REDACT_LABELS`
unfoldable pub capture_labels : List Text
unfolding lit
capture_labels =
    lit "url_with_creds"
    ∷ lit "api_key"
    ∷ lit "bearer_token"
    ∷ lit "credit_card"
    ∷ lit "email"
    ∷ lit "iban_full"
    ∷ lit "iban"
    ∷ lit "us_ssn"
    ∷ lit "uk_nino"
    ∷ lit "fr_ssn"
    ∷ lit "de_steuer_id"
    ∷ lit "es_dni_nie"
    ∷ lit "de_personnummer"
    ∷ lit "de_personalausweis_10"
    ∷ lit "mrn"
    ∷ lit "patient_case_id"
    ∷ lit "icd10"
    ∷ lit "name_possessive"
    ∷ lit "phone"
    ∷ []

module _ (u : Unicode) where
  -- \beyJ[A-Za-z0-9_\-]{6,}\.[A-Za-z0-9_\-]{6,}\.[A-Za-z0-9_\-]+
  unfoldable pub capture_jwt : Regex
  unfolding among is_letter_digit literal
  capture_jwt =
      let part = chr (λ c. is_letter_digit c || among "_-" c) in
      edge u
      ⨾ literal "eyJ"
      ⨾ at_least 6 part
      ⨾ literal "."
      ⨾ at_least 6 part
      ⨾ literal "."
      ⨾ some_of part

  -- \bbearer\s+[A-Za-z0-9._\-/+=]{8,}, ignoring case
  unfoldable pub capture_bearer : Regex
  unfolding among caseless is_any_letter is_ascii_digit is_space
  capture_bearer =
      edge u
      ⨾ caseless "bearer"
      ⨾ some_of space
      ⨾ at_least 8 (chr (λ c. is_any_letter c || is_ascii_digit c || among "._-/+=" c))

  -- \b(?:password|…|refresh[_-]?token)\b\s*[=:]\s*(?:"…"|'…'|…), ignoring case
  unfoldable pub capture_secret_assign : Regex
  unfolding among caseless choice is_space
  capture_secret_assign =
      let joint = optional (chr (among "_-")) in
      let quoted = λ (q : Regex) (others : ℕ → Bool). q ⨾ at_least 4 (chr others) ⨾ q in
      edge u
      ⨾ choice (caseless "password") (
          caseless "passwd"
          ∷ caseless "secret"
          ∷ (caseless "secret" ⨾ joint ⨾ caseless "access" ⨾ joint ⨾ caseless "key")
          ∷ (caseless "api" ⨾ joint ⨾ caseless "key")
          ∷ caseless "token"
          ∷ (caseless "access" ⨾ joint ⨾ caseless "token")
          ∷ (caseless "refresh" ⨾ joint ⨾ caseless "token")
          ∷ [])
      ⨾ edge u
      ⨾ many space
      ⨾ chr (among "=:")
      ⨾ many space
      ⨾ choice (quoted (chr (eqb 34)) (λ c. not (eqb 34 c))) (
          quoted (chr (eqb 39)) (λ c. not (eqb 39 c))
          ∷ at_least 4 (chr (λ c. not (is_space c || eqb 34 c || among "',;}" c)))
          ∷ [])

  unfoldable pub redact_for_labels : List Text → Text → Text
  unfolding redact_for_label
  redact_for_labels [] out = out
  redact_for_labels (l ∷ ls) out = redact_for_labels ls (redact_for_label u out l)

  -- `redact_for_capture(text)`
  unfoldable pub redact_for_capture : Text → Text
  unfolding lit sub redact_for_labels capture_labels redact_pem_private_keys
  redact_for_capture [] = []
  redact_for_capture (c ∷ s) =
      let labelled = redact_for_labels capture_labels (c ∷ s) in
      let keyless = redact_pem_private_keys labelled in
      let jwtless = sub capture_jwt (lit "[REDACTED-JWT]") keyless in
      let bearerless = sub capture_bearer (lit "[REDACTED-BEARER]") jwtless in
      sub capture_secret_assign (lit "[REDACTED-SECRET]") bearerless
