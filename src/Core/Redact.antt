-- ===== src/Core/Redact.antt =====
-- core.py: redaction. `_redact_for_label`, `_redact_text_with_regex`, and the at-rest redactor
-- `redact_for_capture` with its own patterns.
pub mod Capture
pub mod Cards
use loomground_lock.Prelude.{
  ℕ, zero, suc, Option, none, some, List, [], ◌∷◌, ◌++◌, map, length, ◌==◌ as eqb, if◌then◌else◌,
}
use loomground_lock.Text.{Text, lit, ◌==◌}
use loomground_lock.Text.Unicode.{Unicode}
use loomground_lock.Text.Regex.{Regex, sub}
use loomground_lock.Core.Patterns.{Pattern, Matcher, regex, card_search, tier_b_patterns, cc_search}

-- `_LABEL_REGEX.get(label)`: the callable is not in that dict
unfoldable pub label_regex : List Pattern → Text → Option Regex
label_regex [] label = none
label_regex (p ∷ ps) label = elim p.matcher [
  | regex r ↦ let rest = label_regex ps label in if p.label == label then some r else rest
  | card_search ↦ label_regex ps label
]

module _ (u : Unicode) where
  -- The `while True` over `_cc_search`, on fuel.
  unfoldable pub redact_cards_from : ℕ → Text → Text → Text
  unfolding cc_search
  redact_cards_from zero placeholder out = out
  redact_cards_from (suc n) placeholder out = elim (cc_search u out) [
    | none ↦ out
    | some m ↦ redact_cards_from n placeholder (m.skipped ++ (placeholder ++ m.place.1))
  ]

  unfoldable pub redact_cards : Text → Text → Text
  unfolding redact_cards_from
  redact_cards placeholder text = redact_cards_from (length text) placeholder text

  unfoldable pub redact_with : Text → Text → Text → Text
  unfolding redact_cards label_regex sub lit tier_b_patterns
  redact_with text label placeholder =
      if label == lit "credit_card"
      then redact_cards placeholder text
      else elim (label_regex (tier_b_patterns u) label) [
        | none ↦ text
        | some r ↦ sub r placeholder text
      ]

  -- `_redact_for_label(text, label)`, with its default placeholder
  unfoldable pub redact_for_label : Text → Text → Text
  unfolding redact_with lit
  redact_for_label text label = redact_with text label (lit "[REDACTED:" ++ (label ++ lit "]"))

  -- `f"[REDACTED-{label.upper().replace('_', '-')}]"`
  unfoldable pub text_placeholder : Text → Text
  unfolding lit
  text_placeholder label =
      lit "[REDACTED-" ++ (map (λ c. if eqb c b'_' then b'-' else c) (u.upper label) ++ lit "]")

  unfoldable pub redact_labels : List Pattern → Text → Text
  unfolding redact_with text_placeholder
  redact_labels [] text = text
  redact_labels (p ∷ ps) text =
      redact_labels ps (redact_with text p.label (text_placeholder p.label))

  -- `_redact_text_with_regex(text)`
  unfoldable pub redact_text_with_regex : Text → Text
  unfolding redact_labels tier_b_patterns
  redact_text_with_regex text = redact_labels (tier_b_patterns u) text
