-- ===== src/TierCDefault.antt =====
-- tier_c_default.py: the built-in semantic tier.
use loomground_lock.Prelude.{ℕ, Option, none, some, List, [], ◌∷◌, ◌++◌, if◌then◌else◌, is_some}
use loomground_lock.Text.{Text, lit, strip, is_blank}
use loomground_lock.Text.Unicode.{Unicode}
use loomground_lock.Text.Regex.{Regex, chr, alt, search}
use loomground_lock.Text.Regex.Build.{
  is_upper, is_lower, ◌⨾◌, optional, some_of, literal, caseless, choice_of, edge,
}
use loomground_lock.Core.Data.{Finding, Severity, medium, high}

pub record Kind : Type 0 where
  pub kind : Text
  pub pattern : Regex
  pub severity : Severity
  pub confidence : ℕ
  pub reason : Text

-- The first kind whose pattern the text has.
unfoldable pub first_kind : List Kind → Text → Option Kind
first_kind [] text = none
first_kind (k ∷ ks) text =
    let rest = first_kind ks text in if is_some (search k.pattern text) then some k else rest

module _ (u : Unicode) where
  -- \b(chemo|…|hospital(?:ised|isation)?|…|therapy)\b, ignoring case
  unfoldable pub health : Regex
  unfolding caseless choice_of
  health =
      edge u
      ⨾ alt
          (choice_of caseless "chemo"
            ("diagnosis" ∷ "surgery" ∷ "prescribed" ∷ "illness" ∷ "patient" ∷ "hospitalized" ∷ []))
          (alt (caseless "hospital" ⨾ optional (alt (caseless "ised") (caseless "isation"))) (
            choice_of caseless "medication"
              ("condition" ∷ "cancer" ∷ "diabetes" ∷ "depression" ∷ "anxiety" ∷ "therapy" ∷ [])))
      ⨾ edge u

  -- \b(salary|wage|debt|mortgage|bankruptcy|insolvent|loan|owes?)\b, ignoring case
  unfoldable pub financial : Regex
  unfolding caseless choice_of
  financial =
      edge u
      ⨾ alt
          (choice_of caseless "salary"
            ("wage" ∷ "debt" ∷ "mortgage" ∷ "bankruptcy" ∷ "insolvent" ∷ "loan" ∷ []))
          (caseless "owe" ⨾ optional (caseless "s"))
      ⨾ edge u

  -- \b[A-Z][a-z]+ [A-Z][a-z]+\b
  unfoldable pub name_pair : Regex
  unfolding is_lower is_upper literal
  name_pair =
      edge u
      ⨾ chr is_upper
      ⨾ some_of (chr is_lower)
      ⨾ literal " "
      ⨾ chr is_upper
      ⨾ some_of (chr is_lower)
      ⨾ edge u

  unfoldable pub kinds : List Kind
  kinds =
      record {
        kind = lit "health";
        pattern = health;
        severity = high;
        confidence = 85;
        reason = lit "matched health keyword";
      }
      ∷ record {
        kind = lit "financial";
        pattern = financial;
        severity = high;
        confidence = 80;
        reason = lit "matched financial keyword";
      }
      ∷ record {
        kind = lit "name";
        pattern = name_pair;
        severity = medium;
        confidence = 75;
        reason = lit "matched capitalised-pair name pattern";
      }
      ∷ []

  unfoldable pub classify : Text → Option Kind
  classify text = if is_blank (strip text) then none else first_kind kinds text

  unfoldable pub tier_c_default_check : Text → List Finding
  tier_c_default_check text = elim (classify text) [
    | none ↦ []
    | some k ↦
        record {
          tier = lit "C";
          type = lit "pii_in_argument";
          severity = k.severity;
          field = none;
          detail =
              lit "semantic classifier flagged "
              ++ (k.kind ++ (lit ": built-in default tier " ++ k.reason));
          confidence = k.confidence;
          remediation_actions = [];
        }
        ∷ []
  ]
