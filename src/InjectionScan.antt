-- ===== src/InjectionScan.antt =====
-- injection_scan.py: the rules for injected instructions in an ingested document. Python's `repr`
-- of a text is a parameter; confidences are in hundredths.
use loomground_lock.Prelude.{
  Bool, not, none, some, List, [], ◌∷◌, ◌++◌, is_empty, length, ltb, ◌==◌ as eqb, if◌then◌else◌,
}
use loomground_lock.Text.{Text, lit}
use loomground_lock.Text.Unicode.{Unicode}
use loomground_lock.Text.Regex.{Regex, chr, alt, Match, search, take}
use loomground_lock.Text.Regex.Build.{
  among, ◌⨾◌, optional, many, some_of, between, caseless, choice_of, choice, edge, space, word,
}
use loomground_lock.Core.Data.{Finding, Severity, medium, high, is_high_severity}

pub record Rule : Type 0 where
  pub pattern : Regex
  pub label : Text
  pub severity : Severity

-- `.`: any character but the line feed
abbrev any_char : Regex
any_char = chr (λ c. not (eqb c 10))

abbrev spaces : Regex
spaces = some_of space

module _ (u : Unicode) where
  -- \bignore\s+(?:the\s+)?(?:above|previous|prior|preceding|earlier)\b
  unfoldable pub ignore_previous : Regex
  unfolding caseless choice_of
  ignore_previous =
      edge u
      ⨾ caseless "ignore"
      ⨾ spaces
      ⨾ optional (caseless "the" ⨾ spaces)
      ⨾ choice_of caseless "above" ("previous" ∷ "prior" ∷ "preceding" ∷ "earlier" ∷ [])
      ⨾ edge u

  -- \bdisregard\s+(?:the\s+)?(?:above|previous|prior|all)\b
  unfoldable pub disregard_previous : Regex
  unfolding caseless choice_of
  disregard_previous =
      edge u
      ⨾ caseless "disregard"
      ⨾ spaces
      ⨾ optional (caseless "the" ⨾ spaces)
      ⨾ choice_of caseless "above" ("previous" ∷ "prior" ∷ "all" ∷ [])
      ⨾ edge u

  -- \bnew\s+instructions?\s*[:\-]
  unfoldable pub new_instructions : Regex
  unfolding caseless among
  new_instructions =
      edge u
      ⨾ caseless "new"
      ⨾ spaces
      ⨾ caseless "instruction"
      ⨾ optional (caseless "s")
      ⨾ many space
      ⨾ chr (among ":-")

  -- \bforget\s+(?:everything|all|the\s+above|previous)\b
  unfoldable pub forget_previous : Regex
  unfolding caseless choice choice_of
  forget_previous =
      edge u
      ⨾ caseless "forget"
      ⨾ spaces
      ⨾ choice (caseless "everything")
          (caseless "all" ∷ (caseless "the" ⨾ spaces ⨾ caseless "above") ∷ caseless "previous" ∷ [])
      ⨾ edge u

  -- \byou\s+are\s+now\b
  unfoldable pub role_reassignment : Regex
  unfolding caseless
  role_reassignment =
      edge u ⨾ caseless "you" ⨾ spaces ⨾ caseless "are" ⨾ spaces ⨾ caseless "now" ⨾ edge u

  -- \b(?:system\s+prompt|developer\s+message|system\s+message)\b
  unfoldable pub system_prompt_reference : Regex
  unfolding caseless choice
  system_prompt_reference =
      edge u
      ⨾ choice (caseless "system" ⨾ spaces ⨾ caseless "prompt") (
          (caseless "developer" ⨾ spaces ⨾ caseless "message")
          ∷ (caseless "system" ⨾ spaces ⨾ caseless "message")
          ∷ [])
      ⨾ edge u

  -- \btreat\s+(?:any|all|the)\s+.*\b(?:system\s+prompts?|instructions?)\b.*\b(?:as\s+)?untrusted\b
  unfoldable pub trust_subversion : Regex
  unfolding caseless choice_of
  trust_subversion =
      edge u
      ⨾ caseless "treat"
      ⨾ spaces
      ⨾ choice_of caseless "any" ("all" ∷ "the" ∷ [])
      ⨾ spaces
      ⨾ many any_char
      ⨾ edge u
      ⨾ alt (caseless "system" ⨾ spaces ⨾ caseless "prompt" ⨾ optional (caseless "s"))
          (caseless "instruction" ⨾ optional (caseless "s"))
      ⨾ edge u
      ⨾ many any_char
      ⨾ edge u
      ⨾ optional (caseless "as" ⨾ spaces)
      ⨾ caseless "untrusted"
      ⨾ edge u

  -- \bact\s+as\s+(?:an?\s+)?(?:unrestricted|jailbroken|DAN)\b
  unfoldable pub jailbreak_persona : Regex
  unfolding caseless choice_of
  jailbreak_persona =
      edge u
      ⨾ caseless "act"
      ⨾ spaces
      ⨾ caseless "as"
      ⨾ spaces
      ⨾ optional (caseless "a" ⨾ optional (caseless "n") ⨾ spaces)
      ⨾ choice_of caseless "unrestricted" ("jailbroken" ∷ "DAN" ∷ [])
      ⨾ edge u

  -- \b(?:repeat|reveal|print|output|exfiltrate|send)\b.{0,60}\b(?:home\s+address|password|
  -- api[\s_-]?key|secret|ssn|credit\s+card|full\s+name)\b
  unfoldable pub exfiltration : Regex
  unfolding caseless choice choice_of among
  exfiltration =
      edge u
      ⨾ choice_of caseless "repeat" ("reveal" ∷ "print" ∷ "output" ∷ "exfiltrate" ∷ "send" ∷ [])
      ⨾ edge u
      ⨾ between 0 60 any_char
      ⨾ edge u
      ⨾ choice (caseless "home" ⨾ spaces ⨾ caseless "address") (
          caseless "password"
          ∷ (caseless "api" ⨾ optional (alt space (chr (among "_-"))) ⨾ caseless "key")
          ∷ caseless "secret"
          ∷ caseless "ssn"
          ∷ (caseless "credit" ⨾ spaces ⨾ caseless "card")
          ∷ (caseless "full" ⨾ spaces ⨾ caseless "name")
          ∷ [])
      ⨾ edge u

  -- \bbase64[\s-]?encod
  unfoldable pub base64_hint : Regex
  unfolding caseless among
  base64_hint =
      edge u ⨾ caseless "base64" ⨾ optional (alt space (chr (among "-"))) ⨾ caseless "encod"

  -- \b(?:call|invoke|use)\s+the\s+\w+\s+tool\s+(?:to|and)\b
  unfoldable pub tool_invocation : Regex
  unfolding caseless choice_of
  tool_invocation =
      edge u
      ⨾ choice_of caseless "call" ("invoke" ∷ "use" ∷ [])
      ⨾ spaces
      ⨾ caseless "the"
      ⨾ spaces
      ⨾ some_of (word u)
      ⨾ spaces
      ⨾ caseless "tool"
      ⨾ spaces
      ⨾ choice_of caseless "to" ("and" ∷ [])
      ⨾ edge u

  abbrev rule : Regex → Text → Severity → Rule
  rule r l s = record { pattern = r; label = l; severity = s }

  -- `_RULES`
  unfoldable pub rules : List Rule
  rules =
      rule ignore_previous (lit "ignore_previous_instructions") high
      ∷ rule disregard_previous (lit "disregard_previous_instructions") high
      ∷ rule new_instructions (lit "new_instructions_directive") high
      ∷ rule forget_previous (lit "forget_previous") high
      ∷ rule role_reassignment (lit "role_reassignment") medium
      ∷ rule system_prompt_reference (lit "system_prompt_reference") medium
      ∷ rule trust_subversion (lit "trust_subversion") high
      ∷ rule jailbreak_persona (lit "jailbreak_persona") high
      ∷ rule exfiltration (lit "exfiltration_directive") high
      ∷ rule base64_hint (lit "base64_exfil_hint") medium
      ∷ rule tool_invocation (lit "tool_invocation_directive") medium
      ∷ []

-- `span[:77] + "..."` of a long one
unfoldable pub clip_span : Text → Text
clip_span s = if ltb 80 (length s) then take 77 s ++ lit "..." else s

module _ (repr : Text → Text) where
  unfoldable pub rule_finding : Rule → Match → Finding
  unfolding clip_span
  rule_finding r m = record {
    tier = lit "D";
    type = lit "prompt_injection";
    severity = r.severity;
    field = none;
    detail =
        lit "ingest-time injection pattern '"
        ++ (r.label ++ (lit "' matched: " ++ repr (clip_span m.group)));
    confidence = if is_high_severity r.severity then 90 else 60;
    remediation_actions = [];
  }

  -- The loop of `scan_text`.
  unfoldable pub apply_rules : List Rule → Text → List Finding
  unfolding rule_finding
  apply_rules [] text = []
  apply_rules (r ∷ rs) text =
      let rest = apply_rules rs text in
      elim (search r.pattern text) [ none ↦ rest | some m ↦ rule_finding r m ∷ rest ]

  -- `scan_text(text)`, also under the name `scan_document`
  unfoldable pub scan_text : Unicode → Text → List Finding
  unfolding apply_rules rules
  scan_text u text = if is_empty text then [] else apply_rules (rules u) text

  -- `contains_injection(text)`
  unfoldable pub contains_injection : Unicode → Text → Bool
  unfolding scan_text
  contains_injection u text = not (is_empty (scan_text u text))
