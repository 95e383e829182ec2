-- ===== src/Core/Data.antt =====
-- core.py: the modes, findings, tokens, calls and decisions.
use loomground_lock.Prelude.{ℕ, Bool, true, false, Option, List, any}
use loomground_lock.Text.{Text, lit}
use loomground_lock.Value.{Fields}

pub data Mode : Type 0 where
  standard strict permissive audit_only : Mode

unfoldable pub mode_value : Mode → Text
mode_value standard = lit "standard"
mode_value strict = lit "strict"
mode_value permissive = lit "permissive"
mode_value audit_only = lit "audit_only"

-- The three values that the source documents for `Finding.severity`.
pub data Severity : Type 0 where
  low medium high : Severity

pub data RemediationKind : Type 0 where
  redact_and_retry bypass_once disable_lock : RemediationKind

pub record RemediationAction : Type 0 where
  pub kind : RemediationKind
  pub label : Text
  pub payload : Fields

-- `confidence` is in hundredths: the source's 0.95 is 95.
pub record Finding : Type 0 where
  pub tier : Text
  pub type : Text
  pub severity : Severity
  pub field : Option Text
  pub detail : Text
  pub confidence : ℕ
  pub remediation_actions : List RemediationAction

pub record CapabilityToken : Type 0 where
  pub iss : Text
  pub sub : Text
  pub aud : Text
  pub iat : ℕ
  pub exp : ℕ
  pub scope : Fields
  pub controller : Text
  pub task_id : Text
  pub signature : Text

pub record ToolCall : Type 0 where
  pub tool : Text
  pub arguments : Fields
  pub capability_token : Option CapabilityToken

pub record ToolResponse : Type 0 where
  pub payload : Fields

pub data EgressAction : Type 0 where
  allow strip refuse : EgressAction

pub record EgressDecision : Type 0 where
  pub action : EgressAction
  pub findings : List Finding
  pub modified_call : Option ToolCall
  pub stripped_fields : List Text
  pub reason : Text

pub data IngressAction : Type 0 where
  allow redact : IngressAction

pub record IngressDecision : Type 0 where
  pub action : IngressAction
  pub findings : List Finding
  pub redacted_payload : Option Fields
  pub reason : Text

pub data TextAction : Type 0 where
  allow minimise refuse : TextAction

pub record TextDecision : Type 0 where
  pub action : TextAction
  pub findings : List Finding
  pub redacted_text : Option Text
  pub reason : Text
  pub source : Text

abbrev pub is_high_severity : Severity → Bool
is_high_severity high = true
is_high_severity _ = false

-- `f.severity == "high"`
abbrev pub is_high : Finding → Bool
is_high f = is_high_severity f.severity

-- `any(f.severity == "high" for f in findings)`
abbrev pub has_high : List Finding → Bool
has_high = any is_high
