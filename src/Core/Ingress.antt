-- ===== src/Core/Ingress.antt =====
-- core.py: `ingress` and `_decide_ingress`.
pub mod Laws
use loomground_lock.Prelude.{
  ℕ, none, some, Option, List, [], ◌∷◌, ◌++◌, filter, map, length, is_some, is_empty, if◌then◌else◌,
}
use loomground_lock.Text.{Text, lit, member}
use loomground_lock.Text.Sets.{sorted_set}
use loomground_lock.Text.Number.{show}
use loomground_lock.Text.Unicode.{Unicode}
use loomground_lock.Value.{Value, Fields, str, lookup, assign}
use loomground_lock.HostDeps.{HostState}
use loomground_lock.Core.Data.{
  Mode, standard, strict, permissive, audit_only, Finding, ToolResponse, IngressDecision,
  IngressAction, is_high,
}
use loomground_lock.Core.TierA.{tier_a_check_response}
use loomground_lock.Core.TierB.{tier_b_scan_dict}
use loomground_lock.Core.Egress.{fields_of}

unfoldable pub ingress_allow : List Finding → Text → IngressDecision
ingress_allow findings reason = record {
  action = IngressAction.allow;
  findings = findings;
  redacted_payload = none;
  reason = reason;
}

-- The union of the two sets of fields, in the order of the texts.
unfoldable pub fields_to_redact : List Finding → List Finding → List Text
unfolding sorted_set fields_of
fields_to_redact over all_findings =
    sorted_set (fields_of over ++ fields_of (filter is_high all_findings))

-- The loop `for f in fields_to_redact: if f in redacted: redacted[f] = "[REDACTED]"`.
unfoldable pub redact_fields : List Text → Fields → Fields
unfolding lookup assign
redact_fields [] payload = payload
redact_fields (f ∷ fs) payload =
    redact_fields fs
      (if is_some (lookup f payload) then assign f (str (lit "[REDACTED]")) payload else payload)

-- STANDARD and STRICT
unfoldable pub enforce_ingress : ToolResponse → List Finding → List Finding → IngressDecision
unfolding fields_to_redact redact_fields ingress_allow
enforce_ingress response over all_findings =
    let targets = fields_to_redact over all_findings in
    if is_empty targets then ingress_allow all_findings [] else record {
      action = IngressAction.redact;
      findings = all_findings;
      redacted_payload = some (redact_fields targets response.payload);
      reason = lit "redacted " ++ (show (length targets) ++ lit " field(s)");
    }

unfoldable pub decide_ingress : ToolResponse → List Finding → List Finding → Mode → IngressDecision
unfolding ingress_allow enforce_ingress
decide_ingress response over all_findings audit_only = ingress_allow all_findings (lit "audit-only")
decide_ingress response over all_findings permissive = ingress_allow all_findings (lit "permissive")
decide_ingress response over all_findings standard = enforce_ingress response over all_findings
decide_ingress response over all_findings strict = enforce_ingress response over all_findings

-- `f.type = "pii_in_response"`
unfoldable pub in_response : Finding → Finding
in_response f = record f { type = lit "pii_in_response" }

module _ (u : Unicode) (host : HostState) where
  unfoldable pub ingress_findings : ToolResponse → List Text → List Finding
  ingress_findings response task_scope =
      tier_a_check_response response.payload task_scope
      ++ map in_response (tier_b_scan_dict u host response.payload)

  -- `ingress(response, task_scope, mode=mode)`
  unfoldable pub ingress : ToolResponse → List Text → Mode → IngressDecision
  ingress response task_scope mode =
      decide_ingress response (tier_a_check_response response.payload task_scope)
        (ingress_findings response task_scope) mode

-- The payload that a caller hands on.
unfoldable pub incoming : ToolResponse → IngressDecision → Fields
incoming response d = elim d.redacted_payload [ none ↦ response.payload | some p ↦ p ]
