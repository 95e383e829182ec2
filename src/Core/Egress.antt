-- ===== src/Core/Egress.antt =====
-- core.py: `egress` and `_decide_egress`; the record that it leaves stands in Core/Audit.antt.
pub mod Laws
use loomground_lock.Prelude.{
  ℕ, not, ◌||◌, none, some, Option, List, [], ◌∷◌, ◌++◌, filter, length, is_empty, if◌then◌else◌,
}
use loomground_lock.Text.{Text, lit, member}
use loomground_lock.Text.Number.{show}
use loomground_lock.Text.Unicode.{Unicode}
use loomground_lock.Value.{keep_keys}
use loomground_lock.HostDeps.{HostState}
use loomground_lock.Core.Data.{
  Mode, standard, strict, permissive, audit_only, Finding, ToolCall, EgressDecision, EgressAction,
  is_high, has_high,
}
use loomground_lock.Core.TierA.{tier_a_check_arguments}
use loomground_lock.Core.TierB.{tier_b_scan_dict}
use loomground_lock.Core.Token.{TokenEnv, validate_token}

-- `[f.field for f in findings if f.field is not None]`
unfoldable pub fields_of : List Finding → List Text
fields_of [] = []
fields_of (f ∷ fs) = let rest = fields_of fs in elim f.field [ none ↦ rest | some k ↦ k ∷ rest ]

unfoldable pub egress_allow : List Finding → Text → EgressDecision
egress_allow findings reason = record {
  action = EgressAction.allow;
  findings = findings;
  modified_call = none;
  stripped_fields = [];
  reason = reason;
}

-- `{k: v for k, v in call.arguments.items() if k not in stripped_fields}`
unfoldable pub strip_call : List Text → ToolCall → ToolCall
unfolding keep_keys
strip_call stripped call = record call {
  arguments = keep_keys (λ k. not (member k stripped)) call.arguments;
}

unfoldable pub decide_egress : ToolCall → List Finding → List Finding → Mode → EgressDecision
unfolding fields_of egress_allow strip_call
decide_egress call over all_findings audit_only =
    egress_allow all_findings (lit "audit-only mode: detect, do not mutate")
decide_egress call over all_findings permissive =
    egress_allow all_findings (lit "permissive mode: warn but allow")
decide_egress call over all_findings strict =
    if has_high all_findings || not (is_empty over)
    then record {
      action = EgressAction.refuse;
      findings = all_findings;
      modified_call = none;
      stripped_fields = [];
      reason =
          lit "strict mode: "
          ++ (show (length over)
              ++ (lit " over-collection findings; "
                  ++ (show (length (filter is_high all_findings))
                      ++ lit " high-severity findings")));
    }
    else egress_allow all_findings []
decide_egress call over all_findings standard =
    if is_empty over then egress_allow all_findings [] else record {
      action = EgressAction.strip;
      findings = all_findings;
      modified_call = some (strip_call (fields_of over) call);
      stripped_fields = fields_of over;
      reason =
          lit "standard mode: stripped "
          ++ (show (length (fields_of over)) ++ lit " over-collected field(s)");
    }

module _ (u : Unicode) (host : HostState) (env : TokenEnv) where
  unfoldable pub egress_findings : ToolCall → List Text → List Finding
  egress_findings call task_scope =
      tier_a_check_arguments call.arguments task_scope
      ++ (tier_b_scan_dict u host call.arguments
          ++ (validate_token env call.capability_token call).findings)

  -- `egress(call, task_scope, mode=mode)`
  unfoldable pub egress : ToolCall → List Text → Mode → EgressDecision
  egress call task_scope mode =
      decide_egress call (tier_a_check_arguments call.arguments task_scope)
        (egress_findings call task_scope) mode

-- The arguments that a caller sends on: those of the modified call where there is one.
unfoldable pub outgoing : ToolCall → EgressDecision → ToolCall
outgoing call d = elim d.modified_call [ none ↦ call | some c ↦ c ]
