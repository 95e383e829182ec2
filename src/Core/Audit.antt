-- ===== src/Core/Audit.antt =====
-- core.py: `AuditLog`, and the locks with the record that they leave. The log is the list of the
-- entries in its file; the clock and the random id are the stamp of an entry. A confidence in an
-- entry is in hundredths, as in a finding.
pub mod Laws
use loomground_lock.Prelude.{
  ℕ, Bool, true, false, not, ◌||◌, Option, none, some, List, [], ◌∷◌, ◌++◌, map, length,
  if◌then◌else◌,
}
use loomground_lock.Text.{Text, lit, ◌==◌, is_blank}
use loomground_lock.Text.Sets.{sorted_set}
use loomground_lock.Text.Unicode.{Unicode}
use loomground_lock.Value.{
  Value, Items, Fields, str, num, null, arr, obj, nil, cons, end, entry, keys,
}
use loomground_lock.HostDeps.{HostState, Reply, returned, raised}
use loomground_lock.Core.Data.{
  Mode, mode_value, Severity, low, medium, high, Finding, CapabilityToken, ToolCall, ToolResponse,
  EgressAction, EgressDecision, IngressAction, IngressDecision, TextAction, TextDecision,
}
use loomground_lock.Core.TierA.{flatten}
use loomground_lock.Core.Token.{TokenEnv}
use loomground_lock.Core.Egress.{egress}
use loomground_lock.Core.Ingress.{ingress}
use loomground_lock.Core.TextLock.{lock_text}
use loomground_lock.TierM.{ModerationEnv}

abbrev pub Log : Type 0
Log = List Fields

-- `time.time()` and `uuid.uuid4()` at an append
pub record Stamp : Type 0 where
  pub ts : ℕ
  pub audit_id : Text

unfoldable pub severity_value : Severity → Text
severity_value low = lit "low"
severity_value medium = lit "medium"
severity_value high = lit "high"

unfoldable pub egress_action_value : EgressAction → Text
egress_action_value EgressAction.allow = lit "allow"
egress_action_value EgressAction.strip = lit "strip"
egress_action_value EgressAction.refuse = lit "refuse"

unfoldable pub ingress_action_value : IngressAction → Text
ingress_action_value IngressAction.allow = lit "allow"
ingress_action_value IngressAction.redact = lit "redact"

unfoldable pub text_action_value : TextAction → Text
text_action_value TextAction.allow = lit "allow"
text_action_value TextAction.minimise = lit "minimise"
text_action_value TextAction.refuse = lit "refuse"

unfoldable pub optional_text : Option Text → Value
optional_text none = null
optional_text (some s) = str s

unfoldable pub texts : List Text → Items
texts [] = nil
texts (s ∷ ss) = cons (str s) (texts ss)

-- `_finding_summary(f)`
unfoldable pub finding_summary : Finding → Value
finding_summary f = obj (
    entry (lit "tier") (str f.tier) (
      entry (lit "type") (str f.type) (
        entry (lit "severity") (str (severity_value f.severity)) (
          entry (lit "field") (optional_text f.field)
            (entry (lit "confidence") (num f.confidence) end)))))

unfoldable pub values : List Value → Items
values [] = nil
values (v ∷ vs) = cons v (values vs)

unfoldable pub summaries : List Finding → Value
unfolding values
summaries fs = arr (values (map finding_summary fs))

unfoldable pub egress_entry : Stamp → ToolCall → EgressDecision → Mode → Option Text → Fields
egress_entry stamp call d mode task_id = entry (lit "ts") (num stamp.ts) (
    entry (lit "kind") (str (lit "egress")) (
      entry (lit "tool") (str call.tool) (
        entry (lit "argument_schema") (arr (texts (sorted_set (flatten call.arguments [])))) (
          entry (lit "action") (str (egress_action_value d.action)) (
            entry (lit "findings_count") (num (length d.findings)) (
              entry (lit "findings") (summaries d.findings) (
                entry (lit "stripped_fields") (arr (texts d.stripped_fields)) (
                  entry (lit "mode") (str (mode_value mode)) (
                    entry (lit "task_id") (optional_text task_id)
                      (entry (lit "audit_id") (str stamp.audit_id) end))))))))))

unfoldable pub ingress_entry : Stamp → ToolResponse → IngressDecision → Mode → Option Text → Fields
ingress_entry stamp response d mode task_id = entry (lit "ts") (num stamp.ts) (
    entry (lit "kind") (str (lit "ingress")) (
      entry (lit "response_schema") (arr (texts (sorted_set (keys response.payload)))) (
        entry (lit "action") (str (ingress_action_value d.action)) (
          entry (lit "findings_count") (num (length d.findings)) (
            entry (lit "findings") (summaries d.findings) (
              entry (lit "mode") (str (mode_value mode)) (
                entry (lit "task_id") (optional_text task_id)
                  (entry (lit "audit_id") (str stamp.audit_id) end))))))))

unfoldable pub text_entry : Stamp → ℕ → TextDecision → Mode → Option Text → Fields
text_entry stamp text_length d mode task_id = entry (lit "ts") (num stamp.ts) (
    entry (lit "kind") (str (lit "text")) (
      entry (lit "source") (str d.source) (
        entry (lit "text_length") (num text_length) (
          entry (lit "action") (str (text_action_value d.action)) (
            entry (lit "findings_count") (num (length d.findings)) (
              entry (lit "findings") (summaries d.findings) (
                entry (lit "mode") (str (mode_value mode)) (
                  entry (lit "task_id") (optional_text task_id)
                    (entry (lit "audit_id") (str stamp.audit_id) end)))))))))

-- `_append(entry)`; `writable` says whether the file takes the line.
unfoldable pub append : Bool → Fields → Log → Reply Log
append true e log = returned (log ++ e ∷ [])
append false e log = raised (lit "OSError")

-- The `oversight` of a bypass: its label, where it has one, and its `str`.
pub record OversightArgument : Type 0 where
  pub label : Option Text
  pub shown : Text

unfoldable pub oversight_text : Option OversightArgument → Text
oversight_text none = []
oversight_text (some o) = elim o.label [
  | none ↦ o.shown
  | some l ↦ if is_blank l then o.shown else l
]

pub record Bypass : Type 0 where
  pub would_have : Text
  pub oversight : Option OversightArgument
  pub final_action : Text
  pub source : Text
  pub reason : Text
  pub task_id : Option Text

unfoldable pub bypass_entry : Stamp → Bypass → TextDecision → Fields
bypass_entry stamp b d = entry (lit "ts") (num stamp.ts) (
    entry (lit "kind") (str (lit "lock_bypass")) (
      entry (lit "source") (str b.source) (
        entry (lit "would_have") (str b.would_have) (
          entry (lit "oversight") (str (oversight_text b.oversight)) (
            entry (lit "final_action") (str b.final_action) (
              entry (lit "findings_count") (num (length d.findings)) (
                entry (lit "findings") (summaries d.findings) (
                  entry (lit "reason") (str b.reason) (
                    entry (lit "task_id") (optional_text b.task_id)
                      (entry (lit "audit_id") (str stamp.audit_id) end))))))))))

-- `write_bypass(...)`
unfoldable pub write_bypass : Bool → Stamp → Bypass → TextDecision → Log → Reply Log
unfolding append
write_bypass writable stamp b d log =
    if not (b.would_have == lit "refuse" || b.would_have == lit "minimise")
    then raised (lit "ValueError")
    else append writable (bypass_entry stamp b d) log

-- `if audit is not None: audit.write_...`
unfoldable pub write : Bool → Fields → Option Log → Reply (Option Log)
unfolding append
write writable e none = returned none
write writable e (some log) = elim (append writable e log) [
  | returned after ↦ returned (some after)
  | raised name ↦ raised name
]

unfoldable pub after_write : {A : Type 0} → A → Reply (Option Log) → Reply (A × Option Log)
after_write d (returned log) = returned (d, log)
after_write d (raised name) = raised name

unfoldable pub task_of : Option CapabilityToken → Option Text
task_of none = none
task_of (some token) = some token.task_id

module _ (u : Unicode) (host : HostState) (writable : Bool) (stamp : Stamp) where
  -- `egress(call, task_scope, mode=mode, audit=audit)`
  unfoldable pub audited_egress :
      TokenEnv → ToolCall → List Text → Mode → Option Log → Reply (EgressDecision × Option Log)
  unfolding write after_write
  audited_egress env call scope mode log =
      let d = egress u host env call scope mode in
      after_write d
        (write writable (egress_entry stamp call d mode (task_of call.capability_token)) log)

  -- `ingress(response, task_scope, mode=mode, audit=audit, task_id=task_id)`
  unfoldable pub audited_ingress :
      ToolResponse
      → List Text
      → Mode
      → Option Text
      → Option Log
      → Reply (IngressDecision × Option Log)
  unfolding write after_write
  audited_ingress response scope mode task_id log =
      let d = ingress u host response scope mode in
      after_write d (write writable (ingress_entry stamp response d mode task_id) log)

  -- `lock_text(text, ..., audit=audit, task_id=task_id)`
  unfoldable pub audited_lock_text :
      ModerationEnv
      → Text
      → Text
      → Mode
      → Text
      → Option Fields
      → Option Text
      → Option Log
      → Reply (TextDecision × Option Log)
  unfolding write after_write
  audited_lock_text env text context mode source rules task_id log =
      let d = (lock_text u host env text context mode source rules).0 in
      after_write d (write writable (text_entry stamp (length text) d mode task_id) log)
