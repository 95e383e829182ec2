-- ===== src/ScannedResponse.antt =====
-- scanned_response.py: the wrapper of data that has been through the lock. `dict(self.value)` copies
-- the outer dict only: its `lock` block is the block of the value, which `setdefault` fills in both.
-- A rendering gives the payload and the value as it is left.
pub mod Laws
use loomground_lock.Prelude.{ℕ, Option, none, some, is_some, if◌then◌else◌}
use loomground_lock.Text.{Text, lit}
use loomground_lock.Value.{
  Value, Fields, str, num, obj, arr, null, bool, end, entry, lookup, assign,
}

pub record LockAudit : Type 0 where
  pub tier : Text
  pub total_findings : ℕ
  pub refused : ℕ
  pub minimised : ℕ
  pub notes : Text

pub record ScannedResponse : Type 0 where
  pub value : Value
  pub audit : LockAudit

-- `LockAudit()`
unfoldable pub default_audit : LockAudit
default_audit = record {
  tier = lit "A";
  total_findings = 0;
  refused = 0;
  minimised = 0;
  notes = lit "";
}

-- `d.setdefault(k, v)`
unfoldable pub set_default : Text → Value → Fields → Fields
set_default k v d = if is_some (lookup k d) then d else assign k v d

-- The two calls on the existing block.
unfoldable pub fill_block : LockAudit → Fields → Fields
unfolding set_default
fill_block a d =
    set_default (lit "egress_total_findings") (num a.total_findings)
      (set_default (lit "egress_tier") (str a.tier) d)

unfoldable pub audit_block : LockAudit → Fields
audit_block a = entry (lit "tier") (str a.tier) (
    entry (lit "total_findings") (num a.total_findings) (
      entry (lit "refused") (num a.refused)
        (entry (lit "minimised") (num a.minimised) (entry (lit "notes") (str a.notes) end))))

-- The existing `lock` block of a dict, where it is a dict itself.
unfoldable pub lock_block : Fields → Option Fields
lock_block d = elim (lookup (lit "lock") d) [ some (obj b) ↦ some b | _ ↦ none ]

-- The payload of a dict, and the dict as it is left.
unfoldable pub render_dict : LockAudit → Fields → Fields × Fields
unfolding fill_block audit_block lock_block
render_dict a d = elim (lock_block d) [
  | some b ↦ let filled = assign (lit "lock") (obj (fill_block a b)) d in (filled, filled)
  | none ↦ (assign (lit "_lock_egress") (obj (audit_block a)) d, d)
]

-- `{"value": self.value}` with the audit record
unfoldable pub wrapped : LockAudit → Value → Fields
unfolding audit_block
wrapped a v = entry (lit "value") v (entry (lit "_lock_egress") (obj (audit_block a)) end)

-- `to_payload()`
unfoldable pub to_payload : ScannedResponse → Fields × Value
unfolding render_dict wrapped
to_payload r = elim r.value [
  | obj d ↦ let (payload, after) = render_dict r.audit d in (payload, obj after)
  | v ↦ (wrapped r.audit v, v)
]

-- What reaches an egress boundary.
pub data Crossing : Type 0 where
  cleartext : Value → Crossing
  scanned : ScannedResponse → Crossing
  other : Value → Crossing

-- `assert_scanned(obj)`: whether it raises a CleartextEgressError
unfoldable pub assert_scanned : Crossing → Option Text
assert_scanned (cleartext v) = some (lit "CleartextEgressError")
assert_scanned (scanned r) = none
assert_scanned (other v) = some (lit "CleartextEgressError")

-- `scan_payload(value, audit)`
unfoldable pub scan_payload : Value → Option LockAudit → ScannedResponse
unfolding default_audit
scan_payload v none = record { value = v; audit = default_audit }
scan_payload v (some a) = record { value = v; audit = a }
