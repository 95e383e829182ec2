-- ===== src/Tests/Rendered.antt =====
-- The rendering of scanned responses at concrete values.
use loomground_lock.Prelude.{◌≡◌, refl, some}
use loomground_lock.Text.{lit, ◌==◌}
use loomground_lock.Value.{Fields, end, entry, str, obj, lookup}
use loomground_lock.ScannedResponse.{LockAudit, to_payload, scan_payload, lock_block}
use loomground_lock.ScannedResponse.Laws.{second_audit_is_lost}

abbrev clean_audit : LockAudit
clean_audit = record {
  tier = lit "A";
  total_findings = 0;
  refused = 0;
  minimised = 0;
  notes = lit "";
}

abbrev strict_audit : LockAudit
strict_audit = record {
  tier = lit "C";
  total_findings = 3;
  refused = 1;
  minimised = 0;
  notes = lit "";
}

-- { name: "x", lock: { mode: "strict" } }
abbrev answer : Fields
answer =
    entry (lit "name") (str (lit "x"))
      (entry (lit "lock") (obj (entry (lit "mode") (str (lit "strict")) end)) end)

second_audit_is_lost_example :
    let (payload, after) = to_payload (scan_payload (obj answer) (some clean_audit)) in
    (to_payload (scan_payload after (some strict_audit))).0 ≡ payload
unfolding lit ◌==◌ lock_block lookup
second_audit_is_lost_example =
    second_audit_is_lost clean_audit strict_audit answer
      (entry (lit "mode") (str (lit "strict")) end) refl
