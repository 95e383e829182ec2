-- ===== src/ScannedResponse/Laws.antt =====
-- scanned_response.py: what a rendering keeps of a value, and what it leaves in it.
use loomground_lock.Prelude.{
  ◌≡◌, ap, ◌∙◌, true, false, some, is_some, arith, Bool-cases, Option-cases, inl, inr,
  if◌then◌else◌,
}
use loomground_lock.Text.{Text, lit, ◌==◌}
use loomground_lock.Text.Equality.{==_iff, ==_refl}
use loomground_lock.Value.{Value, Fields, str, num, obj, end, entry, lookup, assign}
use loomground_lock.Value.Laws.{lookup-assign}
use loomground_lock.ScannedResponse.{
  LockAudit, set_default, fill_block, audit_block, lock_block, render_dict, to_payload,
  scan_payload,
}

lookup-render_dict :
    (a : LockAudit) (d : Fields) (k : Text)
    → (k == lit "lock") ≡ false
    → (k == lit "_lock_egress") ≡ false
    → lookup k (render_dict a d).0 ≡ lookup k d
unfolding render_dict
lookup-render_dict a d k not_lock not_egress = elim (Option-cases (lock_block d)) [
  | inl missing ↦
      rw (render_dict, missing)
        (lookup-assign k (lit "_lock_egress") (obj (audit_block a)) d ∙ rw not_egress)
  | inr (b, there) ↦
      rw (render_dict, there) (lookup-assign k (lit "lock") (obj (fill_block a b)) d ∙ rw not_lock)
]

-- The payload of a dict has all its entries but the two that the lock writes.
pub payload_keeps :
    (a : LockAudit) (d : Fields) (k : Text)
    → (k == lit "lock") ≡ false
    → (k == lit "_lock_egress") ≡ false
    → lookup k (to_payload (scan_payload (obj d) (some a))).0 ≡ lookup k d
unfolding to_payload scan_payload
payload_keeps a d k not_lock not_egress = lookup-render_dict a d k not_lock not_egress

set_default-there :
    (k : Text) (v : Value) (d : Fields) → is_some (lookup k d) ≡ true → set_default k v d ≡ d
unfolding set_default
set_default-there k v d h = rw h

set_default-lookup :
    (j k : Text) (v : Value) (d : Fields)
    → is_some (lookup j (set_default k v d)) ≡ (if j == k then true else is_some (lookup j d))
unfolding set_default
set_default-lookup j k v d = ground (arith, ==_iff j k, lookup-assign j k v d)

filled_keys :
    (a : LockAudit) (d : Fields)
    → (is_some (lookup (lit "egress_tier") (fill_block a d)) ≡ true)
      × (is_some (lookup (lit "egress_total_findings") (fill_block a d)) ≡ true)
unfolding fill_block
filled_keys a d =
    let tier = set_default (lit "egress_tier") (str a.tier) d in
    let later =
      set_default-lookup (lit "egress_tier") (lit "egress_total_findings") (num a.total_findings)
        tier in
    let first = set_default-lookup (lit "egress_tier") (lit "egress_tier") (str a.tier) d in
    let last =
      set_default-lookup (lit "egress_total_findings") (lit "egress_total_findings")
        (num a.total_findings) tier in
    (
      ground (arith, ==_refl (lit "egress_tier")),
      ground (arith, ==_refl (lit "egress_total_findings")),
    )

-- A block that has been filled stays as it is, whatever is to be filled in.
fill_block_twice : (a b : LockAudit) (d : Fields) → fill_block b (fill_block a d) ≡ fill_block a d
unfolding fill_block
fill_block_twice a b d =
    let (t, n) = filled_keys a d in
    ap (set_default (lit "egress_total_findings") (num b.total_findings))
      (set_default-there (lit "egress_tier") (str b.tier) (fill_block a d) t)
    ∙ set_default-there (lit "egress_total_findings") (num b.total_findings) (fill_block a d) n

assign_twice : (k : Text) (v : Value) (d : Fields) → assign k v (assign k v d) ≡ assign k v d
unfolding assign
assign_twice k v end = rw (==_refl k)
assign_twice k v (entry j w d) = elim (Bool-cases (k == j)) [
  | inl same ↦ rw (same, assign, same)
  | inr differs ↦ rw (differs, assign, differs, assign_twice k v d)
]

lookup-assign_same : (k : Text) (v : Value) (d : Fields) → lookup k (assign k v d) ≡ some v
lookup-assign_same k v d = lookup-assign k k v d ∙ rw (==_refl k)

lock_block-assign : (block d : Fields) → lock_block (assign (lit "lock") (obj block) d) ≡ some block
unfolding lock_block
lock_block-assign block d = rw (lock_block, lookup-assign_same (lit "lock") (obj block) d)

render_dict-filled :
    (a : LockAudit) (d block : Fields)
    → lock_block d ≡ some block
    → let filled = assign (lit "lock") (obj (fill_block a block)) d in
      render_dict a d ≡ (filled, filled)
unfolding render_dict
render_dict-filled a d block h = rw (render_dict, h)

-- The second of two renderings of a dict with a `lock` block gives the payload of the first: the
-- audit of the second is lost, since the first is left in the value.
pub second_audit_is_lost :
    (a b : LockAudit) (d block : Fields)
    → lock_block d ≡ some block
    → let (payload, after) = to_payload (scan_payload (obj d) (some a)) in
      (to_payload (scan_payload after (some b))).0 ≡ payload
unfolding to_payload scan_payload
second_audit_is_lost a b d block h =
    let filled = assign (lit "lock") (obj (fill_block a block)) d in
    let again =
      render_dict-filled b filled (fill_block a block) (lock_block-assign (fill_block a block) d) in
    rw (render_dict-filled a d block h) (
      ap (λ (r : Fields × Fields). r.0) again
      ∙ ap (λ x. assign (lit "lock") (obj x) filled) (fill_block_twice a b block)
      ∙ assign_twice (lit "lock") (obj (fill_block a block)) d)
