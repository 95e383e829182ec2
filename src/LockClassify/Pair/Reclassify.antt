-- ===== src/LockClassify/Pair/Reclassify.antt =====
-- lock_classify.py: `reclassify_all_pairs`, over the pairs of the memory port: what it writes back
-- before it ends or raises. The pairs, the clock and the lock are arguments.
pub mod Laws
use loomground_lock.Prelude.{
  ℕ, zero, suc, Bool, true, false, Option, none, some, List, [], ◌∷◌, if◌then◌else◌,
}
use loomground_lock.Text.{Text, lit, ◌==◌, has_prefix}
use loomground_lock.Value.{Value, Fields, str, num, bool, null, arr, obj, lookup}
use loomground_lock.TierM.{get}
use loomground_lock.HostDeps.{HostState, Reply, returned, raised}
use loomground_lock.Core.Data.{TextDecision}
use loomground_lock.LockClassify.Pair.{lock_classify_pair}
use loomground_lock.LockClassify.Triples.{block, is_text}

-- `s.replace("sha256:", "")`, past the characters that are being dropped
unfoldable pub cut_prefixes : ℕ → Text → Text
unfolding has_prefix
cut_prefixes n [] = []
cut_prefixes (suc n) (c ∷ s) = cut_prefixes n s
cut_prefixes zero (c ∷ s) =
    let skipped = cut_prefixes 6 s in
    let kept = c ∷ cut_prefixes zero s in
    if has_prefix (lit "sha256:") (c ∷ s) then skipped else kept

-- `p.get("id", "").replace(...)`
unfoldable pub source_hash : Fields → Reply Text
unfolding cut_prefixes
source_hash p = elim (lookup (lit "id") p) [
  | none ↦ returned []
  | some (str s) ↦ returned (cut_prefixes zero s)
  | some _ ↦ raised (lit "AttributeError")
]

-- `(p.get("lock") or {}).get("disclaimer_version") == LOCK_DISCLAIMER_VERSION`
unfoldable pub is_current : Fields → Reply Bool
unfolding block is_text get
is_current p = elim (block (lit "lock") p) [
  | raised name ↦ raised name
  | returned existing ↦ returned (is_text (lit "v1") (get (lit "disclaimer_version") existing))
]

-- A pair that is written back, and its source_hash.
abbrev pub Written : Type 0
Written = List (Fields × Text)

pub record Counts : Type 0 where
  pub updated : ℕ
  pub skipped : ℕ

-- One write before the rest of the loop, and one pair that is left.
unfoldable pub then_write : Fields × Text → Written × Reply Counts → Written × Reply Counts
then_write w (ws, returned c) = (w ∷ ws, returned (record c { updated = suc c.updated }))
then_write w (ws, raised name) = (w ∷ ws, raised name)

unfoldable pub then_skip : Written × Reply Counts → Written × Reply Counts
then_skip (ws, returned c) = (ws, returned (record c { skipped = suc c.skipped }))
then_skip (ws, raised name) = (ws, raised name)

-- What is done with a pair that is not current, once it is classified.
unfoldable pub write_back :
    Reply Fields → Reply Text → Written × Reply Counts → Written × Reply Counts
unfolding then_write
write_back (raised name) hash rest = ([], raised name)
write_back (returned q) (raised name) rest = ([], raised name)
write_back (returned q) (returned h) rest = then_write (q, h) rest

unfoldable pub go_on :
    Reply Bool → Reply Fields → Reply Text → Written × Reply Counts → Written × Reply Counts
unfolding then_skip write_back
go_on (raised name) q hash rest = ([], raised name)
go_on (returned true) q hash rest = then_skip rest
go_on (returned false) q hash rest = write_back q hash rest

unfoldable pub reclassify_all_pairs :
    (Text → Reply TextDecision) → HostState → Text → Text → List Fields → Written × Reply Counts
unfolding go_on is_current lock_classify_pair source_hash
reclassify_all_pairs lock host folder now [] = ([], returned (record { updated = 0; skipped = 0 }))
reclassify_all_pairs lock host folder now (p ∷ ps) =
    go_on (is_current p) (lock_classify_pair lock host folder now p) (source_hash p)
      (reclassify_all_pairs lock host folder now ps)
