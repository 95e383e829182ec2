-- ===== src/LockClassify/Pair/Reclassify/Laws.antt =====
-- lock_classify.py: the pairs that are written back, and running the loop again.
use loomground_lock.Prelude.{
  ◌≡◌, refl, ap, sym, ◌∙◌, ◌+◌, ℕ, suc, Bool, true, false, Option, some, List, [], ◌∷◌, length,
  arith, if◌then◌else◌,
}
use loomground_lock.Text.{Text, lit, ◌==◌}
use loomground_lock.Text.Equality.{==_refl}
use loomground_lock.Value.{Value, Fields, obj, lookup, assign}
use loomground_lock.Value.Laws.{lookup-assign}
use loomground_lock.TierM.{get}
use loomground_lock.HostDeps.{HostState, Reply, returned, raised}
use loomground_lock.Core.Data.{TextDecision}
use loomground_lock.LockClassify.Scrub.{Scrub, Cleaned}
use loomground_lock.LockClassify.Pair.{
  Classified, classify, with_blocks, lock_block, lock_classify_pair,
}
use loomground_lock.LockClassify.Triples.{block, is_text}
use loomground_lock.LockClassify.Pair.Reclassify.{
  is_current, source_hash, Written, Counts, then_write, then_skip, write_back, go_on,
  reclassify_all_pairs,
}

returned_inj : {A : Type 0} {a b : A} → returned a ≡ returned b → a ≡ b
returned_inj h = cc

lock_not_clean :
    (v : Value) (o : Option Value) → (if lit "lock" == lit "clean" then some v else o) ≡ o
unfolding lit ◌==◌
lock_not_clean v o = refl

is_current-lock :
    (q : Fields) (now : Text) (s : Scrub) (n : ℕ) (c : Cleaned) (b : Value × ℕ)
    → lookup (lit "lock") q ≡ some (obj (lock_block now s n c b))
    → is_current q ≡ returned true
unfolding is_current block get is_text lock_block lookup lit ◌==◌
is_current-lock q now s n c b h = rw (is_current, block, get, h) refl

with_blocks-keeps :
    (now : Text) (pair q : Fields) (k : Text) (c : Reply Classified)
    → with_blocks now pair c ≡ returned q
    → (k == lit "lock") ≡ false
    → (k == lit "clean") ≡ false
    → lookup k q ≡ lookup k pair
unfolding with_blocks
with_blocks-keeps now pair q k (raised name) h a b = cc
with_blocks-keeps now pair q k (returned c) h a b =
    let locked =
      assign (lit "lock") (obj (lock_block now c.summary c.facets_dropped c.cleaned c.body)) pair in
    ap (lookup k) (sym (returned_inj h))
    ∙ lookup-assign k (lit "clean") (obj c.clean) locked
    ∙ rw b (
        lookup-assign k (lit "lock")
          (obj (lock_block now c.summary c.facets_dropped c.cleaned c.body)) pair
        ∙ rw a refl)

-- The version that a classified pair carries.
with_blocks-is_current :
    (now : Text) (pair q : Fields) (c : Reply Classified)
    → with_blocks now pair c ≡ returned q
    → is_current q ≡ returned true
unfolding with_blocks
with_blocks-is_current now pair q (raised name) h = cc
with_blocks-is_current now pair q (returned c) h =
    let fields = lock_block now c.summary c.facets_dropped c.cleaned c.body in
    let locked = assign (lit "lock") (obj fields) pair in
    ap is_current (sym (returned_inj h))
    ∙ is_current-lock _ now c.summary c.facets_dropped c.cleaned c.body (
        lookup-assign (lit "lock") (lit "clean") (obj c.clean) locked
        ∙ lock_not_clean (obj c.clean) (lookup (lit "lock") locked)
        ∙ lookup-assign (lit "lock") (lit "lock") (obj fields) pair
        ∙ rw (==_refl (lit "lock")) refl)

-- The pairs of the memory once the writes of a run have taken the places of the old pairs.
unfoldable pub next_pair : Reply Bool → Fields → Written → Fields × Written
next_pair (returned true) p ws = (p, ws)
next_pair (returned false) p [] = (p, [])
next_pair (returned false) p ((q, hash) ∷ ws) = (q, ws)
next_pair (raised name) p ws = (p, ws)

unfoldable pub memory_after : List Fields → Written → List Fields
unfolding next_pair
memory_after [] ws = []
memory_after (p ∷ ps) ws =
    (next_pair (is_current p) p ws).0 ∷ memory_after ps ((next_pair (is_current p) p ws).1)

unfoldable pub AllCurrent : List Fields → Type 0
AllCurrent [] = Unit
AllCurrent (p ∷ ps) = (is_current p ≡ returned true) × AllCurrent ps

-- A run that ends has counted every pair, and has renewed the memory.
unfoldable pub Settles : ℕ → (Written → List Fields) → Written × Reply Counts → Type 0
Settles n after (ws, raised name) = Unit
Settles n after (ws, returned c) =
    AllCurrent (after ws) × (c.updated ≡ length ws) × (c.updated + c.skipped ≡ n)

settled :
    (n : ℕ) (after : Written → List Fields) {run end_run : Written × Reply Counts}
    → run ≡ end_run
    → Settles n after run
    → Settles n after end_run
settled n after e h = rw⁻¹ e h

then_skip-Settles :
    (n : ℕ) (p : Fields) (after : Written → List Fields) (run : Written × Reply Counts)
    → is_current p ≡ returned true
    → Settles n after run
    → Settles (suc n) (λ ws. p ∷ after ws) (then_skip run)
unfolding Settles then_skip AllCurrent
then_skip-Settles n p after (ws, raised name) e h = tt
then_skip-Settles n p after (ws, returned c) e (now, updated, all_of) =
    ((e, now), updated, omega arith)

then_write-Settles :
    (n : ℕ) (p q : Fields) (hash : Text) (ps : List Fields) (run : Written × Reply Counts)
    → is_current q ≡ returned true
    → Settles n (memory_after ps) run
    → Settles
        (suc n)
        (λ ws.
          (next_pair (returned false) p ws).0 ∷ memory_after ps (next_pair (returned false) p ws).1)
        (then_write (q, hash) run)
unfolding Settles then_write AllCurrent next_pair
then_write-Settles n p q hash ps (ws, raised name) e h = tt
then_write-Settles n p q hash ps (ws, returned c) e (now, updated, all_of) =
    ((e, now), omega arith, omega arith)

go_on-Settles :
    (n : ℕ) (p : Fields) (ps : List Fields) (o : Reply Bool) (classified : Reply Fields)
    (hash : Reply Text) (run : Written × Reply Counts)
    → is_current p ≡ o
    → ((q : Fields) → classified ≡ returned q → is_current q ≡ returned true)
    → Settles n (memory_after ps) run
    → Settles
        (suc n)
        (λ ws. (next_pair o p ws).0 ∷ memory_after ps (next_pair o p ws).1)
        (go_on o classified hash run)
unfolding go_on write_back next_pair Settles
go_on-Settles n p ps (raised name) classified hash run e fresh h = tt
go_on-Settles n p ps (returned true) classified hash run e fresh h =
    then_skip-Settles n p (memory_after ps) run e h
go_on-Settles n p ps (returned false) (raised name) hash run e fresh h = tt
go_on-Settles n p ps (returned false) (returned q) (raised name) run e fresh h = tt
go_on-Settles n p ps (returned false) (returned q) (returned hash) run e fresh h =
    then_write-Settles n p q hash ps run (fresh q refl) h

module _ (lock : Text → Reply TextDecision) (host : HostState) (folder now : Text) where
  -- A pair that has been classified keeps its other keys.
  pub lock_classify_pair-keeps :
      (pair q : Fields) (k : Text)
      → lock_classify_pair lock host folder now pair ≡ returned q
      → (k == lit "lock") ≡ false
      → (k == lit "clean") ≡ false
      → lookup k q ≡ lookup k pair
  unfolding lock_classify_pair
  lock_classify_pair-keeps pair q k =
      with_blocks-keeps now pair q k (classify lock host folder pair)

  lock_classify_pair-is_current :
      (pair q : Fields)
      → lock_classify_pair lock host folder now pair ≡ returned q
      → is_current q ≡ returned true
  unfolding lock_classify_pair
  lock_classify_pair-is_current pair q =
      with_blocks-is_current now pair q (classify lock host folder pair)

  reclassify_all_pairs-Settles :
      (pairs : List Fields)
      → Settles
          (length pairs)
          (memory_after pairs)
          (reclassify_all_pairs lock host folder now pairs)
  unfolding reclassify_all_pairs memory_after Settles AllCurrent
  reclassify_all_pairs-Settles [] = (tt, refl, refl)
  reclassify_all_pairs-Settles (p ∷ ps) =
      go_on-Settles (length ps) p ps (is_current p) (lock_classify_pair lock host folder now p)
        (source_hash p) (reclassify_all_pairs lock host folder now ps) refl
        (lock_classify_pair-is_current p) (reclassify_all_pairs-Settles ps)

  -- Pairs that are current are all skipped.
  reclassify_all_pairs-idle :
      (pairs : List Fields)
      → AllCurrent pairs
      → reclassify_all_pairs lock host folder now pairs
        ≡ ([], returned (record { updated = 0; skipped = length pairs }))
  unfolding AllCurrent reclassify_all_pairs go_on then_skip
  reclassify_all_pairs-idle [] h = refl
  reclassify_all_pairs-idle (p ∷ ps) (now_current, later) =
      rw (reclassify_all_pairs, now_current) (ap then_skip (reclassify_all_pairs-idle ps later))

  -- Where a reclassification ends without an exception, it has written as many pairs as it counts
  -- as updated, has counted every pair once, and a second run, over the memory in which the written
  -- pairs have taken the places of the old ones, writes nothing and counts every pair as current.
  pub reclassify_all_pairs-settles :
      (pairs : List Fields) (ws : Written) (c : Counts)
      → reclassify_all_pairs lock host folder now pairs ≡ (ws, returned c)
      → (c.updated ≡ length ws)
        × (c.updated + c.skipped ≡ length pairs)
        × (reclassify_all_pairs lock host folder now (memory_after pairs ws)
            ≡ ([], returned (record { updated = 0; skipped = length (memory_after pairs ws) })))
  unfolding Settles
  reclassify_all_pairs-settles pairs ws c h =
      let (now_current, updated, all_of) =
        settled (length pairs) (memory_after pairs) h (reclassify_all_pairs-Settles pairs) in
      (updated, all_of, reclassify_all_pairs-idle (memory_after pairs ws) now_current)
