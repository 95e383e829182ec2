-- ===== src/Tests/Classify.antt =====
-- The classifier at concrete pairs.
use loomground_lock.Prelude.{
  ◌≡◌, ◌⊎◌, inl, refl, true, false, none, List, is_empty, length, [], ◌∷◌,
}
use loomground_lock.Text.{Text, lit, ◌==◌, splitlines, strip, lstrip, rstrip}
use loomground_lock.Text.Unicode.{ascii}
use loomground_lock.Value.{Fields, str, obj, end, entry, lookup}
use loomground_lock.TierM.{truthy, get}
use loomground_lock.HostDeps.{Reply, returned, unwired, ensure_wired}
use loomground_lock.Core.Data.{TextDecision, has_high}
use loomground_lock.Core.Redact.{redact_text_with_regex}
use loomground_lock.Core.TextLock.{
  lock_findings, text_allow, lock_text, decide_text, detect_confusable_bypass, moderation,
}
use loomground_lock.Core.TierB.{tier_b_scan_text, scan_patterns}
use loomground_lock.Core.Patterns.{tier_b_patterns}
use loomground_lock.Core.Fold.{ascii_fold}
use loomground_lock.Core.TierC.{
  tier_c, tier_c_context_terms_check, tier_c_floor, run_semantic, any_term_in, context_terms,
  terms_of_lines, tier_c_required,
}
use loomground_lock.TierCDefault.{
  tier_c_default_check, classify as classify_text, first_kind, kinds, health, financial, name_pair,
}
use loomground_lock.Tests.Lock.{moderation_off}
use loomground_lock.LockClassify.Scrub.{
  triple_lock, clean_triples, add_triple, add_scrubbed, lock_string, scrub_of, scrub_as,
}
use loomground_lock.LockClassify.Scrub.Laws.{HasTriple, clean_triples_locked}
use loomground_lock.LockClassify.Pair.{lock_classify_pair, classify, with_blocks}
use loomground_lock.LockClassify.Triples.{
  block, is_text, facets_of, raw_triples, list_triples, list_keys,
}
use loomground_lock.LockClassify.Pair.Reclassify.{
  Written, Counts, is_current, source_hash, go_on, write_back, then_write, then_skip,
  reclassify_all_pairs,
}
use loomground_lock.LockClassify.Pair.Reclassify.Laws.{memory_after, reclassify_all_pairs-settles}

-- A pair that is current already.
abbrev old_pair : Fields
old_pair = entry (lit "lock") (obj (entry (lit "disclaimer_version") (str (lit "v1")) end)) end

abbrev allowing : Text → Reply TextDecision
allowing text = returned (text_allow [] [] [])

quiet : lock_findings ascii unwired moderation_off (lit "x") [] none ≡ []
unfolding lit lock_findings tier_b_scan_text tier_b_patterns scan_patterns detect_confusable_bypass
    ascii_fold tier_c tier_c_context_terms_check tier_c_floor run_semantic moderation
    tier_c_default_check ensure_wired context_terms terms_of_lines splitlines strip lstrip rstrip
    tier_c_required ◌==◌ any_term_in classify_text first_kind kinds health financial name_pair
quiet = refl

x_stays :
    HasTriple
      (lit "kind")
      (str (lit "x"))
      (clean_triples
        (triple_lock ascii unwired moderation_off [])
        ((lit "kind", str (lit "x")) ∷ [])).triples
unfolding HasTriple clean_triples add_triple add_scrubbed lock_string scrub_of scrub_as triple_lock
    lock_text decide_text text_allow lit
x_stays = rw quiet (inl (refl, refl))

clean_triples_locked_example :
    (s : Text) × HasTriple (lit "kind") (str s) ((lit "kind", str (lit "x")) ∷ [])
    × ((lit "x" ≡ [])
        ⊎ ((is_empty (lock_findings ascii unwired moderation_off s [] none) ≡ true) × (lit "x" ≡ s))
        ⊎ ((has_high (lock_findings ascii unwired moderation_off s [] none) ≡ false)
            × (lit "x" ≡ redact_text_with_regex ascii s)))
clean_triples_locked_example =
    clean_triples_locked ascii unwired moderation_off [] (lit "kind") (lit "x")
      ((lit "kind", str (lit "x")) ∷ []) x_stays

abbrev pairs : List Fields
pairs = old_pair ∷ entry (lit "id") (str (lit "sha256:p")) end ∷ []

abbrev run : Written × Reply Counts
run = reclassify_all_pairs allowing unwired (lit "f") (lit "now") pairs

reclassify_all_pairs-settles_example :
    (1 ≡ length run.0)
    × (2 ≡ length pairs)
    × (reclassify_all_pairs allowing unwired (lit "f") (lit "now") (memory_after pairs run.0)
        ≡ ([], returned (record { updated = 0; skipped = length (memory_after pairs run.0) })))
unfolding reclassify_all_pairs go_on write_back then_write then_skip is_current source_hash block
    is_text lock_classify_pair classify with_blocks facets_of raw_triples list_triples list_keys get
    truthy lookup lit ◌==◌
reclassify_all_pairs-settles_example =
    reclassify_all_pairs-settles allowing unwired (lit "f") (lit "now") pairs run.0
      (record { updated = 1; skipped = 1 }) refl
