-- ===== src/LockClassify/Pair.antt =====
-- lock_classify.py: `lock_classify_pair` and `reclassify_all_pairs`. Iterating the set of safe facet
-- keys has no fixed order; the model takes them as the source lists them.
pub mod Reclassify
use loomground_lock.Prelude.{
  ℕ, zero, suc, ◌+◌, Bool, true, false, not, ◌&&◌, ◌||◌, Option, none, some, List, [], ◌∷◌, ◌++◌,
  map, any, length, if◌then◌else◌,
}
use loomground_lock.Text.{Text, lit, ◌==◌, contains, is_blank}
use loomground_lock.Value.{
  Value, Items, Fields, str, num, bool, null, arr, obj, nil, cons, end, entry, lookup, assign,
}
use loomground_lock.TierM.{truthy, get, iterate, items}
use loomground_lock.HostDeps.{HostState, Reply, returned, raised}
use loomground_lock.Core.Data.{TextDecision, TextAction}
use loomground_lock.Core.Audit.{values}
use loomground_lock.LockClassify.Scrub.{
  Scrub, doc_token_of, Triples, Cleaned, lock_string, lock_value, clean_triples, clean_facets,
}
use loomground_lock.LockClassify.Triples.{
  ◌>>=◌, or_default, block, safe_facet_keys, facet_triple_keys, context_triple_keys, list_keys,
  solution_triple_keys, is_text, facets_of, chosen, triples_at, is_filled, filled_triples,
  truthy_triple, list_triples, authority_triple, source_triple, raw_triples,
}

-- What the summary of a pair is scrubbed from.
unfoldable pub summary_of : HostState → Text → Fields → Value
unfolding or_default get doc_token_of is_text
summary_of host folder problem =
    let summary = or_default (str []) (get (lit "summary") problem) in
    if is_text (lit "document_ingest") (get (lit "type") problem)
    then str (
        lit "document "
        ++ doc_token_of host folder (or_default summary (get (lit "source_document") problem)))
    else summary

unfoldable pub action_name : TextAction → Text
action_name TextAction.allow = lit "allow"
action_name TextAction.minimise = lit "minimise"
action_name TextAction.refuse = lit "refuse"

unfoldable pub scrub_summary : Scrub → Value
unfolding action_name
scrub_summary r = obj (
    entry (lit "action") (str (action_name r.action)) (entry (lit "findings") (num r.findings) end))

-- `[s, p, o]`
unfoldable pub triple_values : Value → Triples → List Value
triple_values pid [] = []
triple_values pid ((p, o) ∷ rest) =
    arr (cons pid (cons (str p) (cons o nil))) ∷ triple_values pid rest

unfoldable pub summary_text : TextAction → Text → Text
summary_text TextAction.refuse text = lit "[LOCK-REFUSED]"
summary_text TextAction.allow text = text
summary_text TextAction.minimise text = text

unfoldable pub clean_fingerprint : Fields → Fields → Scrub → Fields → Fields
unfolding or_default get summary_text
clean_fingerprint problem solution summary facets =
    entry (lit "scope") (or_default (str []) (get (lit "scope") problem)) (
      entry (lit "type") (or_default (str []) (get (lit "type") problem)) (
        entry (lit "summary") (str (summary_text summary.action summary.text)) (
          entry (lit "facets") (obj facets) (
            entry (lit "authority_tier") (get (lit "authority_tier") solution) (
              entry (lit "confidence") (get (lit "confidence") solution)
                (entry (lit "body_format") (get (lit "body_format") solution) end))))))

-- A body that is a text is locked too, for the count only.
unfoldable pub body_scrub : (Text → Reply TextDecision) → Value → Value × ℕ
unfolding scrub_summary lock_string
body_scrub lock (str (c ∷ s)) =
    (scrub_summary (lock_string lock (c ∷ s)), (lock_string lock (c ∷ s)).findings)
body_scrub lock _ =
    (obj (entry (lit "action") (str (lit "n/a")) (entry (lit "findings") (num 0) end)), 0)

unfoldable pub lock_block : Text → Scrub → ℕ → Cleaned → Value × ℕ → Fields
unfolding values scrub_summary
lock_block now summary facets_dropped cleaned (body, body_findings) =
    entry (lit "classified_at") (str now) (
      entry (lit "disclaimer_version") (str (lit "v1")) (
        entry (lit "total_findings") (num (summary.findings + (cleaned.findings + body_findings))) (
          entry (lit "triples_dropped") (num cleaned.dropped) (
            entry (lit "facets_dropped") (num facets_dropped) (
              entry (lit "audit_triples") (arr (values cleaned.audit)) (
                entry (lit "audit_summary") (scrub_summary summary)
                  (entry (lit "audit_body") body end)))))))

-- What the two blocks of a pair are made of.
pub record Classified : Type 0 where
  pub summary : Scrub
  pub facets_dropped : ℕ
  pub cleaned : Cleaned
  pub body : Value × ℕ
  pub clean : Fields

-- A context block that is no dict raises; that the class of the exception may be TypeError is left
-- out.
unfoldable pub classify : (Text → Reply TextDecision) → HostState → Text → Fields → Reply Classified
unfolding block facets_of chosen raw_triples summary_of clean_facets clean_triples lock_value
    body_scrub clean_fingerprint triple_values or_default get values safe_facet_keys
classify lock host folder pair = do
  problem ← block (lit "problem") pair
  solution ← block (lit "solution") pair
  facets ← facets_of (get (lit "facets") problem)
  context ← block (lit "context") problem
  raw ← raw_triples host folder problem solution facets context
  let summary = lock_value lock (summary_of host folder problem)
  let (facets_clean, dropped) = clean_facets lock (chosen safe_facet_keys facets)
  let cleaned = clean_triples lock raw
  let pid = or_default (str (lit "?")) (get (lit "id") pair)
  returned (record {
    summary = summary;
    facets_dropped = dropped;
    cleaned = cleaned;
    body = body_scrub lock (get (lit "body") solution);
    clean =
        entry (lit "fingerprint") (obj (clean_fingerprint problem solution summary facets_clean))
          (entry (lit "triples") (arr (values (triple_values pid cleaned.triples))) end);
  })

-- `new_pair["lock"] = ...` and `new_pair["clean"] = ...` on the copy
unfoldable pub with_blocks : Text → Fields → Reply Classified → Reply Fields
unfolding lock_block
with_blocks now pair (raised name) = raised name
with_blocks now pair (returned c) = returned (
    assign (lit "clean") (obj c.clean)
      (assign (lit "lock") (obj (lock_block now c.summary c.facets_dropped c.cleaned c.body)) pair))

-- `lock_classify_pair(pair, folder_context, context=...)`, of the lock with that context
unfoldable pub lock_classify_pair :
    (Text → Reply TextDecision) → HostState → Text → Text → Fields → Reply Fields
unfolding classify with_blocks
lock_classify_pair lock host folder now pair = with_blocks now pair (classify lock host folder pair)
