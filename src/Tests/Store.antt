-- ===== src/Tests/Store.antt =====
-- The store of decisions at concrete operations.
use loomground_lock.Prelude.{
  if◌then◌else◌, ◌≡◌, ◌↔◌, refl, true, false, none, some, List, [], ◌∷◌, ◌++◌, any, is_some,
}
use loomground_lock.Text.{Text, lit, ◌==◌, strip, lstrip, rstrip}
use loomground_lock.Text.Unicode.{ascii}
use loomground_lock.Core.Redact.Capture.{
  redact_for_capture, capture_jwt, capture_bearer, capture_secret_assign,
}
use loomground_lock.Value.{num, obj, lookup}
use loomground_lock.DecisionFile.{
  StoredDecision, Line, Json, json, blank_line, not_json, to_jsonl, from_dict,
}
use loomground_lock.DecisionFile.Laws.{breaks_line, breaks_value, breaks_fields, ReadsBack}
use loomground_lock.Decisions.{
  is_decision, is_scope, join_space, split_words, Store, open_store, candidates, hash_text, recall,
  recall_from, always_tier, session_tier, live, tier_verdict, remember, load, load_lines, index_add,
  new_decision, safe_preview,
}
use loomground_lock.DecisionErasure.{accessible}
use loomground_lock.Decisions.Tiers.{blocks_always, clears}
use loomground_lock.Decisions.Recall.{
  Op, IsAccepted, remembers, erases, erases_subject, apply_all, block_stands, recall_allow_sound,
  remember_refusals,
}
use loomground_lock.Decisions.Lines.{decision_line, skipped_blank, skipped_text, no_line}
use loomground_lock.Decisions.Unreadable.{remember_closes_store}
use loomground_lock.Decisions.Persist.{IsPersisted, apply_all-IsPersisted}

-- A digest that is the text itself.
abbrev digest : Text → Text
digest t = t

abbrev cleared : StoredDecision
cleared = record {
  ts = 50;
  pattern_hash = lit "sha256:ship it";
  pattern_preview = lit "ship it";
  decision = lit "allow";
  scope = lit "always";
  reason = [];
  session_id = [];
  actor = lit "ann";
}

-- JSON whose broken lines are no JSON.
abbrev plain : Json
plain = record {
  lines_written = λ o. if breaks_fields o then not_json [] ∷ [] else json (obj o) ∷ [];
  str_of = λ v. [];
  float_of = λ v. none;
}

plain-ReadsBack : ReadsBack plain
plain-ReadsBack o h = rw h refl

-- The lines of a file: of a decision, blank, and of a text that is no JSON.
abbrev three_lines : List Line
three_lines = json (obj (to_jsonl cleared)) ∷ blank_line ∷ not_json (lit "{") ∷ []

-- The store on this file, with a TTL of 100.
abbrev store : Store
store = record {
  session_id = lit "s1";
  ttl_seconds = 100;
  by_hash = (lit "sha256:ship it", cleared ∷ []) ∷ [];
  file = some three_lines;
}

store_opens : open_store plain true (some three_lines) (lit "s1") 100 ≡ some store
unfolding open_store load load_lines index_add to_jsonl from_dict lookup lit ◌==◌
store_opens = refl

-- A piece of a line that is JSON but no object.
number_breaks_load : load plain true (some (json (num 1) ∷ [])) ≡ none
unfolding load load_lines from_dict
number_breaks_load = refl

abbrev later_operations : List Op
later_operations =
    remembers (lit "ship it") (lit "allow") (lit "always") [] (lit "bob") 90 true
    ∷ erases none accessible
    ∷ erases_subject (lit "ship") accessible
    ∷ []

block_stands_example :
    recall ascii digest
      (apply_all ascii digest plain later_operations
        (remember ascii digest plain store
          (lit "ship it")
          (lit "block")
          (lit "always")
          []
          (lit "ann")
          80
          true).0)
      (lit " Ship it ")
      1000
    ≡ some (lit "block")
unfolding lit strip lstrip rstrip hash_text
block_stands_example =
    block_stands ascii digest plain store (lit "ship it") [] (lit "ann") 80 later_operations
      (lit " Ship it ") 1000 refl refl

recall_allow_sound_example :
    let ds = candidates (hash_text ascii digest (lit "Ship it")) store.by_hash in
    (any (clears store.ttl_seconds 120 store.session_id) ds ≡ true) × (any blocks_always ds ≡ false)
unfolding lit strip lstrip rstrip hash_text recall recall_from always_tier session_tier live
    tier_verdict candidates open_store load load_lines index_add ◌==◌
recall_allow_sound_example = recall_allow_sound ascii digest store (lit "Ship it") 120 refl

remember_refusals_example :
    let (s', e) =
      remember ascii digest plain store
        (lit "ship it")
        (lit "allow")
        (lit "always")
        []
        (lit "  ")
        80
        true in
    ((e ≡ none) ↔ IsAccepted (lit "allow") (lit "always") (lit "  ") true)
    × (is_some e ≡ true → s' ≡ store)
remember_refusals_example =
    remember_refusals ascii digest plain store (lit "ship it") (lit "allow") (lit "always") []
      (lit "  ") 80 true

store-IsPersisted : IsPersisted store
unfolding to_jsonl breaks_fields breaks_value breaks_line index_add lit
store-IsPersisted = record {
  decisions = cleared ∷ [];
  held = decision_line refl (skipped_blank (skipped_text no_line));
  indexed = refl;
}

apply_all-IsPersisted_example :
    let after = apply_all ascii digest plain later_operations store in
    load plain true after.file ≡ some after.by_hash
unfolding new_decision hash_text lit strip lstrip rstrip safe_preview join_space split_words
    redact_for_capture ◌==◌ capture_jwt capture_bearer capture_secret_assign to_jsonl breaks_fields
    breaks_value breaks_line
apply_all-IsPersisted_example =
    apply_all-IsPersisted plain plain-ReadsBack ascii digest later_operations store refl
      store-IsPersisted

-- JSON of which a broken line is three: two that are no JSON, and a number between them.
abbrev in_three : Json
in_three = record plain {
  lines_written = λ o.
      if breaks_fields o
      then not_json (lit "{") ∷ json (num 1) ∷ not_json (lit "}") ∷ []
      else json (obj o) ∷ [];
}

-- x, 1 and y behind separators of lines.
abbrev broken_reason : Text
broken_reason = lit "x" ++ (0x2028 ∷ (lit "1" ++ (0x2028 ∷ lit "y")))

remember_closes_store_example :
    open_store in_three true
      (remember ascii digest in_three store
        (lit "ship it")
        (lit "block")
        (lit "always")
        broken_reason
        (lit "ann")
        80
        true).0.file
      (lit "s2")
      100
    ≡ none
unfolding new_decision hash_text lit strip lstrip rstrip safe_preview join_space split_words
    redact_for_capture ◌==◌ capture_jwt capture_bearer capture_secret_assign to_jsonl breaks_fields
    breaks_value breaks_line remember is_decision is_scope
remember_closes_store_example =
    remember_closes_store in_three ascii digest store (lit "ship it") (lit "block") (lit "always")
      broken_reason (lit "ann") 80 true (not_json (lit "{") ∷ []) (not_json (lit "}") ∷ []) (num 1)
      (lit "s2") 100 refl refl refl
