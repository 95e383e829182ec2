-- ===== src/Decisions/Lines.antt =====
-- decisions.py: the lines of a file whose objects are decisions, loaded and rewritten.
use loomground_lock.Prelude.{
  ◌≡◌, refl, ap, ◌∙◌, Bool, true, if◌then◌else◌, Option, none, some, List, [], ◌∷◌, ◌++◌, arith,
  map, Bool-cases, inl, inr,
}
use mathlib.Core.List.{map-append}
use loomground_lock.Text.{Text, lit, ◌==◌}
use loomground_lock.Text.Unicode.{Unicode}
use loomground_lock.Value.{Fields, str, obj, assign, lookup}
use loomground_lock.DecisionFile.{StoredDecision, Line, Json, json, blank_line, not_json, to_jsonl}
use loomground_lock.DecisionFile.Laws.{
  ReadsBack, is_one_line, from_dict-to_jsonl, without_preview, assign-to_jsonl,
  without_preview-one_line,
}
use loomground_lock.Decisions.{Index, index_add, load_lines}
use loomground_lock.DecisionErasure.{
  blank_preview, blank_index, blank_lines, preview_view, hash_matches, preview_contains,
}

-- The index of decisions in the order of the file.
abbrev pub index_of : List StoredDecision → Index → Index
index_of [] index = index
index_of (d ∷ ds) index = index_of ds (index_add d.pattern_hash d index)

-- The lines of a file in which every object is a decision, written as one line.
pub data HoldsDecisions : List Line → List StoredDecision → Type 0 where
  no_line : HoldsDecisions [] []
  decision_line :
      {d : StoredDecision} {ls : List Line} {ds : List StoredDecision}
      → is_one_line d ≡ true
      → HoldsDecisions ls ds
      → HoldsDecisions (json (obj (to_jsonl d)) ∷ ls) (d ∷ ds)
  skipped_blank :
      {ls : List Line} {ds : List StoredDecision}
      → HoldsDecisions ls ds
      → HoldsDecisions (blank_line ∷ ls) ds
  skipped_text :
      {raw : Text} {ls : List Line} {ds : List StoredDecision}
      → HoldsDecisions ls ds
      → HoldsDecisions (not_json raw ∷ ls) ds

pub index_of-append :
    (ds : List StoredDecision) (d : StoredDecision) (index : Index)
    → index_of (ds ++ d ∷ []) index ≡ index_add d.pattern_hash d (index_of ds index)
index_of-append [] d index = refl
index_of-append (e ∷ ds) d index = index_of-append ds d (index_add e.pattern_hash e index)

pub HoldsDecisions-append :
    {ls : List Line} {ds : List StoredDecision} (d : StoredDecision)
    → is_one_line d ≡ true
    → HoldsDecisions ls ds
    → HoldsDecisions (ls ++ json (obj (to_jsonl d)) ∷ []) (ds ++ d ∷ [])
HoldsDecisions-append d whole no_line = decision_line whole no_line
HoldsDecisions-append d whole (decision_line one h) =
    decision_line one (HoldsDecisions-append d whole h)
HoldsDecisions-append d whole (skipped_blank h) = skipped_blank (HoldsDecisions-append d whole h)
HoldsDecisions-append d whole (skipped_text h) = skipped_text (HoldsDecisions-append d whole h)

-- The blanking of previews in the index, and before the index is built.
index_add-blank :
    (should : StoredDecision → Bool) (h : Text) (d : StoredDecision) (index : Index)
    → index_add h (blank_preview should d) (blank_index should index)
      ≡ blank_index should (index_add h d index)
unfolding index_add blank_index
index_add-blank should h d [] = refl
index_add-blank should h d ((j, ds) ∷ rest) =
    ground (arith, index_add-blank should h d rest, map-append (blank_preview should) ds (d ∷ []))

blank_preview-hash :
    (should : StoredDecision → Bool) (d : StoredDecision)
    → (blank_preview should d).pattern_hash ≡ d.pattern_hash
unfolding blank_preview
blank_preview-hash should d = ground arith

index_add-blanked :
    (should : StoredDecision → Bool) (d : StoredDecision) (index : Index)
    → let e = blank_preview should d in
      index_add e.pattern_hash e (blank_index should index)
      ≡ blank_index should (index_add d.pattern_hash d index)
index_add-blanked should d index =
    ap (λ k. index_add k (blank_preview should d) (blank_index should index))
      (blank_preview-hash should d)
    ∙ index_add-blank should d.pattern_hash d index

pub index_of-blank :
    (should : StoredDecision → Bool) (ds : List StoredDecision) (index : Index)
    → index_of (map (blank_preview should) ds) (blank_index should index)
      ≡ blank_index should (index_of ds index)
index_of-blank should [] index = refl
index_of-blank should (d ∷ ds) index =
    ap (index_of (map (blank_preview should) ds)) (index_add-blanked should d index)
    ∙ index_of-blank should ds (index_add d.pattern_hash d index)

-- A test that answers alike for a decision in memory and for its object in the file.
abbrev pub IsAlike : (Fields → Bool) → Type 0
IsAlike should = (d : StoredDecision) → should (to_jsonl d) ≡ should (preview_view d)

abbrev pub asked : (Fields → Bool) → StoredDecision → Bool
asked should d = should (preview_view d)

pub hash_matches-IsAlike : (h : Option Text) → IsAlike (hash_matches h)
unfolding hash_matches to_jsonl preview_view lookup lit ◌==◌
hash_matches-IsAlike none d = refl
hash_matches-IsAlike (some h) d = refl

module _ (j : Json) where
  pub preview_contains-IsAlike : (u : Unicode) (sub : Text) → IsAlike (preview_contains u j sub)
  unfolding preview_contains to_jsonl preview_view lookup lit ◌==◌
  preview_contains-IsAlike u sub d = refl

  pub load_lines-HoldsDecisions :
      {ls : List Line} {ds : List StoredDecision} (index : Index)
      → HoldsDecisions ls ds
      → load_lines j ls index ≡ some (index_of ds index)
  unfolding load_lines
  load_lines-HoldsDecisions index no_line = refl
  load_lines-HoldsDecisions index (decision_line {d = d} one h) =
      rw (load_lines, from_dict-to_jsonl j d)
        (load_lines-HoldsDecisions (index_add d.pattern_hash d index) h)
  load_lines-HoldsDecisions index (skipped_blank h) = load_lines-HoldsDecisions index h
  load_lines-HoldsDecisions index (skipped_text h) = load_lines-HoldsDecisions index h

  -- The line that the rewriting makes of a decision's line.
  rewritten_line :
      ReadsBack j
      → (should : Fields → Bool) → IsAlike should
      → (d : StoredDecision) → is_one_line d ≡ true
      → let e = blank_preview (asked should) d in
        let o = to_jsonl d in
        (is_one_line e ≡ true)
        × (j.lines_written (if should o then assign (lit "pattern_preview") (str []) o else o)
            ≡ json (obj (to_jsonl e)) ∷ [])
  unfolding blank_preview
  rewritten_line reads should alike d one = elim (Bool-cases (should (preview_view d))) [
    | inl blanks ↦
        let blanked = without_preview-one_line d one in
        rw (alike d, blanks, assign-to_jsonl d)
          (blanked, reads (to_jsonl (without_preview d)) (ground arith))
    | inr keeps ↦ rw (alike d, keeps) (one, reads (to_jsonl d) (ground arith))
  ]

  pub blank_lines-HoldsDecisions :
      ReadsBack j
      → (should : Fields → Bool) → IsAlike should
      → {ls : List Line} {ds : List StoredDecision} → HoldsDecisions ls ds
      → (after : List Line) × (blank_lines j should ls ≡ some after)
        × HoldsDecisions after (map (blank_preview (asked should)) ds)
  unfolding blank_lines
  blank_lines-HoldsDecisions reads should alike no_line = ([], refl, no_line)
  blank_lines-HoldsDecisions reads should alike (decision_line {d = d} one h) =
      let (after, e, k) = blank_lines-HoldsDecisions reads should alike h in
      let (whole, line) = rewritten_line reads should alike d one in
      (
        json (obj (to_jsonl (blank_preview (asked should) d))) ∷ after,
        rw (e, line) refl,
        decision_line whole k,
      )
  blank_lines-HoldsDecisions reads should alike (skipped_blank h) =
      blank_lines-HoldsDecisions reads should alike h
  blank_lines-HoldsDecisions reads should alike (skipped_text {raw = raw} h) =
      let (after, e, k) = blank_lines-HoldsDecisions reads should alike h in
      (not_json raw ∷ after, rw e refl, skipped_text k)
