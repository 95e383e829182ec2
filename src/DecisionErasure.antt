-- ===== src/DecisionErasure.antt =====
-- decisions.py: the erasure of previews, in the index and in the file.
use loomground_lock.Prelude.{
  ℕ, Bool, true, false, Option, none, some, List, [], ◌∷◌, ◌++◌, filter, map, length, ◌+◌, is_some,
  if◌then◌else◌,
}
use loomground_lock.Text.{Text, lit, ◌==◌, strip, is_blank, contains}
use loomground_lock.Text.Unicode.{Unicode}
use loomground_lock.Value.{
  Value, Fields, str, num, bool, null, arr, obj, end, entry, lookup, assign,
}
use loomground_lock.DecisionFile.{StoredDecision, Line, Json, json, blank_line, not_json, text_of}
use loomground_lock.Decisions.{Index, Store}

-- The blanking of previews, in the index and in the file.
unfoldable pub blank_preview : (StoredDecision → Bool) → StoredDecision → StoredDecision
blank_preview should d = if should d then record d { pattern_preview = [] } else d

unfoldable pub blank_index : (StoredDecision → Bool) → Index → Index
blank_index should [] = []
blank_index should ((h, ds) ∷ rest) = (h, map (blank_preview should) ds) ∷ blank_index should rest

unfoldable pub count_blanked : (StoredDecision → Bool) → Index → ℕ
count_blanked should [] = 0
count_blanked should ((h, ds) ∷ rest) = length (filter should ds) + count_blanked should rest

-- The loop over the lines, which writes each object again; `none` for an exception, of what has no
-- `get` or no keys to set.
unfoldable pub blank_lines : Json → (Fields → Bool) → List Line → Option (List Line)
blank_lines j should [] = some []
blank_lines j should (json (obj o) ∷ lines) = elim (blank_lines j should lines) [
  | none ↦ none
  | some rest ↦
      some (
        j.lines_written (if should o then assign (lit "pattern_preview") (str []) o else o) ++ rest)
]
blank_lines j should (json (str s) ∷ lines) = none
blank_lines j should (json (num n) ∷ lines) = none
blank_lines j should (json (bool b) ∷ lines) = none
blank_lines j should (json null ∷ lines) = none
blank_lines j should (json (arr xs) ∷ lines) = none
blank_lines j should (blank_line ∷ lines) = blank_lines j should lines
blank_lines j should (not_json raw ∷ lines) = elim (blank_lines j should lines) [
  | none ↦ none
  | some rest ↦ some (not_json raw ∷ rest)
]

-- The dict that `should_blank` is asked about for a decision in memory.
unfoldable pub preview_view : StoredDecision → Fields
preview_view d = entry (lit "pattern_hash") (str d.pattern_hash) (
    entry (lit "pattern_preview") (str d.pattern_preview)
      (entry (lit "decision") (str d.decision) (entry (lit "scope") (str d.scope) end)))

-- Whether the file can be read, and whether it can be replaced.
pub data Access : Type 0 where
  unreadable unwritable accessible : Access

-- The file afterwards, and whether no exception was raised.
unfoldable pub rewrite_file :
    Json → (Fields → Bool) → Access → Option (List Line) → Option (List Line) × Bool
rewrite_file j should access none = (none, true)
rewrite_file j should unreadable (some lines) = (some lines, true)
rewrite_file j should unwritable (some lines) = (some lines, is_some (blank_lines j should lines))
rewrite_file j should accessible (some lines) = elim (blank_lines j should lines) [
  | none ↦ (some lines, false)
  | some blanked ↦ (some blanked, true)
]

-- `_rewrite_previews(should_blank)`: the index is changed before the file is read; `none` for an
-- exception.
unfoldable pub rewrite_previews : Json → (Fields → Bool) → Access → Store → Store × Option ℕ
rewrite_previews j should access store =
    let asked : StoredDecision → Bool = λ d. should (preview_view d) in
    let (file, ended) = rewrite_file j should access store.file in
    (
      record store { by_hash = blank_index asked store.by_hash; file = file },
      if ended then some (count_blanked asked store.by_hash) else none,
    )

-- `o.get("pattern_hash") == pattern_hash`
unfoldable pub is_text : Text → Option Value → Bool
is_text h (some (str s)) = s == h
is_text h _ = false

-- `store.erase(pattern_hash)`, with `none` for every record
unfoldable pub hash_matches : Option Text → Fields → Bool
unfolding is_text
hash_matches none o = true
hash_matches (some h) o = is_text h (lookup (lit "pattern_hash") o)

unfoldable pub erase : Json → Option Text → Access → Store → Store × Option ℕ
erase j h access store = rewrite_previews j (hash_matches h) access store

-- `sub in str(o.get("pattern_preview", "")).lower()`
unfoldable pub preview_contains : Unicode → Json → Text → Fields → Bool
preview_contains u j sub o =
    contains sub (u.lower (text_of j (lit "") (lookup (lit "pattern_preview") o)))

-- `store.erase_subject(subject)`
unfoldable pub erase_subject : Unicode → Json → Text → Access → Store → Store × Option ℕ
erase_subject u j subject access store =
    let sub = u.lower (strip subject) in
    if is_blank sub
    then (store, some 0)
    else rewrite_previews j (preview_contains u j sub) access store
