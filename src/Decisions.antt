-- ===== src/Decisions.antt =====
-- decisions.py: the store of a person's decisions, an append-only file with an index in memory.
-- Times and the TTL are whole numbers, and a TTL that is not positive is 0. The file is the lines
-- that a reader finds in it, and it ends with a newline where it is not empty. JSON, SHA-256, the
-- clock and failures of the file system are arguments.
pub mod Tiers
pub mod Recall
pub mod Lines
pub mod Persist
pub mod Unreadable
use loomground_lock.Prelude.{
  ℕ, suc, zero, ◌-◌, Bool, true, false, not, ◌&&◌, ◌||◌, Option, none, some, List, [], ◌∷◌, ◌++◌,
  any, filter, map, is_empty, get_last?, ltb, leb, length, ◌+◌, is_some, if◌then◌else◌, ◌==◌ as eqb,
}
use loomground_lock.Text.{Text, lit, ◌==◌, strip, is_blank, is_space, contains}
use loomground_lock.Text.Unicode.{Unicode}
use loomground_lock.Text.Regex.{take}
use loomground_lock.Value.{
  Value, Fields, str, num, bool, null, arr, obj, end, entry, lookup, assign,
}
use loomground_lock.DecisionFile.{
  StoredDecision, Line, Json, json, blank_line, not_json, to_jsonl, from_dict, text_of,
}
use loomground_lock.Core.Redact.Capture.{redact_for_capture}

abbrev pub Index : Type 0
Index = List (Text × List StoredDecision)

pub record Store : Type 0 where
  pub session_id : Text
  pub ttl_seconds : ℕ
  pub by_hash : Index
  -- `none` where the file does not exist
  pub file : Option (List Line)

-- `_by_hash.get(h)`, with the empty list for a hash that is not there
unfoldable pub candidates : Text → Index → List StoredDecision
candidates h [] = []
candidates h ((j, ds) ∷ rest) = if h == j then ds else candidates h rest

-- `_by_hash.setdefault(h, []).append(d)`
unfoldable pub index_add : Text → StoredDecision → Index → Index
index_add h d [] = (h, d ∷ []) ∷ []
index_add h d ((j, ds) ∷ rest) =
    let later = (j, ds) ∷ index_add h d rest in if h == j then (j, ds ++ d ∷ []) ∷ rest else later

-- The loop of `_load`; `none` for an exception of `from_dict`, which leaves no store.
unfoldable pub load_lines : Json → List Line → Index → Option Index
load_lines j [] index = some index
load_lines j (json v ∷ lines) index = elim (from_dict j v) [
  | none ↦ none
  | some d ↦ load_lines j lines (index_add d.pattern_hash d index)
]
load_lines j (blank_line ∷ lines) index = load_lines j lines index
load_lines j (not_json raw ∷ lines) index = load_lines j lines index

-- `_load()`: a file that is missing or cannot be read gives the empty index
unfoldable pub load : Json → Bool → Option (List Line) → Option Index
load j readable none = some []
load j readable (some lines) = if readable then load_lines j lines [] else some []

-- `DecisionsStore(path, session_id=..., ttl_seconds=...)`, `none` where it raises
unfoldable pub open_store : Json → Bool → Option (List Line) → Text → ℕ → Option Store
open_store j readable file session ttl = elim (load j readable file) [
  | none ↦ none
  | some index ↦
      some (record { session_id = session; ttl_seconds = ttl; by_hash = index; file = file })
]

abbrev pub is_block : StoredDecision → Bool
is_block d = d.decision == lit "block"

-- `_live(d, now)`
unfoldable pub live : ℕ → ℕ → StoredDecision → Bool
live ttl now d =
    if is_block d then true else if ltb 0 ttl && ltb ttl (now - d.ts) then false else true

-- The two tiers of `recall`.
unfoldable pub always_tier : ℕ → ℕ → List StoredDecision → List StoredDecision
always_tier ttl now ds = filter (λ d. live ttl now d && d.scope == lit "always") ds

unfoldable pub session_tier : ℕ → ℕ → Text → List StoredDecision → List StoredDecision
session_tier ttl now session ds =
    filter
      (λ d.
        live ttl now d
        && (not (d.scope == lit "always") && (d.scope == lit "session" && d.session_id == session)))
      ds

-- `"block"` if any blocks, else the last decision.
unfoldable pub tier_verdict : List StoredDecision → Option Text
tier_verdict [] = none
tier_verdict (d ∷ ds) =
    if any is_block (d ∷ ds)
    then some (lit "block")
    else elim (get_last? (d ∷ ds)) [ none ↦ none | some l ↦ some l.decision ]

unfoldable pub recall_from : ℕ → ℕ → Text → List StoredDecision → Option Text
recall_from ttl now session ds =
    if is_empty (always_tier ttl now ds)
    then tier_verdict (session_tier ttl now session ds)
    else tier_verdict (always_tier ttl now ds)

-- `s.split()`
cons_word : ℕ → Bool → List Text → List Text
cons_word c true [] = (c ∷ []) ∷ []
cons_word c true (w ∷ ws) = (c ∷ w) ∷ ws
cons_word c false ws = (c ∷ []) ∷ ws

-- The flag says whether the text begins inside a word that the first of the list continues.
begins_word : Text → Bool
begins_word [] = false
begins_word (c ∷ s) = not (is_space c)

unfoldable pub split_words : Text → List Text
unfolding cons_word begins_word
split_words [] = []
split_words (c ∷ s) =
    let rest = split_words s in if is_space c then rest else cons_word c (begins_word s) rest

-- `" ".join(...)`
unfoldable pub join_space : List Text → Text
join_space [] = []
join_space (w ∷ []) = w
join_space (w ∷ w' ∷ ws) = w ++ (lit " " ++ join_space (w' ∷ ws))

pub data RememberError : Type 0 where
  -- the `ValueError`s, and an `OSError` of the append
  bad_decision bad_scope anonymous_always write_failed : RememberError

abbrev pub lines_of : Option (List Line) → List Line
lines_of none = []
lines_of (some lines) = lines

-- The append to the file, and then to the index.
unfoldable pub add_decision : Json → StoredDecision → Store → Store
add_decision j d store = record store {
  by_hash = index_add d.pattern_hash d store.by_hash;
  file = some (lines_of store.file ++ j.lines_written (to_jsonl d));
}

unfoldable pub is_decision : Text → Bool
is_decision decision = decision == lit "allow" || decision == lit "block"

unfoldable pub is_scope : Text → Bool
is_scope scope = scope == lit "once" || (scope == lit "session" || scope == lit "always")

module _ (u : Unicode) (sha256 : Text → Text) where
  -- `_hash_text(text)`: the digest in hexadecimal behind its prefix
  unfoldable pub hash_text : Text → Text
  hash_text text = lit "sha256:" ++ sha256 (u.lower (strip (u.nfc text)))

  -- `_safe_preview(text)`
  unfoldable pub safe_preview : Text → Text
  safe_preview text = take 80 (join_space (split_words (redact_for_capture u text)))

  -- `store.recall(text, now=now)`
  unfoldable pub recall : Store → Text → ℕ → Option Text
  recall store text now =
      recall_from store.ttl_seconds now store.session_id (candidates (hash_text text) store.by_hash)

  unfoldable pub new_decision : Store → Text → Text → Text → Text → Text → ℕ → StoredDecision
  new_decision store text decision scope reason actor now = record {
    ts = now;
    pattern_hash = hash_text text;
    pattern_preview = safe_preview text;
    decision = decision;
    scope = scope;
    reason = reason;
    session_id = if scope == lit "session" then store.session_id else [];
    actor = strip actor;
  }

  -- `store.remember(text, decision, scope=..., reason=..., actor=...)`; `writable` says whether
  -- the append succeeds.
  unfoldable pub remember :
      Json → Store → Text → Text → Text → Text → Text → ℕ → Bool → Store × Option RememberError
  remember j store text decision scope reason actor now writable =
      if not (is_decision decision)
      then (store, some bad_decision)
      else if not (is_scope scope)
      then (store, some bad_scope)
      else if scope == lit "always" && is_blank (strip actor)
      then (store, some anonymous_always)
      else if not writable
      then (store, some write_failed)
      else (add_decision j (new_decision store text decision scope reason actor now) store, none)

unfoldable pub all_records : Index → List StoredDecision
all_records [] = []
all_records ((h, ds) ∷ rest) = ds ++ all_records rest

unfoldable pub insert_by_ts : StoredDecision → List StoredDecision → List StoredDecision
insert_by_ts d [] = d ∷ []
insert_by_ts d (e ∷ es) =
    let later = e ∷ insert_by_ts d es in if leb d.ts e.ts then d ∷ e ∷ es else later

-- `sorted(out, key=lambda d: d.ts)`, which is stable
unfoldable pub sort_by_ts : List StoredDecision → List StoredDecision
unfolding insert_by_ts
sort_by_ts [] = []
sort_by_ts (d ∷ ds) = insert_by_ts d (sort_by_ts ds)

unfoldable pub all_decisions : Store → List StoredDecision
all_decisions store = sort_by_ts (all_records store.by_hash)
