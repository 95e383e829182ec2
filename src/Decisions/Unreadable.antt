-- ===== src/Decisions/Unreadable.antt =====
-- decisions.py: a line that is JSON but no object.
use loomground_lock.Prelude.{
  ℕ, ◌≡◌, refl, Bool, true, false, none, some, List, [], ◌∷◌, ◌++◌, arith, Option-cases, inl, inr,
}
use loomground_lock.Text.{Text}
use loomground_lock.Text.Unicode.{Unicode}
use loomground_lock.Value.{Value, str, num, bool, null, arr, obj}
use loomground_lock.DecisionFile.{Line, Json, json, blank_line, not_json, to_jsonl, from_dict}
use loomground_lock.Decisions.{
  Index, Store, index_add, load_lines, load, lines_of, open_store, add_decision, new_decision,
  remember,
}

abbrev pub is_object : Value → Bool
is_object (obj d) = true
is_object _ = false

module _ (j : Json) where
  from_dict-none : (v : Value) → is_object v ≡ false → from_dict j v ≡ none
  unfolding from_dict
  from_dict-none (obj d) h = cc
  from_dict-none (str s) h = refl
  from_dict-none (num n) h = refl
  from_dict-none (bool b) h = refl
  from_dict-none null h = refl
  from_dict-none (arr xs) h = refl

  -- Lines that no index can be built from, behind others.
  load_lines-tail :
      (xs ys : List Line)
      → ((index : Index) → load_lines j ys index ≡ none)
      → (index : Index) → load_lines j (xs ++ ys) index ≡ none
  unfolding load_lines
  load_lines-tail [] ys h index = h index
  load_lines-tail (json v ∷ xs) ys h index = elim (Option-cases (from_dict j v)) [
    | inl e ↦ rw (load_lines, e) refl
    | inr (d, e) ↦ rw (load_lines, e) (load_lines-tail xs ys h (index_add d.pattern_hash d index))
  ]
  load_lines-tail (blank_line ∷ xs) ys h index = load_lines-tail xs ys h index
  load_lines-tail (not_json raw ∷ xs) ys h index = load_lines-tail xs ys h index

  load_lines-unreadable :
      (v : Value) (ys : List Line)
      → is_object v ≡ false
      → (index : Index) → load_lines j (json v ∷ ys) index ≡ none
  unfolding load_lines
  load_lines-unreadable v ys h index = rw (load_lines, from_dict-none v h) refl

  module _ (u : Unicode) (sha256 : Text → Text) where
    remember-file :
        (s : Store) (text decision scope reason actor : Text) (now : ℕ) (writable : Bool)
        → let (after, e) = remember u sha256 j s text decision scope reason actor now writable in
          e ≡ none
          → after.file
            ≡ some (
                lines_of s.file
                ++ j.lines_written
                    (to_jsonl (new_decision u sha256 s text decision scope reason actor now)))
    unfolding remember add_decision
    remember-file s text decision scope reason actor now writable h = ground arith

    -- Where a reader finds, among the lines that `remember` has written for a decision, one that is
    -- JSON but no object, no store can be built on the file any more, whatever it held before.
    pub remember_closes_store :
        (s : Store) (text decision scope reason actor : Text) (now : ℕ) (writable : Bool)
        (before later : List Line) (v : Value) (session : Text) (ttl : ℕ)
        → j.lines_written (to_jsonl (new_decision u sha256 s text decision scope reason actor now))
          ≡ before ++ json v ∷ later
        → is_object v ≡ false
        → (remember u sha256 j s text decision scope reason actor now writable).1 ≡ none
        → open_store j true
            (remember u sha256 j s text decision scope reason actor now writable).0.file
            session
            ttl
          ≡ none
    unfolding open_store load
    remember_closes_store s text decision scope reason actor now writable before later v session ttl
          found bad wrote =
        let unread =
          load_lines-tail (lines_of s.file) (before ++ json v ∷ later)
            (load_lines-tail before (json v ∷ later) (load_lines-unreadable v later bad)) [] in
        rw
          (
            remember-file s text decision scope reason actor now writable wrote,
            found,
            open_store,
            load,
            unread,
          )
          refl
