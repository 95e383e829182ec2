-- ===== src/Decisions/Persist.antt =====
-- decisions.py: the file and the index, over the operations of a store.
use loomground_lock.Prelude.{
  ℕ, ◌≡◌, refl, ap, sym, ◌∙◌, Bool, true, false, ◌&&◌, both_true, Option, none, some, List, [], ◌∷◌,
  ◌++◌, arith, map, Bool-cases, inl, inr,
}
use loomground_lock.Text.{Text, strip, is_blank}
use loomground_lock.Text.Unicode.{Unicode}
use loomground_lock.Value.{Fields}
use loomground_lock.DecisionFile.{StoredDecision, Line, Json, to_jsonl}
use loomground_lock.DecisionFile.Laws.{ReadsBack, is_one_line}
use loomground_lock.Decisions.{
  Store, load_lines, load, lines_of, add_decision, new_decision, remember,
}
use loomground_lock.DecisionErasure.{
  Access, unreadable, unwritable, accessible, blank_preview, blank_index, rewrite_file,
  rewrite_previews, erase, erase_subject,
}
use loomground_lock.Decisions.Recall.{Op, remembers, erases, erases_subject, apply, apply_all}
use loomground_lock.Decisions.Lines.{
  index_of, HoldsDecisions, no_line, index_of-append, HoldsDecisions-append, index_of-blank,
  IsAlike, asked, hash_matches-IsAlike, preview_contains-IsAlike, load_lines-HoldsDecisions,
  blank_lines-HoldsDecisions,
}

-- The file is of the store's making, and the index is the one of its decisions.
pub record IsPersisted (s : Store) : Type 0 where
  pub decisions : List StoredDecision
  pub held : HoldsDecisions (lines_of s.file) decisions
  pub indexed : s.by_hash ≡ index_of decisions []

abbrev is_accessible : Access → Bool
is_accessible accessible = true
is_accessible unreadable = false
is_accessible unwritable = false

module _ (j : Json) (reads : ReadsBack j) where
  load_file : (file : Option (List Line)) → load j true file ≡ load_lines j (lines_of file) []
  unfolding load load_lines
  load_file none = refl
  load_file (some lines) = refl

  load-IsPersisted : (s : Store) → IsPersisted s → load j true s.file ≡ some s.by_hash
  load-IsPersisted s h =
      load_file s.file ∙ load_lines-HoldsDecisions j [] h.held ∙ ap some (sym h.indexed)

  add_decision-IsPersisted :
      (d : StoredDecision) (s : Store)
      → is_one_line d ≡ true
      → IsPersisted s
      → IsPersisted (add_decision j d s)
  unfolding add_decision
  add_decision-IsPersisted d s one h = record {
    decisions = h.decisions ++ d ∷ [];
    held = rw (reads (to_jsonl d) (ground arith)) (HoldsDecisions-append d one h.held);
    indexed = rw (h.indexed) (sym (index_of-append h.decisions d []));
  }

  rewrite_file-HoldsDecisions :
      (should : Fields → Bool)
      → IsAlike should
      → (file : Option (List Line)) {ds : List StoredDecision} → HoldsDecisions (lines_of file) ds
      → HoldsDecisions
          (lines_of (rewrite_file j should accessible file).0)
          (map (blank_preview (asked should)) ds)
  unfolding rewrite_file
  rewrite_file-HoldsDecisions should alike none no_line = no_line
  rewrite_file-HoldsDecisions should alike (some lines) h =
      let (after, e, k) = blank_lines-HoldsDecisions j reads should alike h in
      rw (rewrite_file, e) k

  rewrite-IsPersisted :
      (should : Fields → Bool)
      → IsAlike should
      → (s : Store) → IsPersisted s
      → IsPersisted (rewrite_previews j should accessible s).0
  unfolding rewrite_previews blank_index
  rewrite-IsPersisted should alike s h = record {
    decisions = map (blank_preview (asked should)) h.decisions;
    held = rewrite_file-HoldsDecisions should alike s.file h.held;
    indexed =
        ap (blank_index (asked should)) h.indexed
        ∙ sym (index_of-blank (asked should) h.decisions []);
  }

  module _ (u : Unicode) (sha256 : Text → Text) where
    -- An operation that writes one line for its decision, or whose rewrite of the file succeeds.
    abbrev pub is_written : Op → Store → Bool
    is_written (remembers t decision scope reason actor now w) s =
        is_one_line (new_decision u sha256 s t decision scope reason actor now)
    is_written (erases h access) s = is_accessible access
    is_written (erases_subject subject access) s = is_accessible access

    abbrev pub all_written : List Op → Store → Bool
    all_written [] s = true
    all_written (op ∷ ops) s = is_written op s && all_written ops (apply u sha256 j op s)

    remember-IsPersisted :
        (s : Store) (t decision scope reason actor : Text) (now : ℕ) (writable : Bool)
        → is_one_line (new_decision u sha256 s t decision scope reason actor now) ≡ true
        → IsPersisted s
        → IsPersisted (remember u sha256 j s t decision scope reason actor now writable).0
    unfolding remember
    remember-IsPersisted s t decision scope reason actor now writable one h =
        let d = new_decision u sha256 s t decision scope reason actor now in
        let added = add_decision-IsPersisted d s one h in ground (arith, added)

    erase_subject-IsPersisted :
        (subject : Text) (s : Store)
        → IsPersisted s
        → IsPersisted (erase_subject u j subject accessible s).0
    unfolding erase_subject
    erase_subject-IsPersisted subject s h = elim (Bool-cases (is_blank (u.lower (strip subject)))) [
      | inl nothing ↦ rw nothing h
      | inr something ↦
          rw something
            (rewrite-IsPersisted _ (preview_contains-IsAlike j u (u.lower (strip subject))) s h)
    ]

    apply-IsPersisted :
        (op : Op) (s : Store)
        → is_written op s ≡ true
        → IsPersisted s
        → IsPersisted (apply u sha256 j op s)
    apply-IsPersisted (remembers t decision scope reason actor now w) s r h =
        remember-IsPersisted s t decision scope reason actor now w r h
    apply-IsPersisted (erases target accessible) s r h =
        unfold erase in rewrite-IsPersisted _ (hash_matches-IsAlike target) s h
    apply-IsPersisted (erases target unreadable) s r h = cc
    apply-IsPersisted (erases target unwritable) s r h = cc
    apply-IsPersisted (erases_subject subject accessible) s r h =
        erase_subject-IsPersisted subject s h
    apply-IsPersisted (erases_subject subject unreadable) s r h = cc
    apply-IsPersisted (erases_subject subject unwritable) s r h = cc

    operations-IsPersisted :
        (ops : List Op) (s : Store)
        → all_written ops s ≡ true
        → IsPersisted s
        → IsPersisted (apply_all u sha256 j ops s)
    operations-IsPersisted [] s r h = h
    operations-IsPersisted (op ∷ ops) s r h =
        let (first, later) =
          both_true (is_written op s) (all_written ops (apply u sha256 j op s)) r in
        operations-IsPersisted ops (apply u sha256 j op s) later (apply-IsPersisted op s first h)

    -- Let JSON read back as one line every object without a separator of lines, and let every object
    -- in the store's file be a decision that was written so, with an index built from them. After
    -- operations that each write one line or rewrite the file with success, whether or not their
    -- appends succeed, a new process that reads the file loads just the index in memory.
    pub apply_all-IsPersisted :
        (ops : List Op) (s : Store)
        → all_written ops s ≡ true
        → IsPersisted s
        → let after = apply_all u sha256 j ops s in load j true after.file ≡ some after.by_hash
    apply_all-IsPersisted ops s r h =
        load-IsPersisted (apply_all u sha256 j ops s) (operations-IsPersisted ops s r h)
