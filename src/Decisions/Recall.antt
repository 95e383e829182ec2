-- ===== src/Decisions/Recall.antt =====
-- decisions.py: what `recall` answers.
use loomground_lock.Prelude.{
  ℕ, ◌≡◌, ◌↔◌, ◌⊎◌, inl, inr, Bool, true, false, Option, none, some, List, [], ◌∷◌, arith, any,
  any-append, Bool-cases, is_some,
}
use loomground_lock.Text.{Text, lit, ◌==◌, strip, is_blank}
use loomground_lock.Text.Equality.{==_iff, ==_refl}
use loomground_lock.Text.Unicode.{Unicode}
use loomground_lock.Value.{Fields}
use loomground_lock.DecisionFile.{Json, StoredDecision}
use loomground_lock.Decisions.{
  Store, candidates, hash_text, recall, new_decision, add_decision, is_decision, is_scope, remember,
}
use loomground_lock.DecisionErasure.{Access, preview_view, rewrite_previews, erase, erase_subject}
use loomground_lock.Decisions.Tiers.{
  blocks_always, clears, candidates-index_add, candidates-blank_index, any-blank_preview,
  recall_from-block, recall_from-allow, or_true,
}

-- What a user of the store may do between two recalls.
pub data Op : Type 0 where
  remembers : (text decision scope reason actor : Text) (now : ℕ) (writable : Bool) → Op
  erases : Option Text → Access → Op
  erases_subject : Text → Access → Op

-- What the guards of `remember` let pass.
abbrev pub IsAccepted : Text → Text → Text → Bool → Type 0
IsAccepted decision scope actor writable =
    ((decision ≡ lit "allow") ⊎ (decision ≡ lit "block"))
    × ((scope ≡ lit "once") ⊎ ((scope ≡ lit "session") ⊎ (scope ≡ lit "always")))
    × (scope ≡ lit "always" → is_blank (strip actor) ≡ false)
    × (writable ≡ true)

is_decision_iff :
    (decision : Text)
    → (is_decision decision ≡ true) ↔ ((decision ≡ lit "allow") ⊎ (decision ≡ lit "block"))
unfolding is_decision
is_decision_iff decision =
    ground (arith, ==_iff decision (lit "allow"), ==_iff decision (lit "block"))

is_scope_iff :
    (scope : Text)
    → (is_scope scope ≡ true)
      ↔ ((scope ≡ lit "once") ⊎ ((scope ≡ lit "session") ⊎ (scope ≡ lit "always")))
unfolding is_scope
is_scope_iff scope =
    ground
      (arith, ==_iff scope (lit "once"), ==_iff scope (lit "session"), ==_iff scope (lit "always"))

module _ (u : Unicode) (sha256 : Text → Text) (j : Json) where
  abbrev pub apply : Op → Store → Store
  apply (remembers text decision scope reason actor now writable) s =
      (remember u sha256 j s text decision scope reason actor now writable).0
  apply (erases h access) s = (erase j h access s).0
  apply (erases_subject subject access) s = (erase_subject u j subject access s).0

  abbrev pub apply_all : List Op → Store → Store
  apply_all [] s = s
  apply_all (op ∷ ops) s = apply_all ops (apply op s)

  abbrev pub IsBlocked : Text → Store → Type 0
  IsBlocked text s = any blocks_always (candidates (hash_text u sha256 text) s.by_hash) ≡ true

  add_decision-IsBlocked :
      (text : Text) (d : StoredDecision) (s : Store)
      → IsBlocked text s
      → IsBlocked text (add_decision j d s)
  unfolding add_decision
  add_decision-IsBlocked text d s h =
      rw (candidates-index_add (hash_text u sha256 text))
        (elim (Bool-cases (hash_text u sha256 text == d.pattern_hash)) [
          | inl same ↦ rw (same, any-append blocks_always, h)
          | inr other ↦ rw other h
        ])

  rewrite-IsBlocked :
      (text : Text) (should : Fields → Bool) (access : Access) (s : Store)
      → IsBlocked text s
      → IsBlocked text (rewrite_previews j should access s).0
  unfolding rewrite_previews
  rewrite-IsBlocked text should access s h =
      let asked : StoredDecision → Bool = λ d. should (preview_view d) in
      rw (candidates-blank_index (hash_text u sha256 text), any-blank_preview asked) h

  apply-IsBlocked :
      (text : Text) (op : Op) (s : Store) → IsBlocked text s → IsBlocked text (apply op s)
  unfolding remember erase erase_subject
  apply-IsBlocked text (remembers t decision scope reason actor now writable) s h = ground (
    arith,
    add_decision-IsBlocked text (new_decision u sha256 s t decision scope reason actor now) s h,
  )
  apply-IsBlocked text (erases target b) s h = rewrite-IsBlocked text _ b s h
  apply-IsBlocked text (erases_subject subject b) s h =
      elim (Bool-cases (is_blank (u.lower (strip subject)))) [
        | inl nothing ↦ rw (nothing, apply) h
        | inr something ↦ rw (something, apply) (rewrite-IsBlocked text _ b s h)
      ]

  apply_all-IsBlocked :
      (text : Text) (ops : List Op) (s : Store)
      → IsBlocked text s
      → IsBlocked text (apply_all ops s)
  apply_all-IsBlocked text [] s h = h
  apply_all-IsBlocked text (op ∷ ops) s h =
      apply_all-IsBlocked text ops (apply op s) (apply-IsBlocked text op s h)

  new_block-IsBlocked :
      (s : Store) (text reason actor : Text) (now : ℕ)
      → is_blank (strip actor) ≡ false
      → IsBlocked text
          (remember u sha256 j s text (lit "block") (lit "always") reason actor now true).0
  unfolding remember is_decision is_scope add_decision new_decision
  new_block-IsBlocked s text reason actor now named =
      simp (==_refl, named, or_true, candidates-index_add, any-append)

  -- A standing block that has been remembered is recalled ever after: at any time, whatever is
  -- remembered or erased in between, and for every text with the same hash.
  pub block_stands :
      (s : Store) (text reason actor : Text) (now : ℕ) (ops : List Op) (variant : Text) (later : ℕ)
      → is_blank (strip actor) ≡ false
      → hash_text u sha256 variant ≡ hash_text u sha256 text
      → recall u sha256
          (apply_all ops
            (remember u sha256 j s text (lit "block") (lit "always") reason actor now true).0)
          variant
          later
        ≡ some (lit "block")
  unfolding recall
  block_stands s text reason actor now ops variant later named same = rw same (
      recall_from-block _ later _ _
        (apply_all-IsBlocked text ops _ (new_block-IsBlocked s text reason actor now named)))

  -- `remember` raises nothing exactly when the decision is "allow" or "block", the scope is "once",
  -- "session" or "always", an actor is named if it is "always", and the append to the file succeeds;
  -- and where it raises, the store is as it was.
  pub remember_refusals :
      (s : Store) (text decision scope reason actor : Text) (now : ℕ) (writable : Bool)
      → let (s', e) = remember u sha256 j s text decision scope reason actor now writable in
        ((e ≡ none) ↔ IsAccepted decision scope actor writable) × (is_some e ≡ true → s' ≡ s)
  unfolding remember
  remember_refusals s text decision scope reason actor now writable =
      let named = ==_iff scope (lit "always") in
      let chosen = is_decision_iff decision in
      let scoped = is_scope_iff scope in
      (
        (λ h. ground (arith, named, chosen, scoped), λ h. ground (arith, named, chosen, scoped)),
        λ h. ground arith,
      )

module _ (u : Unicode) (sha256 : Text → Text) where
  -- "allow" is recalled only on the ground of an "allow" for the text's hash that has not expired,
  -- of scope "always" or of this session, and where no standing block is kept.
  pub recall_allow_sound :
      (s : Store) (text : Text) (now : ℕ)
      → recall u sha256 s text now ≡ some (lit "allow")
      → let ds = candidates (hash_text u sha256 text) s.by_hash in
        (any (clears s.ttl_seconds now s.session_id) ds ≡ true) × (any blocks_always ds ≡ false)
  unfolding recall
  recall_allow_sound s text now h =
      let ds = candidates (hash_text u sha256 text) s.by_hash in
      recall_from-allow s.ttl_seconds now s.session_id ds h
