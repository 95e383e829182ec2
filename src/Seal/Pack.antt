-- ===== src/Seal/Pack.antt =====
-- seal.py: the manifest of a sealed folder, its keys and the writes that restore it.
use loomground_lock.Prelude.{
  ◌≡◌, refl, ap, ◌∙◌, ◌⊎◌, inl, inr, ℕ, Bool, true, ◌||◌, not, Option, length, List, [], ◌∷◌, ◌++◌,
  map, all, both_true, Bool-cases, arith,
}
use loomground_lock.Text.{Text, lit, ◌==◌, has_prefix, drop, split_once}
use loomground_lock.Text.Equality.{==-eq}
use loomground_lock.Value.{Fields, keys}
use loomground_lock.Seal.Disk.{Tree, DiskStep, write_sink_file}
use loomground_lock.Seal.Disk.Runs.{log_writes, sink_writes}
use loomground_lock.Seal.Envelope.{Primitives, Outcome, ok, or_crash, decoded}
use loomground_lock.Seal.Folder.{
  sink_prefix, write_step, pack_tree, pack_sinks, snapshot, restore_steps, write_decoded,
}
use loomground_lock.Seal.Reliable.{Reliable}

-- The folder's own knowledge sinks.
unfoldable pub is_known : Text → Bool
is_known s = s == lit ".versum" || s == lit "grounding"

-- Paths of a log directory that cannot be taken for those of a sink.
unfoldable pub plain_paths : Tree → Bool
plain_paths t = all (λ (f : Text × Text). not (has_prefix sink_prefix f.0)) t

known-cases : (s : Text) → is_known s ≡ true → (s ≡ lit ".versum") ⊎ (s ≡ lit "grounding")
unfolding is_known
known-cases s h = elim (Bool-cases (s == lit ".versum")) [
  | inl e ↦ inl (==-eq s (lit ".versum") e)
  | inr e ↦ inr (==-eq s (lit "grounding") (ground (arith)))
]

-- What the sinks of a folder are restored by.
unfoldable pub sinks_writes : Text → List (Text × Tree) → List DiskStep
sinks_writes folder [] = []
sinks_writes folder ((sink, t) ∷ rest) = sink_writes folder sink t ++ sinks_writes folder rest

module _ (p : Primitives) (r : Reliable p) (name folder : Text) where
  -- The writes of one packed directory come before those of the entries behind it.
  restore_steps-pack_tree :
      (prefix : Text) (t : Tree) (files : Fields) (ss : List DiskStep)
      → restore_steps p name folder files ≡ (ss, ok (length (keys files)))
      → restore_steps p name folder (pack_tree p prefix t files) ≡ (
        map (λ (f : Text × Text). write_step name folder (prefix ++ f.0) f.1) t ++ ss,
        ok (length (keys (pack_tree p prefix t files))),
      )
  unfolding restore_steps write_decoded pack_tree decoded keys or_crash
  restore_steps-pack_tree prefix [] files ss h = h
  restore_steps-pack_tree prefix ((rel, c) ∷ t) files ss h =
      ap
        (λ (o : Option Text).
          write_decoded (write_step name folder (prefix ++ rel)) (or_crash (lit "binascii.Error") o)
            (restore_steps p name folder (pack_tree p prefix t files)))
        (r.decodes c)
      ∙ ap
          (λ (rest : List DiskStep × Outcome ℕ).
            write_decoded (write_step name folder (prefix ++ rel)) (ok c) rest)
          (restore_steps-pack_tree prefix t files ss h)

  map-log_writes :
      (t : Tree)
      → plain_paths t ≡ true
      → map (λ (f : Text × Text). write_step name folder ([] ++ f.0) f.1) t ≡ log_writes name t
  unfolding plain_paths write_step log_writes
  map-log_writes [] h = refl
  map-log_writes ((rel, c) ∷ t) h =
      let (first, later) =
        both_true (not (has_prefix sink_prefix rel))
          (all (λ (f : Text × Text). not (has_prefix sink_prefix f.0)) t) h in
      let rest = map-log_writes t later in ground arith

  map-versum_writes :
      (t : Tree)
      → map
          (λ (f : Text × Text).
            write_step name folder ((sink_prefix ++ (lit ".versum" ++ lit "/")) ++ f.0) f.1)
          t
        ≡ sink_writes folder (lit ".versum") t
  unfolding write_step sink_writes lit has_prefix drop split_once
  map-versum_writes [] = refl
  map-versum_writes ((rel, c) ∷ t) =
      ap (λ (ss : List DiskStep). write_sink_file folder (lit ".versum") rel c ∷ ss)
        (map-versum_writes t)

  map-grounding_writes :
      (t : Tree)
      → map
          (λ (f : Text × Text).
            write_step name folder ((sink_prefix ++ (lit "grounding" ++ lit "/")) ++ f.0) f.1)
          t
        ≡ sink_writes folder (lit "grounding") t
  unfolding write_step sink_writes lit has_prefix drop split_once
  map-grounding_writes [] = refl
  map-grounding_writes ((rel, c) ∷ t) =
      ap (λ (ss : List DiskStep). write_sink_file folder (lit "grounding") rel c ∷ ss)
        (map-grounding_writes t)

  map-known_writes :
      (sink : Text) (t : Tree)
      → is_known sink ≡ true
      → map
          (λ (f : Text × Text).
            write_step name folder ((sink_prefix ++ (sink ++ lit "/")) ++ f.0) f.1)
          t
        ≡ sink_writes folder sink t
  map-known_writes sink t h = elim (known-cases sink h) [
    | inl e ↦ rw e (map-versum_writes t)
    | inr e ↦ rw e (map-grounding_writes t)
  ]

  restore_steps-pack_sinks :
      (sinks : List (Text × Tree))
      → all (λ (e : Text × Tree). is_known e.0) sinks ≡ true
      → restore_steps p name folder (pack_sinks p sinks)
        ≡ (sinks_writes folder sinks, ok (length (keys (pack_sinks p sinks))))
  unfolding pack_sinks sinks_writes restore_steps keys
  restore_steps-pack_sinks [] h = refl
  restore_steps-pack_sinks ((sink, t) ∷ rest) h =
      let (known, later) =
        both_true (is_known sink) (all (λ (e : Text × Tree). is_known e.0) rest) h in
      restore_steps-pack_tree (sink_prefix ++ (sink ++ lit "/")) t (pack_sinks p rest)
        (sinks_writes folder rest) (restore_steps-pack_sinks rest later)
      ∙ ap
          (λ (ss : List DiskStep).
            (ss ++ sinks_writes folder rest, ok (length (keys (pack_sinks p ((sink, t) ∷ rest))))))
          (map-known_writes sink t known)

  -- Restoring the manifest writes the log directory's files, and then those of the sinks.
  pub restore_steps-snapshot :
      (t : Tree) (sinks : List (Text × Tree))
      → plain_paths t ≡ true
      → all (λ (e : Text × Tree). is_known e.0) sinks ≡ true
      → restore_steps p name folder (snapshot p t sinks)
        ≡ (log_writes name t ++ sinks_writes folder sinks, ok (length (keys (snapshot p t sinks))))
  unfolding snapshot
  restore_steps-snapshot t sinks plain known =
      restore_steps-pack_tree [] t (pack_sinks p sinks) (sinks_writes folder sinks)
        (restore_steps-pack_sinks sinks known)
      ∙ ap
          (λ (ss : List DiskStep).
            (ss ++ sinks_writes folder sinks, ok (length (keys (snapshot p t sinks)))))
          (map-log_writes t plain)
