-- ===== src/Seal/Folder.antt =====
-- seal.py: sealing a folder, and unsealing it. There is one log root.
-- The host's hooks for pending erasures are arguments; they may read and change the disk.
use loomground_lock.Prelude.{
  ℕ, suc, Bool, Option, none, some, is_some, List, [], ◌∷◌, ◌++◌, map, length, if◌then◌else◌,
}
use loomground_lock.Text.{Text, lit, has_prefix, drop, split_once, is_blank}
use loomground_lock.Value.{Value, Fields, str, end, entry, keys}
use loomground_lock.Seal.Disk.{
  Tree, Disk, DiskStep, touch_events, write_temp, replace_temp, remove_log_file, remove_log_dir,
  remove_sink_file, remove_sink_dir, make_log_dir, write_log_file, write_sink_file, unlink_blob,
  touch_file, run_steps,
}
use loomground_lock.Seal.Envelope.{
  Primitives, Outcome, ok, seal_error, crashed, ◌>>=◌, passphrase, as_dict, files_of, decoded,
  derive_key, make_blob, open_envelope,
}

abbrev pub sink_prefix : Text
sink_prefix = lit "__folder_sink__/"

-- `host_deps.pending_erase_verify` and `pending_erase_apply`, where they are wired
pub record Erasure : Type 0 where
  pub verify : Option (Text → Disk → Outcome (List Text))
  pub applies : Option (Text → List Text → Disk → Disk × Outcome Text)

pub record Unsealed : Type 0 where
  pub files_restored : ℕ
  pub pending_erase_applied : Option Text

-- `[(name, folder / name) for name in _FOLDER_MEMORY_SINKS if ...exists()]`, with what is there
unfoldable pub sink_entry : Disk → Text → Text → List (Text × Tree)
sink_entry d folder name = elim (d.sinks folder name) [ none ↦ [] | some t ↦ (name, t) ∷ [] ]

unfoldable pub existing_sinks : Disk → Text → List (Text × Tree)
unfolding sink_entry
existing_sinks d folder =
    sink_entry d folder (lit ".versum") ++ sink_entry d folder (lit "grounding")

unfoldable pub remove_log : Text → Tree → List DiskStep
remove_log name t =
    map (λ (f : Text × Text). remove_log_file name f.0) t ++ remove_log_dir name ∷ []

unfoldable pub remove_sink : Text → Text → Tree → List DiskStep
remove_sink folder sink t =
    map (λ (f : Text × Text). remove_sink_file folder sink f.0) t
    ++ remove_sink_dir folder sink ∷ []

unfoldable pub remove_sinks : Text → List (Text × Tree) → List DiskStep
unfolding remove_sink
remove_sinks folder [] = []
remove_sinks folder ((sink, t) ∷ rest) = remove_sink folder sink t ++ remove_sinks folder rest

-- Where a path of the manifest goes: below the log directory, or below the folder. What a path with
-- a part "..", or an absolute one, reaches outside of them is not modelled.
unfoldable pub write_step : Text → Text → Text → Text → DiskStep
write_step name folder rel content =
    if has_prefix sink_prefix rel
    then (elim (split_once (lit "/") (drop (length sink_prefix) rel)) [
      | none ↦ write_sink_file folder (drop (length sink_prefix) rel) [] content
      | some (sink, path) ↦ write_sink_file folder sink path content
    ])
    else write_log_file name rel content

-- `dest.write_bytes(content)` and `n += 1` before the rest of the loop, where the content is there.
unfoldable pub write_decoded :
    (Text → DiskStep) → Outcome Text → List DiskStep × Outcome ℕ → List DiskStep × Outcome ℕ
write_decoded write (ok content) (steps, count) = (write content ∷ steps, count >>= λ n. ok (suc n))
write_decoded write (seal_error m) rest = ([], seal_error m)
write_decoded write (crashed c) rest = ([], crashed c)

unfoldable pub apply_hook :
    Option (Text → List Text → Disk → Disk × Outcome Text)
    → Text
    → List Text
    → ℕ
    → Disk
    → Disk × Outcome Unsealed
apply_hook none folder markers n d =
    (d, ok (record { files_restored = n; pending_erase_applied = none }))
apply_hook (some applies) folder markers n d =
    let (after, done) = applies folder markers d in
    (after, done >>= λ r. ok (record { files_restored = n; pending_erase_applied = some r }))

-- The markers that the host has, `[]` where it has no hook.
unfoldable pub pending_markers : Erasure → Text → Disk → Outcome (List Text)
pending_markers e folder d = elim e.verify [ none ↦ ok [] | some verify ↦ verify folder d ]

-- `pending_erase_apply`, where there are markers and the host has the hook.
unfoldable pub apply_erasure : Erasure → Text → List Text → ℕ → Disk → Disk × Outcome Unsealed
unfolding apply_hook
apply_erasure e folder [] n d =
    (d, ok (record { files_restored = n; pending_erase_applied = none }))
apply_erasure e folder (m ∷ ms) n d = apply_hook e.applies folder (m ∷ ms) n d

-- The end of `unseal_folder`, of the writes up to the file that cannot be decoded, if any.
unfoldable pub finish :
    Erasure → Text → Text → List Text → List DiskStep × Outcome ℕ → Disk → Disk × Outcome Unsealed
unfolding apply_erasure
finish e name folder markers (steps, seal_error x) d =
    (run_steps (make_log_dir name ∷ steps) d, seal_error x)
finish e name folder markers (steps, crashed c) d =
    (run_steps (make_log_dir name ∷ steps) d, crashed c)
finish e name folder markers (steps, ok n) d =
    apply_erasure e folder markers n
      (run_steps (make_log_dir name ∷ (steps ++ unlink_blob name ∷ [])) d)

module _ (p : Primitives) where
  -- `_resolve_log_dir(folder, log_root).name`
  unfoldable pub resolve_log_dir : Disk → Text → Text
  resolve_log_dir d folder =
      if is_some (d.logs (p.folder_hash folder))
      then p.folder_hash folder
      else if is_some (d.logs (p.legacy_folder_hash folder))
      then p.legacy_folder_hash folder
      else p.folder_hash folder

  -- `is_sealed(folder)`
  unfoldable pub is_sealed : Disk → Text → Bool
  unfolding resolve_log_dir
  is_sealed d folder = is_some (d.blobs (resolve_log_dir d folder))

  -- `files[prefix + rel] = base64.b64encode(...)` for the files of a directory, in front of the
  -- entries that follow. Paths are distinct, so that each assignment is a new entry.
  unfoldable pub pack_tree : Text → Tree → Fields → Fields
  pack_tree prefix [] files = files
  pack_tree prefix ((rel, content) ∷ t) files =
      entry (prefix ++ rel) (str (p.b64encode content)) (pack_tree prefix t files)

  unfoldable pub pack_sinks : List (Text × Tree) → Fields
  unfolding pack_tree
  pack_sinks [] = end
  pack_sinks ((sink, t) ∷ rest) = pack_tree (sink_prefix ++ (sink ++ lit "/")) t (pack_sinks rest)

  -- The dict `files` of `seal_folder`.
  unfoldable pub snapshot : Tree → List (Text × Tree) → Fields
  unfolding pack_tree pack_sinks
  snapshot t sinks = pack_tree [] t (pack_sinks sinks)

  -- What `seal_folder` does to the disk once it has the key.
  unfoldable pub seal_steps :
      Text → Text → Text → Text → Text → Tree → List (Text × Tree) → List DiskStep
  unfolding remove_log remove_sinks
  seal_steps key salt nonce folder name t sinks =
      touch_events name
      ∷ write_temp name (make_blob p key salt nonce name (snapshot t sinks))
      ∷ replace_temp name
      ∷ (remove_log name t ++ remove_sinks folder sinks)

  -- `seal_folder(folder, passphrase=...)`: the number of files sealed
  unfoldable pub seal_folder : Text → Text → Text → Text → Disk → Disk × Outcome ℕ
  unfolding resolve_log_dir existing_sinks seal_steps snapshot
  seal_folder salt nonce pass folder d =
      let name = resolve_log_dir d folder in
      if is_blank pass
      then (d, seal_error (lit "a passphrase is required to seal"))
      else if is_some (d.blobs name)
      then (d, seal_error (lit "already sealed"))
      else elim (d.logs name) [
        | none ↦ (d, seal_error (lit "no memory to seal for this folder"))
        | some tree ↦
            let t = touch_file (lit "events.jsonl") tree in
            let sinks = existing_sinks d folder in
            elim (derive_key p pass salt) [
              | none ↦ (run_steps (touch_events name ∷ []) d, crashed (lit "ValueError"))
              | some key ↦ (
                run_steps (seal_steps key salt nonce folder name t sinks) d,
                ok (length (keys (snapshot t sinks))),
              )
            ]
      ]

  -- The loop that writes the files of the manifest, up to one that cannot be decoded.
  unfoldable pub restore_steps : Text → Text → Fields → List DiskStep × Outcome ℕ
  unfolding write_step write_decoded
  restore_steps name folder end = ([], ok 0)
  restore_steps name folder (entry rel v files) =
      write_decoded (write_step name folder rel) (decoded p v) (restore_steps name folder files)

  -- What `unseal_folder` does with the files of the manifest.
  unfoldable pub restore_files :
      Erasure → Text → Text → List Text → Outcome Fields → Disk → Disk × Outcome Unsealed
  unfolding restore_steps finish
  restore_files e name folder markers (seal_error x) d =
      (run_steps (make_log_dir name ∷ []) d, seal_error x)
  restore_files e name folder markers (crashed c) d =
      (run_steps (make_log_dir name ∷ []) d, crashed c)
  restore_files e name folder markers (ok files) d =
      finish e name folder markers (restore_steps name folder files) d

  -- What `unseal_folder` does once it has decrypted the blob, or failed to.
  unfoldable pub restore :
      Erasure → Text → Text → List Text → Outcome (Value × Text) → Disk → Disk × Outcome Unsealed
  unfolding as_dict files_of restore_files
  restore e name folder markers (seal_error x) d = (d, seal_error x)
  restore e name folder markers (crashed c) d = (d, crashed c)
  restore e name folder markers (ok (m, key)) d =
      restore_files e name folder markers (as_dict m >>= files_of) d

  -- What `unseal_folder` does once the host has verified the markers, or refused to.
  unfoldable pub unseal_verified :
      Erasure → Text → Text → Text → Text → Outcome (List Text) → Disk → Disk × Outcome Unsealed
  unfolding restore
  unseal_verified e pass folder name blob (seal_error x) d = (d, seal_error x)
  unseal_verified e pass folder name blob (crashed c) d = (d, crashed c)
  unseal_verified e pass folder name blob (ok markers) d =
      let opened =
        open_envelope p (lit "wrong passphrase or corrupted seal — nothing restored") blob name
          (passphrase pass) in
      restore e name folder markers opened d

  -- `unseal_folder(folder, passphrase=...)`
  unfoldable pub unseal_folder : Erasure → Text → Text → Disk → Disk × Outcome Unsealed
  unfolding resolve_log_dir pending_markers unseal_verified
  unseal_folder e pass folder d =
      let name = resolve_log_dir d folder in
      if is_blank pass
      then (d, seal_error (lit "a passphrase is required to unseal"))
      else elim (d.blobs name) [
        | none ↦ (d, seal_error (lit "not sealed"))
        | some blob ↦
            if is_some (d.logs name)
            then (d, seal_error (lit "refusing to overwrite existing plaintext"))
            else if is_some (d.sinks folder (lit ".versum"))
            then (d, seal_error (lit "refusing to overwrite existing plaintext"))
            else if is_some (d.sinks folder (lit "grounding"))
            then (d, seal_error (lit "refusing to overwrite existing plaintext"))
            else unseal_verified e pass folder name blob (pending_markers e folder d) d
      ]
