-- ===== src/Seal/RoundTrip.antt =====
-- seal.py: `seal_folder` and then `unseal_folder`, or a read through the seal.
use loomground_lock.Prelude.{
  ◌≡◌, refl, ap, ◌∙◌, ℕ, true, false, none, some, length, List, ◌++◌, arith,
}
use loomground_lock.Text.{Text, lit, ◌==◌, member, is_blank}
use loomground_lock.Value.{obj, end, entry, keys, lookup}
use loomground_lock.Seal.Disk.{Tree, Disk, update, touch_file}
use loomground_lock.Seal.Disk.Laws.{update_self}
use loomground_lock.Seal.Disk.Runs.{distinct_paths, log_writes}
use loomground_lock.Seal.Envelope.{
  Primitives, Outcome, ok, cost, or_crash, passphrase, derive_key, key_of, envelope_fields,
  open_envelope, make_blob,
}
use loomground_lock.Seal.Folder.{Erasure, snapshot, seal_folder, existing_sinks, unseal_folder}
use loomground_lock.Seal.Reliable.{Reliable, well_keyed}
use loomground_lock.Seal.Pack.{plain_paths, sinks_writes, restore_steps-snapshot}
use loomground_lock.Seal.Sinks.{sound_sink}
use loomground_lock.Seal.Sinks.Existing.{
  existing_sinks-StandIn, all-existing_sinks, clear-existing_sinks,
}
use loomground_lock.Seal.Keys.{well_keyed-snapshot}
use loomground_lock.Seal.Sealed.{sealed_disk, seal_steps-run, open_envelope-make_blob}
use loomground_lock.Seal.Restored.{
  resolve_log_dir-primary, events, touch_file-distinct, touch_file-plain, restored,
  unseal_folder-opens, restore-files,
}

module _ (p : Primitives) (salt nonce pass folder key : Text) (d : Disk) (tree : Tree)
    (derives : derive_key p pass salt ≡ some key) (given : is_blank pass ≡ false)
    (log_there : d.logs (p.folder_hash folder) ≡ some tree)
    (no_legacy : d.logs (p.legacy_folder_hash folder) ≡ none)
    (no_blob : d.blobs (p.folder_hash folder) ≡ none) where
  abbrev name : Text
  name = p.folder_hash folder

  abbrev log : Tree
  log = touch_file events tree

  abbrev sinks : List (Text × Tree)
  sinks = existing_sinks d folder

  abbrev blob : Text
  blob = make_blob p key salt nonce name (snapshot p log sinks)

  -- A seal of a folder that is not sealed.
  pub seal_folder-result :
      seal_folder p salt nonce pass folder d
      ≡ (sealed_disk name folder blob sinks d, ok (length (keys (snapshot p log sinks))))
  unfolding seal_folder
  seal_folder-result =
      let h = resolve_log_dir-primary p d folder no_legacy in
      rw (seal_folder, h, given, no_blob, log_there, derives, h)
        (ap (λ (x : Disk). (x, ok (length (keys (snapshot p log sinks)))))
          (seal_steps-run p key salt nonce folder name log sinks d))

  -- The log directory is gone, and none stands under the legacy name.
  gone : update name none d.logs (p.legacy_folder_hash folder) ≡ none
  unfolding update
  gone = ground arith

  -- The passphrase of a seal gives its key again.
  key_of-passphrase :
      (ct : Text) → key_of p (passphrase pass) salt (envelope_fields p salt nonce ct) ≡ ok key
  unfolding key_of envelope_fields cost lookup lit ◌==◌ derive_key or_crash
  key_of-passphrase ct = rw (given, derives) refl

  module _ (r : Reliable p) (apart : distinct_paths tree ≡ true) (plain : plain_paths tree ≡ true)
      (versum : sound_sink (d.sinks folder (lit ".versum")) ≡ true)
      (grounding : sound_sink (d.sinks folder (lit "grounding")) ≡ true) where
    well_keyed-manifest :
        well_keyed (obj (entry (lit "files") (obj (snapshot p log sinks)) end)) ≡ true
    unfolding well_keyed member keys
    well_keyed-manifest =
        rw
          (well_keyed-snapshot p log d folder (touch_file-distinct tree apart)
            (touch_file-plain tree plain) versum grounding)
          refl

    pub open_envelope-sealed :
        (message : Text)
        → open_envelope p message blob name (passphrase pass)
          ≡ ok (obj (entry (lit "files") (obj (snapshot p log sinks)) end), key)
    open_envelope-sealed message =
        open_envelope-make_blob p r key salt nonce name (snapshot p log sinks) message
          (passphrase pass) well_keyed-manifest (key_of-passphrase _)

    -- Sealing a folder and unsealing it with the same passphrase gives the disk as it was,
    -- but for an empty events.jsonl where there was none, and counts the files sealed. This
    -- is for a folder whose memory stands under the folder's own hash, with nothing under the
    -- legacy one and no blob or temporary file; whose paths are distinct, no path of the log
    -- starting with the prefix of the sinks, and no sink being an empty directory; when
    -- base64, JSON and AES-GCM undo what they do, scrypt gives a key for the passphrase,
    -- which is not empty, and no hook verifies erasures.
    pub unseal_folder-seal_folder :
        (e : Erasure)
        → d.temps name ≡ none
        → e.verify ≡ none
        → unseal_folder p e pass folder (seal_folder p salt nonce pass folder d).0 ≡ (
          record d { logs = update name (some log) d.logs },
          ok (record {
            files_restored = length (keys (snapshot p log sinks));
            pending_erase_applied = none;
          }),
        )
    unfolding sealed_disk
    unseal_folder-seal_folder e no_temp no_hook =
        let sealed = sealed_disk name folder blob sinks d in
        let (no_versum, no_grounding) = clear-existing_sinks d folder in
        ap (λ (x : Disk × Outcome ℕ). unseal_folder p e pass folder x.0) seal_folder-result
        ∙ unseal_folder-opens p e pass folder name blob key
            (obj (entry (lit "files") (obj (snapshot p log sinks)) end)) sealed
            (resolve_log_dir-primary p sealed folder gone) given
            (update_self name (some blob) d.blobs) (update_self name none d.logs) no_versum
            no_grounding no_hook
            (open_envelope-sealed (lit "wrong passphrase or corrupted seal — nothing restored"))
        ∙ restore-files p e name folder (snapshot p log sinks) key
            (length (keys (snapshot p log sinks)))
            (log_writes name log ++ sinks_writes folder sinks) sealed
            (restore_steps-snapshot p r name folder log sinks (touch_file-plain tree plain)
              (all-existing_sinks d folder))
        ∙ ap
            (λ (x : Disk). (
              x,
              ok (record {
                files_restored = length (keys (snapshot p log sinks));
                pending_erase_applied = none;
              }),
            ))
            (restored name folder blob log sinks d (touch_file-distinct tree apart)
              (existing_sinks-StandIn d folder versum grounding) no_blob no_temp)
