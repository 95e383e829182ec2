-- ===== src/Seal/Legacy.antt =====
-- seal.py: a folder whose log directory stands under the legacy name only.
use loomground_lock.Prelude.{◌≡◌, refl, ap, ℕ, false, none, some, length, arith}
use loomground_lock.Text.{Text, lit, ◌==◌, is_blank}
use loomground_lock.Value.{keys}
use loomground_lock.Seal.Disk.{Tree, Disk, update, touch_file}
use loomground_lock.Seal.Disk.Laws.{update_self}
use loomground_lock.Seal.Envelope.{Primitives, ok, seal_error, derive_key, make_blob}
use loomground_lock.Seal.Folder.{
  Erasure, resolve_log_dir, is_sealed, existing_sinks, snapshot, seal_folder, unseal_folder,
}
use loomground_lock.Seal.Sealed.{sealed_disk, seal_steps-run}
use loomground_lock.Seal.Restored.{events, resolve_log_dir-primary}

module _ (p : Primitives) where
  not_sealed :
      (d : Disk) (folder : Text)
      → resolve_log_dir p d folder ≡ p.folder_hash folder
      → d.blobs (p.folder_hash folder) ≡ none
      → is_sealed p d folder ≡ false
  unfolding is_sealed
  not_sealed d folder h k = rw (is_sealed, h, k) refl

  unseal_folder-no_blob :
      (e : Erasure) (pass : Text) (d : Disk) (folder : Text)
      → is_blank pass ≡ false
      → resolve_log_dir p d folder ≡ p.folder_hash folder
      → d.blobs (p.folder_hash folder) ≡ none
      → unseal_folder p e pass folder d ≡ (d, seal_error (lit "not sealed"))
  unfolding unseal_folder
  unseal_folder-no_blob e pass d folder given h k = rw (unseal_folder, given, h, k) refl

module _ (p : Primitives) (e : Erasure) (salt nonce pass folder key : Text) (d : Disk) (tree : Tree)
    (derives : derive_key p pass salt ≡ some key) (given : is_blank pass ≡ false)
    (apart : (p.legacy_folder_hash folder == p.folder_hash folder) ≡ false)
    (no_primary : d.logs (p.folder_hash folder) ≡ none)
    (legacy : d.logs (p.legacy_folder_hash folder) ≡ some tree)
    (no_blobs : (d.blobs (p.legacy_folder_hash folder) ≡ none)
      × (d.blobs (p.folder_hash folder) ≡ none)) where
  abbrev name : Text
  name = p.legacy_folder_hash folder

  abbrev after : Disk
  after =
      sealed_disk name folder
        (make_blob p key salt nonce name
          (snapshot p (touch_file events tree) (existing_sinks d folder)))
        (existing_sinks d folder) d

  resolve_before : resolve_log_dir p d folder ≡ name
  unfolding resolve_log_dir
  resolve_before = rw (no_primary, legacy) refl

  -- The blob is named after the legacy directory, but that is gone.
  resolve_after : resolve_log_dir p after folder ≡ p.folder_hash folder
  unfolding sealed_disk
  resolve_after = resolve_log_dir-primary p after folder (update_self name none d.logs)

  seal_result :
      seal_folder p salt nonce pass folder d
      ≡ (after, ok (length (keys (snapshot p (touch_file events tree) (existing_sinks d folder)))))
  unfolding seal_folder
  seal_result =
      rw (seal_folder, resolve_before, given, no_blobs.0, legacy, derives, resolve_before)
        (ap
          (λ (x : Disk).
            (x, ok (length (keys (snapshot p (touch_file events tree) (existing_sinks d folder))))))
          (seal_steps-run p key salt nonce folder name (touch_file events tree)
            (existing_sinks d folder) d))

  no_blob_after : after.blobs (p.folder_hash folder) ≡ none
  unfolding sealed_disk update
  no_blob_after = ground arith

  -- A folder whose memory stands under the legacy hash only, and that has no blob under either
  -- name, is sealed without an error and its log is removed, but afterwards it does not count
  -- as sealed, and unsealing it, with the passphrase of the seal, which is not empty and has a
  -- key, says that it is not sealed.
  pub legacy_seal_is_lost :
      let (sealed, outcome) = seal_folder p salt nonce pass folder d in
      ((n : ℕ) × (outcome ≡ ok n))
      × (sealed.logs (p.legacy_folder_hash folder) ≡ none)
      × (is_sealed p sealed folder ≡ false)
      × (unseal_folder p e pass folder sealed ≡ (sealed, seal_error (lit "not sealed")))
  unfolding sealed_disk
  legacy_seal_is_lost = rw seal_result (
    (length (keys (snapshot p (touch_file events tree) (existing_sinks d folder))), refl),
    update_self name none d.logs,
    not_sealed p after folder resolve_after no_blob_after,
    unseal_folder-no_blob p e pass after folder given resolve_after no_blob_after,
  )
