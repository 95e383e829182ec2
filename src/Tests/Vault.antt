-- ===== src/Tests/Vault.antt =====
-- Sealing and unsealing at a concrete folder.
use loomground_lock.Prelude.{
  ◌≡◌, ◌≢◌, ap, ◌⊎◌, refl, all, ℕ, true, false, none, some, length, [], ◌∷◌,
}
use loomground_lock.Text.{Text, lit, ◌==◌, has_prefix, member, contains}
use loomground_lock.Seal.Sealed.{open_envelope-make_blob}
use loomground_lock.Seal.Reliable.{well_keyed}
use loomground_lock.Value.{Value, Fields, str, obj, end, entry, keys, lookup}
use loomground_lock.Seal.Disk.{Tree, Disk, update, update_sink, touch_file, file_at, run_steps}
use loomground_lock.Seal.Disk.Runs.{distinct_paths}
use loomground_lock.Seal.Envelope.{
  Outcome, ok, seal_error, derive_key, make_blob, passphrase, open_envelope, key_of,
  envelope_fields, cost, or_crash, ◌>>=◌, as_dict, files_of,
}
use loomground_lock.Seal.Folder.{
  Erasure, seal_folder, unseal_folder, snapshot, existing_sinks, resolve_log_dir, is_sealed,
  seal_steps, pending_markers,
}
use loomground_lock.Seal.ReadThrough.{read_through}
use loomground_lock.Seal.Pack.{plain_paths}
use loomground_lock.Seal.Sinks.{sound_sink}
use loomground_lock.Seal.Restored.{events}
use loomground_lock.Seal.RoundTrip.{unseal_folder-seal_folder}
use loomground_lock.Seal.Crash.{seal_steps-crash, HasPlaintext, take}
use loomground_lock.Seal.Refused.{
  unseal_folder-BlobsAfter, BlobsAfter, stays_home, manifest_paths, paths_of,
}
use loomground_lock.Seal.Passphrase.{wrong_passphrase, IsRefused}
use loomground_lock.Seal.Legacy.{legacy_seal_is_lost}
use loomground_lock.Tests.Codec.{vault, vault-Reliable, vault-Authentic}

abbrev pub files : Tree
files = (lit "events.jsonl", lit "e") ∷ (lit "a", lit "x") ∷ []

abbrev pub memory : Text → Disk
memory name = record {
  logs = update name (some files) (λ n. none);
  blobs = λ n. none;
  temps = λ n. none;
  sinks = update_sink (lit "f") (lit ".versum") (some ((lit "k", lit "v") ∷ [])) (λ folder s. none);
}

abbrev no_hooks : Erasure
no_hooks = record { verify = none; applies = none }

unseal_folder-seal_folder_example :
    unseal_folder vault no_hooks
      (lit "pw")
      (lit "f")
      (seal_folder vault (lit "s") (lit "n") (lit "pw") (lit "f") (memory (lit "h-f"))).0
    ≡ (
      record (memory (lit "h-f")) {
        logs = update (lit "h-f") (some (touch_file events files)) (memory (lit "h-f")).logs;
      },
      ok (record {
        files_restored = length (
            keys (
              snapshot vault
                (touch_file events files)
                (existing_sinks (memory (lit "h-f")) (lit "f"))));
        pending_erase_applied = none;
      }),
    )
unfolding vault derive_key update update_sink lit ◌==◌ distinct_paths plain_paths has_prefix
    sound_sink file_at
unseal_folder-seal_folder_example =
    unseal_folder-seal_folder vault (lit "s") (lit "n") (lit "pw") (lit "f") (lit "pws")
      (memory (lit "h-f")) files refl refl refl refl refl vault-Reliable refl refl refl refl
      no_hooks refl refl

seal_steps-crash_example :
    let t : Tree = touch_file events files in
    let after =
      run_steps
        (take 4 (
          seal_steps vault
            (lit "pws")
            (lit "s")
            (lit "n")
            (lit "f")
            (lit "h-f")
            t
            (existing_sinks (memory (lit "h-f")) (lit "f"))))
        (memory (lit "h-f")) in
    HasPlaintext (lit "h-f") (lit "f") (memory (lit "h-f")) after
    ⊎ (after.blobs (lit "h-f")
        ≡ some (
            make_blob vault
              (lit "pws")
              (lit "s")
              (lit "n")
              (lit "h-f")
              (snapshot vault t (existing_sinks (memory (lit "h-f")) (lit "f")))))
seal_steps-crash_example =
    seal_steps-crash vault (lit "pws") (lit "s") (lit "n") (lit "f") (lit "h-f")
      (touch_file events files) (existing_sinks (memory (lit "h-f")) (lit "f")) (memory (lit "h-f"))
      4

abbrev pub one_file : Fields
one_file = entry (lit "a") (str (lit "x")) end

-- A disk with a blob, and nothing else.
abbrev pub closed : Disk
closed = record (memory (lit "h-f")) {
  logs = λ n. none;
  blobs =
      update (lit "h-f")
        (some (make_blob vault (lit "pws") (lit "s") (lit "n") (lit "h-f") one_file)) (λ n. none);
}

-- The passphrase gives the key of the blob, and the blob the manifest.
closed_opens :
    (message : Text)
    → open_envelope vault message
        (make_blob vault (lit "pws") (lit "s") (lit "n") (lit "h-f") one_file)
        (lit "h-f")
        (passphrase (lit "pw"))
      ≡ ok (obj (entry (lit "files") (obj one_file) end), lit "pws")
unfolding vault key_of envelope_fields cost lookup lit ◌==◌ derive_key or_crash well_keyed member
    keys
closed_opens message =
    open_envelope-make_blob vault vault-Reliable (lit "pws") (lit "s") (lit "n") (lit "h-f")
      one_file message (passphrase (lit "pw")) refl refl

closed_paths :
    let name = resolve_log_dir vault closed (lit "f") in
    all stays_home (manifest_paths vault (lit "pw") name (closed.blobs name)) ≡ true
unfolding vault resolve_log_dir update lit ◌==◌ as_dict files_of lookup keys has_prefix contains
closed_paths =
    ap
      (λ (o : Outcome (Value × Text)).
        all stays_home (paths_of (o >>= λ (x : Value × Text). as_dict x.0 >>= files_of)))
      (closed_opens (lit "wrong passphrase or corrupted seal — nothing restored"))

unseal_folder-BlobsAfter_example :
    BlobsAfter
      (resolve_log_dir vault closed (lit "f"))
      closed
      (unseal_folder vault no_hooks (lit "pw") (lit "f") closed)
unseal_folder-BlobsAfter_example =
    unseal_folder-BlobsAfter vault no_hooks (lit "pw") (lit "f") closed refl closed_paths

truth_differs : true ≡ false → ⊥
truth_differs h = cc

keys_differ : lit "pws" ≢ lit "nos"
unfolding lit ◌==◌
keys_differ h = truth_differs (ap (λ (t : Text). t == lit "pws") h)

wrong_passphrase_example :
    IsRefused closed (unseal_folder vault no_hooks (lit "no") (lit "f") closed)
    × (read_through vault (lit "no") (lit "f") closed
        ≡ seal_error (lit "wrong passphrase or corrupted seal"))
unfolding vault resolve_log_dir update lit ◌==◌ derive_key pending_markers
wrong_passphrase_example =
    wrong_passphrase vault vault-Reliable vault-Authentic no_hooks (lit "pws") (lit "s") (lit "n")
      (lit "no") (lit "nos") (lit "f") one_file closed refl refl refl keys_differ refl

legacy_seal_is_lost_example :
    let (sealed, outcome) =
      seal_folder vault (lit "s") (lit "n") (lit "pw") (lit "f") (memory (lit "l-f")) in
    ((n : ℕ) × (outcome ≡ ok n))
    × (sealed.logs (vault.legacy_folder_hash (lit "f")) ≡ none)
    × (is_sealed vault sealed (lit "f") ≡ false)
    × (unseal_folder vault no_hooks (lit "pw") (lit "f") sealed
        ≡ (sealed, seal_error (lit "not sealed")))
unfolding vault derive_key update lit ◌==◌
legacy_seal_is_lost_example =
    legacy_seal_is_lost vault no_hooks (lit "s") (lit "n") (lit "pw") (lit "f") (lit "pws")
      (memory (lit "l-f")) files refl refl refl refl refl (refl, refl)
