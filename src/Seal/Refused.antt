-- ===== src/Seal/Refused.antt =====
-- seal.py: unseals that fail.
use loomground_lock.Prelude.{
  ◌≡◌, inl, inr, refl, ap, ◌∙◌, ℕ, Bool, true, false, none, some, not, ◌&&◌, ◌||◌, Option, length,
  is_some, List, [], ◌∷◌, ◌++◌, all, Option-cases, if◌then◌else◌,
}
use loomground_lock.Text.{Text, lit, is_blank, has_prefix, contains, drop}
use loomground_lock.Value.{Value, Fields, keys}
use loomground_lock.Seal.Disk.{
  Disk, DiskStep, update, apply_step, run_steps, make_log_dir, unlink_blob,
}
use loomground_lock.Seal.Disk.Laws.{run_steps-blobs, run_steps-append, keeps_blobs}
use loomground_lock.Seal.Envelope.{
  Primitives, Outcome, ok, seal_error, crashed, ◌>>=◌, as_dict, files_of, passphrase, open_envelope,
}
use loomground_lock.Seal.Folder.{
  sink_prefix, Erasure, Unsealed, resolve_log_dir, restore_steps, restore, restore_files, finish,
  unseal_verified, apply_hook, pending_markers, unseal_folder,
}
use loomground_lock.Seal.Crash.{restore_steps-keeps}

-- What an unseal leaves of the blobs: all of them where it fails, and all but the folder's own
-- where it succeeds.
unfoldable pub BlobsAfter : Text → Disk → Disk × Outcome Unsealed → Type 0
BlobsAfter name d (after, ok u) = after.blobs ≡ update name none d.blobs
BlobsAfter name d (after, seal_error m) = after.blobs ≡ d.blobs
BlobsAfter name d (after, crashed c) = after.blobs ≡ d.blobs

unlinked :
    (name : Text) (ss : List DiskStep) (d : Disk)
    → all keeps_blobs ss ≡ true
    → (run_steps (make_log_dir name ∷ (ss ++ unlink_blob name ∷ [])) d).blobs
      ≡ update name none d.blobs
unfolding run_steps apply_step
unlinked name ss d h =
    ap (λ (x : Disk). x.blobs) (run_steps-append (make_log_dir name ∷ ss) (unlink_blob name ∷ []) d)
    ∙ ap (update name none) (run_steps-blobs (make_log_dir name ∷ ss) d h)

apply_hook-BlobsAfter :
    (e : Erasure) (name folder : Text) (markers : List Text) (n : ℕ) (d after : Disk)
    → e.applies ≡ none
    → after.blobs ≡ update name none d.blobs
    → BlobsAfter name d (apply_hook e.applies folder markers n after)
unfolding apply_hook BlobsAfter
apply_hook-BlobsAfter e name folder markers n d after h k = rw h k

finish-BlobsAfter :
    (e : Erasure) (name folder : Text) (markers : List Text) (ss : List DiskStep)
    (count : Outcome ℕ) (d : Disk)
    → e.applies ≡ none
    → all keeps_blobs ss ≡ true
    → BlobsAfter name d (finish e name folder markers (ss, count) d)
unfolding finish BlobsAfter
finish-BlobsAfter e name folder markers ss (seal_error x) d h k =
    run_steps-blobs (make_log_dir name ∷ ss) d k
finish-BlobsAfter e name folder markers ss (crashed c) d h k =
    run_steps-blobs (make_log_dir name ∷ ss) d k
finish-BlobsAfter e name folder [] ss (ok n) d h k = unlinked name ss d k
finish-BlobsAfter e name folder (m ∷ ms) ss (ok n) d h k =
    apply_hook-BlobsAfter e name folder (m ∷ ms) n d _ h (unlinked name ss d k)

files-BlobsAfter :
    (p : Primitives) (e : Erasure) (name folder : Text) (markers : List Text)
    (files : Outcome Fields) (d : Disk)
    → e.applies ≡ none
    → BlobsAfter name d (restore_files p e name folder markers files d)
unfolding restore_files BlobsAfter
files-BlobsAfter p e name folder markers (seal_error x) d h =
    run_steps-blobs (make_log_dir name ∷ []) d refl
files-BlobsAfter p e name folder markers (crashed c) d h =
    run_steps-blobs (make_log_dir name ∷ []) d refl
files-BlobsAfter p e name folder markers (ok files) d h =
    finish-BlobsAfter e name folder markers (restore_steps p name folder files).0 _ d h
      (restore_steps-keeps p name folder files)

restore-BlobsAfter :
    (p : Primitives) (e : Erasure) (name folder : Text) (markers : List Text)
    (opened : Outcome (Value × Text)) (d : Disk)
    → e.applies ≡ none
    → BlobsAfter name d (restore p e name folder markers opened d)
unfolding restore restore_files BlobsAfter
restore-BlobsAfter p e name folder markers (seal_error x) d h = refl
restore-BlobsAfter p e name folder markers (crashed c) d h = refl
restore-BlobsAfter p e name folder markers (ok (m, key)) d h =
    files-BlobsAfter p e name folder markers (as_dict m >>= files_of) d h

verified-BlobsAfter :
    (p : Primitives) (e : Erasure) (pass folder name blob : Text) (v : Outcome (List Text))
    (d : Disk)
    → e.applies ≡ none
    → BlobsAfter name d (unseal_verified p e pass folder name blob v d)
unfolding unseal_verified BlobsAfter
verified-BlobsAfter p e pass folder name blob (seal_error x) d h = refl
verified-BlobsAfter p e pass folder name blob (crashed c) d h = refl
verified-BlobsAfter p e pass folder name blob (ok markers) d h =
    restore-BlobsAfter p e name folder markers _ d h

-- Both sides of a test keep what is asked.
if-BlobsAfter :
    (name : Text) (d : Disk) (b : Bool) (x y : Disk × Outcome Unsealed)
    → BlobsAfter name d x
    → BlobsAfter name d y
    → BlobsAfter name d (if b then x else y)
if-BlobsAfter name d true x y h k = h
if-BlobsAfter name d false x y h k = k

-- A relative path of which no part is "..", so that it stays below the directory it starts from.
abbrev pub stays_below : Text → Bool
stays_below rel =
    not (has_prefix (lit "/") rel || contains (lit "/../") (lit "/" ++ (rel ++ lit "/")))

-- A path of a manifest that goes below the log directory, or below one of the folder's sinks.
abbrev pub stays_home : Text → Bool
stays_home rel =
    if has_prefix sink_prefix rel
    then (let below = drop (length sink_prefix) rel in
        (has_prefix (lit ".versum/") below || has_prefix (lit "grounding/") below)
        && stays_below below)
    else stays_below rel

abbrev pub paths_of : Outcome Fields → List Text
paths_of (ok files) = keys files
paths_of (seal_error m) = []
paths_of (crashed c) = []

-- The paths of the manifest that stands in a blob, where it can be opened.
abbrev pub manifest_paths : Primitives → Text → Text → Option Text → List Text
manifest_paths p pass name none = []
manifest_paths p pass name (some blob) = paths_of (
    open_envelope p (lit "wrong passphrase or corrupted seal — nothing restored") blob name
      (passphrase pass)
    >>= λ (x : Value × Text). as_dict x.0 >>= files_of)

-- When the host has no hook that applies erasures, and every path of the manifest, if the blob can be
-- opened, stays below the log directory or a knowledge sink of the folder: on a disk whose writes and
-- removals succeed, an unseal that raises an error leaves every sealed blob in place, and one that
-- returns removes the folder's own blob and no other.
pub unseal_folder-BlobsAfter :
    (p : Primitives) (e : Erasure) (pass folder : Text) (d : Disk)
    → e.applies ≡ none
    → (let name = resolve_log_dir p d folder in
        all stays_home (manifest_paths p pass name (d.blobs name)) ≡ true)
    → BlobsAfter (resolve_log_dir p d folder) d (unseal_folder p e pass folder d)
unfolding unseal_folder BlobsAfter
unseal_folder-BlobsAfter p e pass folder d h home =
    let name = resolve_log_dir p d folder in
    if-BlobsAfter name d (is_blank pass) _ _ refl (elim (Option-cases (d.blobs name)) [
      | inl k ↦ rw k refl
      | inr (blob, k) ↦ rw k (
          if-BlobsAfter name d (is_some (d.logs name)) _ _ refl (
            if-BlobsAfter name d (is_some (d.sinks folder (lit ".versum"))) _ _ refl (
              if-BlobsAfter name d (is_some (d.sinks folder (lit "grounding"))) _ _ refl
                (verified-BlobsAfter p e pass folder name blob (pending_markers e folder d) d h))))
    ])
