-- ===== src/Seal/ReadThrough.antt =====
-- seal.py: reading a folder while it is sealed.
use loomground_lock.Prelude.{[], ◌∷◌, if◌then◌else◌}
use loomground_lock.Text.{Text, lit, is_blank}
use loomground_lock.Value.{Fields, end, entry}
use loomground_lock.Seal.Disk.{Tree, Disk, file_at}
use loomground_lock.Seal.Envelope.{
  Primitives, Outcome, ok, seal_error, ◌>>=◌, or_seal_error, KeySource, passphrase, decoded,
  open_sealed,
}
use loomground_lock.Seal.Folder.{resolve_log_dir}

module _ (p : Primitives) where
  -- `{rel: base64.b64decode(b64) for rel, b64 in files.items()}`
  unfoldable pub decode_files : Fields → Outcome Tree
  decode_files end = ok []
  decode_files (entry rel v files) = do
    content ← decoded p v
    rest ← decode_files files
    ok ((rel, content) ∷ rest)

  unfoldable pub store_and_key : Outcome (Fields × Text) → Outcome (Tree × Text)
  unfolding decode_files
  store_and_key opened = do (files, key) ← opened; store ← decode_files files; ok (store, key)

  -- `open_sealed_store(folder, passphrase=, key=)`
  unfoldable pub open_sealed_store : KeySource → Text → Disk → Outcome (Tree × Text)
  unfolding resolve_log_dir store_and_key or_seal_error
  open_sealed_store source folder d = do
    blob ← or_seal_error (lit "not sealed") (d.blobs (resolve_log_dir p d folder))
    store_and_key (open_sealed p blob (resolve_log_dir p d folder) source)

  -- `read_through(folder, passphrase=)`
  unfoldable pub read_through : Text → Text → Disk → Outcome Tree
  unfolding open_sealed_store
  read_through pass folder d =
      if is_blank pass
      then seal_error (lit "a passphrase is required to read through a sealed workspace")
      else do (store, key) ← open_sealed_store (passphrase pass) folder d; ok store

  -- `read_through_file(folder, relpath, passphrase=)`
  unfoldable pub read_through_file : Text → Text → Text → Disk → Outcome Text
  unfolding read_through or_seal_error
  read_through_file pass folder rel d = do
    store ← read_through pass folder d
    or_seal_error (lit "not in the sealed store") (file_at rel store)
