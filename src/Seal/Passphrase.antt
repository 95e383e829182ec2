-- ===== src/Seal/Passphrase.antt =====
-- seal.py: the blob and a passphrase that is not the one of the seal.
use loomground_lock.Prelude.{
  ◌≡◌, ◌≢◌, inl, refl, ap, Bool, true, false, some, is_some, List, [], if◌then◌else◌,
}
use loomground_lock.Text.{Text, lit, ◌==◌, is_blank}
use loomground_lock.Value.{Value, Fields, lookup}
use loomground_lock.Seal.Disk.{Disk}
use loomground_lock.Seal.Envelope.{
  Primitives, Outcome, ok, seal_error, crashed, cost, or_crash, or_seal_error, passphrase,
  derive_key, key_of, envelope_fields, open_envelope, files_and_key, open_sealed, make_blob,
}
use loomground_lock.Seal.Folder.{
  Erasure, Unsealed, resolve_log_dir, restore, pending_markers, unseal_verified, unseal_folder,
}
use loomground_lock.Seal.ReadThrough.{store_and_key, open_sealed_store, read_through}
use loomground_lock.Seal.Reliable.{Reliable, Authentic}
use loomground_lock.Seal.Sealed.{open_envelope-refused}

-- An operation that ends in a `SealError` and leaves the disk as it was.
unfoldable pub IsRefused : Disk → Disk × Outcome Unsealed → Type 0
IsRefused d (after, ok u) = ⊥
IsRefused d (after, crashed c) = ⊥
IsRefused d (after, seal_error m) = after ≡ d

if-IsRefused :
    (d : Disk) (b : Bool) (x y : Disk × Outcome Unsealed)
    → IsRefused d x
    → IsRefused d y
    → IsRefused d (if b then x else y)
if-IsRefused d true x y h k = h
if-IsRefused d false x y h k = k

module _ (p : Primitives) (r : Reliable p) (au : Authentic p) (e : Erasure)
    (key salt nonce pass other folder : Text) (files : Fields) (d : Disk)
    (there : d.blobs (resolve_log_dir p d folder)
      ≡ some (make_blob p key salt nonce (resolve_log_dir p d folder) files))
    (given : is_blank pass ≡ false) (derives : derive_key p pass salt ≡ some other)
    (differ : key ≢ other) where
  abbrev name : Text
  name = resolve_log_dir p d folder

  key_of-other :
      (ct : Text) → key_of p (passphrase pass) salt (envelope_fields p salt nonce ct) ≡ ok other
  unfolding key_of envelope_fields cost lookup lit ◌==◌ derive_key or_crash
  key_of-other ct = rw (given, derives) refl

  refused :
      (message : Text)
      → open_envelope p message (make_blob p key salt nonce name files) name (passphrase pass)
        ≡ seal_error message
  refused message =
      open_envelope-refused p r key salt nonce name files au message name other (passphrase pass)
        (key_of-other _) (inl differ)

  store_refused :
      open_sealed_store p (passphrase pass) folder d
      ≡ seal_error (lit "wrong passphrase or corrupted seal")
  unfolding open_sealed_store open_sealed files_and_key store_and_key or_seal_error
  store_refused = rw there (
      ap (λ (o : Outcome (Value × Text)). store_and_key p (files_and_key o))
        (refused (lit "wrong passphrase or corrupted seal")))

  verified-IsRefused :
      (v : Outcome (List Text))
      → v ≡ ok []
      → IsRefused d
          (unseal_verified p e pass folder name (make_blob p key salt nonce name files) v d)
  unfolding unseal_verified restore IsRefused
  verified-IsRefused v h =
      rw (h, refused (lit "wrong passphrase or corrupted seal — nothing restored")) refl

  -- Where the blob of a folder was sealed with a key, a passphrase that is not empty and gives
  -- another key with its salt is refused: unsealing ends in a SealError and changes nothing on
  -- the disk, and reading through the seal fails as well. This is for AES-GCM that
  -- authenticates, base64 and JSON that decode what they encode, and a host that finds no
  -- pending erasures.
  pub wrong_passphrase :
      pending_markers e folder d ≡ ok []
      → IsRefused d (unseal_folder p e pass folder d)
        × (read_through p pass folder d ≡ seal_error (lit "wrong passphrase or corrupted seal"))
  unfolding unseal_folder IsRefused read_through
  wrong_passphrase markers = (
    rw (given, there)
        (if-IsRefused d (is_some (d.logs name)) _ _ refl (
          if-IsRefused d (is_some (d.sinks folder (lit ".versum"))) _ _ refl (
            if-IsRefused d (is_some (d.sinks folder (lit "grounding"))) _ _ refl
              (verified-IsRefused (pending_markers e folder d) markers)))),
    rw (given, store_refused) refl,
  )
