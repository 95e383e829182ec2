-- ===== src/Seal/Envelope.antt =====
-- seal.py: the sealed blob, and single encrypted records. scrypt, AES-GCM, base64, JSON and the
-- hashes of loomground_workspace are parameters; JSON is written in ASCII, so that its text and its
-- bytes are one. Salts and nonces are arguments.
use loomground_lock.Prelude.{ℕ, Bool, true, false, not, Option, none, some, ◌++◌, if◌then◌else◌}
use loomground_lock.Text.{Text, lit, ◌==◌, drop, is_blank}
use loomground_lock.Text.Regex.{take}
use loomground_lock.Value.{Value, Fields, str, num, bool, obj, end, entry, lookup}

pub record Primitives : Type 0 where
  -- `hashlib.scrypt(passphrase, salt=, n=, r=, p=, dklen=32)`; `none` is a `ValueError`
  pub scrypt : Text → Text → ℕ → ℕ → ℕ → Option Text
  -- `AESGCM(key).encrypt(nonce, plaintext, aad)`
  pub encrypt : Text → Text → Text → Text → Text
  -- `AESGCM(key).decrypt(nonce, ct, aad)`; `none` is `InvalidTag`
  pub decrypt : Text → Text → Text → Text → Option Text
  pub b64encode : Text → Text
  -- `none` is `binascii.Error`
  pub b64decode : Text → Option Text
  pub dumps : Value → Text
  -- `none` is `JSONDecodeError`
  pub loads : Text → Option Value
  -- of the folder's path
  pub folder_hash : Text → Text
  pub legacy_folder_hash : Text → Text

-- What an operation gives: a value, a `SealError`, or another exception by its class.
pub data Outcome (A : Type 0) : Type 0 where
  ok : A → Outcome A
  seal_error : Text → Outcome A
  crashed : Text → Outcome A

infixl 5 ◌>>=◌
abbrev pub ◌>>=◌ : {A B : Type 0} → Outcome A → (A → Outcome B) → Outcome B
ok a >>= f = f a
seal_error m >>= f = seal_error m
crashed c >>= f = crashed c

unfoldable pub or_crash : {A : Type 0} → Text → Option A → Outcome A
or_crash name none = crashed name
or_crash name (some a) = ok a

unfoldable pub or_seal_error : {A : Type 0} → Text → Option A → Outcome A
or_seal_error message none = seal_error message
or_seal_error message (some a) = ok a

-- `envelope[k]`
unfoldable pub required : Text → Fields → Outcome Value
unfolding or_crash
required k d = or_crash (lit "KeyError") (lookup k d)

-- A value that must be a dict, since the code calls `.get` of it.
unfoldable pub as_dict : Value → Outcome Fields
as_dict (obj d) = ok d
as_dict _ = crashed (lit "AttributeError")

-- `envelope.get(k, default)`, as scrypt takes it
unfoldable pub cost : Text → ℕ → Fields → Outcome ℕ
cost k default d = elim (lookup k d) [
  | none ↦ ok default
  | some (num n) ↦ ok n
  | some (bool true) ↦ ok 1
  | some (bool false) ↦ ok 0
  | some _ ↦ crashed (lit "TypeError")
]

-- `manifest.get("files", {})`, which must be a dict, since the code calls `.items` of it
unfoldable pub files_of : Fields → Outcome Fields
unfolding as_dict
files_of d = elim (lookup (lit "files") d) [ none ↦ ok end | some v ↦ as_dict v ]

unfoldable pub is_magic : Option Value → Bool
is_magic (some (str s)) = s == lit "workspace-seal"
is_magic _ = false

-- `.get("files", {})` of the manifest
unfoldable pub files_and_key : Outcome (Value × Text) → Outcome (Fields × Text)
unfolding as_dict files_of
files_and_key opened = do
  (m, key) ← opened
  manifest ← as_dict m
  files ← files_of manifest
  ok (files, key)

-- The key that a caller brings: a passphrase, or one that has been derived before.
pub data KeySource : Type 0 where
  passphrase : Text → KeySource
  derived : Text → KeySource

module _ (p : Primitives) where
  -- `base64.b64decode(v)`
  unfoldable pub decoded : Value → Outcome Text
  unfolding or_crash
  decoded (str s) = or_crash (lit "binascii.Error") (p.b64decode s)
  decoded _ = crashed (lit "TypeError")

  -- `_derive_key(passphrase, salt)`, with the module's costs
  unfoldable pub derive_key : Text → Text → Option Text
  derive_key pass salt = p.scrypt pass salt 16384 8 1

  unfoldable pub envelope_fields : Text → Text → Text → Fields
  envelope_fields salt nonce ct = entry (lit "magic") (str (lit "workspace-seal")) (
      entry (lit "v") (num 1) (
        entry (lit "kdf") (str (lit "scrypt")) (
          entry (lit "n") (num 16384) (
            entry (lit "r") (num 8) (
              entry (lit "p") (num 1) (
                entry (lit "salt") (str (p.b64encode salt)) (
                  entry (lit "nonce") (str (p.b64encode nonce))
                    (entry (lit "ct") (str (p.b64encode ct)) end))))))))

  -- The blob of `seal_folder`, of the manifest's files.
  unfoldable pub make_blob : Text → Text → Text → Text → Fields → Text
  make_blob key salt nonce aad files = p.dumps (
      obj (
        envelope_fields salt nonce
          (p.encrypt key nonce (p.dumps (obj (entry (lit "files") (obj files) end))) aad)))

  -- The key of an envelope, of a passphrase with the costs that it states.
  unfoldable pub key_of : KeySource → Text → Fields → Outcome Text
  unfolding cost or_crash
  key_of (derived key) salt d = ok key
  key_of (passphrase pass) salt d =
      if is_blank pass then seal_error (lit "a passphrase or key is required") else do
        n ← cost (lit "n") 16384 d
        r ← cost (lit "r") 8 d
        q ← cost (lit "p") 1 d
        or_crash (lit "ValueError") (p.scrypt pass salt n r q)

  -- The decryption, and the JSON of the manifest with the key. The message is that of a failed
  -- decryption.
  unfoldable pub open_payload : Text → Text → Text → Text → Text → Outcome (Value × Text)
  unfolding or_crash or_seal_error
  open_payload message aad key nonce ct = do
    plaintext ← or_seal_error message (p.decrypt key nonce ct aad)
    m ← or_crash (lit "JSONDecodeError") (p.loads plaintext)
    ok (m, key)

  -- The salt, the nonce and the ciphertext of an envelope.
  unfoldable pub envelope_parts : Fields → Outcome (Text × Text × Text)
  unfolding required decoded is_magic
  envelope_parts d = do
    magic ←
        if is_magic (lookup (lit "magic") d)
        then ok d
        else seal_error (lit "not a Workspace seal file")
    salt64 ← required (lit "salt") d
    salt ← decoded salt64
    nonce64 ← required (lit "nonce") d
    nonce ← decoded nonce64
    ct64 ← required (lit "ct") d
    ct ← decoded ct64
    ok (salt, nonce, ct)

  unfoldable pub open_fields : Text → Text → KeySource → Fields → Outcome (Value × Text)
  unfolding envelope_parts key_of open_payload
  open_fields message aad source d = do
    (salt, nonce, ct) ← envelope_parts d
    key ← key_of source salt d
    open_payload message aad key nonce ct

  -- What `unseal_folder` and `_open_sealed` share, from the text of the blob.
  unfoldable pub open_envelope : Text → Text → Text → KeySource → Outcome (Value × Text)
  unfolding or_crash as_dict open_fields
  open_envelope message blob aad source = do
    v ← or_crash (lit "JSONDecodeError") (p.loads blob)
    d ← as_dict v
    open_fields message aad source d

  -- `_open_sealed(sealed, aad_name, ...)`, of the text of the blob
  unfoldable pub open_sealed : Text → Text → KeySource → Outcome (Fields × Text)
  unfolding open_envelope files_and_key
  open_sealed blob aad source =
      files_and_key (open_envelope (lit "wrong passphrase or corrupted seal") blob aad source)

  -- `encrypt_record(plaintext, passphrase=, folder=)`
  unfoldable pub encrypt_record : Text → Text → Text → Text → Text → Outcome Text
  unfolding derive_key or_crash
  encrypt_record salt nonce plaintext pass folder = do
    key ← or_crash (lit "ValueError") (derive_key pass salt)
    ok (lit "RVEC1" ++ (salt ++ (nonce ++ p.encrypt key nonce plaintext (p.folder_hash folder))))

  -- `decrypt_record(blob, passphrase=, folder=)`
  unfoldable pub decrypt_record : Text → Text → Text → Outcome Text
  unfolding derive_key or_crash or_seal_error
  decrypt_record blob pass folder =
      if not (take 5 blob == lit "RVEC1") then seal_error (lit "not an encrypted record") else do
        key ← or_crash (lit "ValueError") (derive_key pass (take 16 (drop 5 blob)))
        or_seal_error (lit "record decryption failed")
            (p.decrypt key (take 12 (drop 21 blob)) (drop 33 blob) (p.folder_hash folder))
