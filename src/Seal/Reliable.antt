-- ===== src/Seal/Reliable.antt =====
-- seal.py: what the sealed blobs rely on in base64, JSON and AES-GCM.
use loomground_lock.Prelude.{◌≡◌, Bool, true, not, ◌&&◌, some}
use loomground_lock.Text.{Text, member}
use loomground_lock.Value.{
  Value, Items, Fields, str, num, bool, null, arr, obj, nil, cons, end, entry, keys,
}
use loomground_lock.Seal.Envelope.{Primitives}

-- A value that Python can build: no dict has a key twice.
unfoldable mutual
  pub well_keyed : Value → Bool
  well_keyed (arr xs) = well_keyed_items xs
  well_keyed (obj d) = well_keyed_fields d
  well_keyed (str s) = true
  well_keyed (num n) = true
  well_keyed (bool b) = true
  well_keyed null = true

  pub well_keyed_items : Items → Bool
  well_keyed_items nil = true
  well_keyed_items (cons x xs) = well_keyed x && well_keyed_items xs

  pub well_keyed_fields : Fields → Bool
  well_keyed_fields end = true
  well_keyed_fields (entry k v d) = not (member k (keys d)) && (well_keyed v && well_keyed_fields d)

-- Base64 and JSON decode what they have encoded, and AES-GCM decrypts what it has encrypted with
-- the same key, nonce and associated data.
pub record Reliable (p : Primitives) : Type 0 where
  pub decodes : (bytes : Text) → p.b64decode (p.b64encode bytes) ≡ some bytes
  pub parses : (v : Value) → well_keyed v ≡ true → p.loads (p.dumps v) ≡ some v
  pub decrypts :
      (key nonce plaintext aad : Text)
      → p.decrypt key nonce (p.encrypt key nonce plaintext aad) aad ≡ some plaintext

-- AES-GCM authenticates: what decrypts was encrypted with that key and that associated data.
pub record Authentic (p : Primitives) : Type 0 where
  pub authenticates :
      (key nonce plaintext aad key' nonce' aad' q : Text)
      → p.decrypt key' nonce' (p.encrypt key nonce plaintext aad) aad' ≡ some q
      → (key ≡ key') × (aad ≡ aad')
