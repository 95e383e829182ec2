-- ===== src/Binding/Wall/Served.antt =====
-- seal_binding.py: what is served of a sealed folder after an unlock.
use loomground_lock.Prelude.{
  ◌≡◌, refl, ap, sym, ◌∙◌, ℕ, true, false, some, length, Option-cases, inl, inr,
}
use loomground_lock.Text.{Text, lit, is_blank}
use loomground_lock.Text.Equality.{==_refl}
use loomground_lock.Value.{Value, Fields}
use loomground_lock.Seal.Disk.{Tree, Disk}
use loomground_lock.Seal.Envelope.{
  Primitives, Outcome, ok, seal_error, crashed, ◌>>=◌, or_crash, or_seal_error, as_dict, files_of,
  key_of, KeySource, passphrase, derived, open_payload, envelope_parts, open_fields, open_envelope,
  files_and_key, open_sealed,
}
use loomground_lock.Seal.Folder.{resolve_log_dir, is_sealed}
use loomground_lock.Seal.ReadThrough.{decode_files, store_and_key, open_sealed_store, read_through}
use loomground_lock.Seal.Outcome.{bind_same, bind_inv, ok_inj}
use loomground_lock.Binding.Wall.{
  Session, cached, remember, unlock, unlock_with, serve, serve_sealed,
}

module _ (p : Primitives) where
  -- What decrypts names the key that it was decrypted with.
  open_payload-key :
      (message aad k nonce ct : Text) (x : Value × Text)
      → open_payload p message aad k nonce ct ≡ ok x
      → open_payload p message aad x.1 nonce ct ≡ ok x
  unfolding open_payload
  open_payload-key message aad k nonce ct x h =
      let (plaintext, _, h1) = bind_inv (or_seal_error message (p.decrypt k nonce ct aad)) _ x h in
      let (m, _, h2) = bind_inv (or_crash (lit "JSONDecodeError") (p.loads plaintext)) _ x h1 in
      let same : k ≡ x.1 = ap (λ (y : Value × Text). y.1) (ok_inj h2) in
      ap (λ (y : Text). open_payload p message aad y nonce ct) (sym same) ∙ h

  -- A blob that opens with a passphrase opens with the key that this gave.
  open_fields-derived :
      (message aad pass : Text) (d : Fields) (x : Value × Text)
      → open_fields p message aad (passphrase pass) d ≡ ok x
      → open_fields p message aad (derived x.1) d ≡ ok x
  unfolding open_fields
  open_fields-derived message aad pass d x = bind_same (envelope_parts p d) _ _ x x (λ parts h.
      let (key, _, opens) = bind_inv (key_of p (passphrase pass) parts.0 d) _ x h in
      open_payload-key message aad key parts.1 parts.2 x opens)

  open_envelope-derived :
      (message blob aad pass : Text) (x : Value × Text)
      → open_envelope p message blob aad (passphrase pass) ≡ ok x
      → open_envelope p message blob aad (derived x.1) ≡ ok x
  unfolding open_envelope
  open_envelope-derived message blob aad pass x =
      bind_same (or_crash (lit "JSONDecodeError") (p.loads blob)) _ _ x x
        (λ v. bind_same (as_dict v) _ _ x x (λ d. open_fields-derived message aad pass d x))

  -- The key of a store is that of its blob.
  open_sealed-derived :
      (blob aad pass : Text) (x : Fields × Text)
      → open_sealed p blob aad (passphrase pass) ≡ ok x
      → open_sealed p blob aad (derived x.1) ≡ ok x
  unfolding open_sealed files_and_key
  open_sealed-derived blob aad pass x h =
      let message = lit "wrong passphrase or corrupted seal" in
      let (y, opens, rest) = bind_inv (open_envelope p message blob aad (passphrase pass)) _ x h in
      let (manifest, _, rest1) = bind_inv (as_dict y.0) _ x rest in
      let (files, _, rest2) = bind_inv (files_of manifest) _ x rest1 in
      let same : y.1 ≡ x.1 = ap (λ (z : Fields × Text). z.1) (ok_inj rest2) in
      ap (λ (k : Text). files_and_key (open_envelope p message blob aad (derived k))) (sym same)
      ∙ ap files_and_key (open_envelope-derived message blob aad pass y opens)
      ∙ rest

  open_sealed_store-derived :
      (folder pass : Text) (d : Disk) (x : Tree × Text)
      → open_sealed_store p (passphrase pass) folder d ≡ ok x
      → open_sealed_store p (derived x.1) folder d ≡ ok x
  unfolding open_sealed_store store_and_key
  open_sealed_store-derived folder pass d x =
      let name = resolve_log_dir p d folder in
      bind_same (or_seal_error (lit "not sealed") (d.blobs name)) _ _ x x (λ blob h.
        let (y, opens, rest) = bind_inv (open_sealed p blob name (passphrase pass)) _ x h in
        let (store, _, rest1) = bind_inv (decode_files p y.0) _ x rest in
        let same : y.1 ≡ x.1 = ap (λ (z : Tree × Text). z.1) (ok_inj rest1) in
        ap (λ (k : Text). store_and_key p (open_sealed p blob name (derived k))) (sym same)
        ∙ ap (store_and_key p) (open_sealed-derived blob name pass y opens)
        ∙ rest)

  -- What opens is sealed.
  open_sealed_store-is_sealed :
      (source : KeySource) (folder : Text) (d : Disk) (x : Tree × Text)
      → open_sealed_store p source folder d ≡ ok x
      → is_sealed p d folder ≡ true
  unfolding open_sealed_store is_sealed or_seal_error
  open_sealed_store-is_sealed source folder d x h =
      elim (Option-cases (d.blobs (resolve_log_dir p d folder))) [
        | inl e ↦ cc
        | inr (blob, e) ↦ rw e refl
      ]

  pub cached-remember :
      (name key : Text) (s : Session) → cached name (remember name key s) ≡ some key
  unfolding cached remember
  cached-remember name key s = rw (==_refl name) refl

  pub unlock_with-ok :
      (folder name : Text) (s : Session) (o : Outcome (Tree × Text)) (n : ℕ)
      → (unlock_with p folder name s o).1 ≡ ok n
      → (x : Tree × Text) × (o ≡ ok x)
        × ((unlock_with p folder name s o).0 ≡ remember name x.1 s)
        × (length x.0 ≡ n)
  unfolding unlock_with
  unlock_with-ok folder name s (ok x) n h = (x, refl, refl, ok_inj h)
  unlock_with-ok folder name s (seal_error m) n h = cc
  unlock_with-ok folder name s (crashed c) n h = cc

  serve-cached :
      (folder key : Text) (d : Disk) (s : Session) (x : Tree × Text)
      → is_sealed p d folder ≡ true
      → cached (resolve_log_dir p d folder) s ≡ some key
      → open_sealed_store p (derived key) folder d ≡ ok x
      → serve p folder d s ≡ ok x.0
  unfolding serve serve_sealed
  serve-cached folder key d s x h k opens =
      rw (h, k) (ap (λ (o : Outcome (Tree × Text)). o >>= λ y. ok y.0) opens)

  read_through-opens :
      (folder pass : Text) (d : Disk) (x : Tree × Text)
      → is_blank pass ≡ false
      → open_sealed_store p (passphrase pass) folder d ≡ ok x
      → read_through p pass folder d ≡ ok x.0
  unfolding read_through
  read_through-opens folder pass d x given opens =
      rw given (ap (λ (o : Outcome (Tree × Text)). o >>= λ y. ok y.0) opens)

  -- After an unlock that succeeds with a passphrase that is not empty, serving the folder gives
  -- a store, the one that reading through the seal with the passphrase gives, with as many
  -- files as the unlock has counted.
  pub serve-unlock :
      (folder pass : Text) (d : Disk) (s : Session) (n : ℕ)
      → is_blank pass ≡ false
      → (unlock p folder pass d s).1 ≡ ok n
      → (store : Tree) × (serve p folder d (unlock p folder pass d s).0 ≡ ok store)
        × (read_through p pass folder d ≡ ok store)
        × (length store ≡ n)
  unfolding unlock
  serve-unlock folder pass d s n given h =
      let name = resolve_log_dir p d folder in
      let (x, opens, session, count) =
        unlock_with-ok folder name s (open_sealed_store p (passphrase pass) folder d) n h in
      (
        x.0,
        ap (serve p folder d) session
            ∙ serve-cached folder x.1 d (remember name x.1 s) x
                (open_sealed_store-is_sealed (passphrase pass) folder d x opens)
                (cached-remember name x.1 s) (open_sealed_store-derived folder pass d x opens),
        read_through-opens folder pass d x given opens,
        count,
      )
