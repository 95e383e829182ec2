-- ===== src/Seal/Sealed.antt =====
-- seal.py: the disk after a seal, and opening the blob again.
use loomground_lock.Prelude.{
  ◌≡◌, ◌≢◌, ◌⊎◌, inl, inr, Option-cases, refl, ap, ◌∙◌, true, Option, none, some, List,
}
use loomground_lock.Text.{Text, lit, ◌==◌, member}
use loomground_lock.Value.{Value, Fields, obj, end, entry, keys, lookup}
use loomground_lock.Seal.Disk.{Tree, Disk, update, apply_step, run_steps, touch_file, on_tree}
use loomground_lock.Seal.Disk.Laws.{run_steps-append, update_self, update_twice}
use loomground_lock.Seal.Disk.Runs.{remove_log-run}
use loomground_lock.Seal.Envelope.{
  Primitives, ok, seal_error, ◌>>=◌, or_crash, or_seal_error, required, as_dict, is_magic,
  KeySource, decoded, key_of, envelope_fields, make_blob, open_payload, envelope_parts, open_fields,
  open_envelope,
}
use loomground_lock.Seal.Folder.{remove_log, remove_sinks, snapshot, seal_steps}
use loomground_lock.Seal.Reliable.{Reliable, Authentic, well_keyed}
use loomground_lock.Seal.Sinks.{clear, remove_sinks-run}

-- The disk that a seal leaves, of the blob.
unfoldable pub sealed_disk : Text → Text → Text → List (Text × Tree) → Disk → Disk
unfolding update clear
sealed_disk name folder blob sinks d = record d {
  logs = update name none d.logs;
  blobs = update name (some blob) d.blobs;
  temps = update name none d.temps;
  sinks = clear folder sinks d.sinks;
}

pub same_disk :
    {f f' : Text → Option Tree} {b b' t t' : Text → Option Text} {s : Text → Text → Option Tree}
    → f ≡ f'
    → b ≡ b'
    → t ≡ t'
    → Path Disk
        (record { logs = f; blobs = b; temps = t; sinks = s })
        (record { logs = f'; blobs = b'; temps = t'; sinks = s })
same_disk = cc

module _ (p : Primitives) (key salt nonce folder name : Text) where
  pub seal_steps-run :
      (t : Tree) (sinks : List (Text × Tree)) (d : Disk)
      → run_steps (seal_steps p key salt nonce folder name t sinks) d
        ≡ sealed_disk name folder (make_blob p key salt nonce name (snapshot p t sinks)) sinks d
  unfolding seal_steps run_steps apply_step sealed_disk
  seal_steps-run t sinks d =
      let blob = make_blob p key salt nonce name (snapshot p t sinks) in
      let log = on_tree (touch_file (lit "events.jsonl")) (d.logs name) in
      run_steps-append (remove_log name t) (remove_sinks folder sinks) _
      ∙ ap (run_steps (remove_sinks folder sinks)) (remove_log-run name t _)
      ∙ remove_sinks-run folder sinks _
      ∙ same_disk (update_twice name log none d.logs)
          (ap (λ (b : Option Text). update name b d.blobs) (update_self name (some blob) d.temps))
          (update_twice name (some blob) none d.temps)

-- The blob of a seal opens with its key, and with the passphrase of its key.
module _ (p : Primitives) (r : Reliable p) (key salt nonce name : Text) (files : Fields) where
  -- The manifest that a seal encrypts.
  abbrev manifest : Value
  manifest = obj (entry (lit "files") (obj files) end)

  abbrev sealed_text : Text
  sealed_text = p.encrypt key nonce (p.dumps manifest) name

  open_payload-encrypt :
      (message : Text)
      → well_keyed manifest ≡ true
      → open_payload p message name key nonce sealed_text ≡ ok (manifest, key)
  unfolding open_payload or_seal_error or_crash
  open_payload-encrypt message wf =
      ap
        (λ (o : Option Text). or_seal_error message o >>= λ plaintext.
          or_crash (lit "JSONDecodeError") (p.loads plaintext) >>= λ m. ok (m, key))
        (r.decrypts key nonce (p.dumps manifest) name)
      ∙ ap (λ (o : Option Value). or_crash (lit "JSONDecodeError") o >>= λ m. ok (m, key))
          (r.parses manifest wf)

  open_fields-payload :
      (message aad other : Text) (source : KeySource)
      → key_of p source salt (envelope_fields p salt nonce sealed_text) ≡ ok other
      → open_fields p message aad source (envelope_fields p salt nonce sealed_text)
        ≡ open_payload p message aad other nonce sealed_text
  unfolding open_fields envelope_parts envelope_fields lookup required decoded or_crash is_magic lit
      ◌==◌
  open_fields-payload message aad other source k =
      rw (r.decodes salt, r.decodes nonce, r.decodes sealed_text, k) refl

  -- Opening the blob comes to decrypting its text with the key that is brought.
  pub open_envelope-payload :
      (message aad other : Text) (source : KeySource)
      → key_of p source salt (envelope_fields p salt nonce sealed_text) ≡ ok other
      → open_envelope p message (make_blob p key salt nonce name files) aad source
        ≡ open_payload p message aad other nonce sealed_text
  unfolding open_envelope make_blob or_crash as_dict well_keyed envelope_fields member keys lit ◌==◌
  open_envelope-payload message aad other source k =
      let outer = r.parses (obj (envelope_fields p salt nonce sealed_text)) refl in
      rw outer (open_fields-payload message aad other source k)

  pub open_envelope-make_blob :
      (message : Text) (source : KeySource)
      → well_keyed manifest ≡ true
      → key_of p source salt (envelope_fields p salt nonce sealed_text) ≡ ok key
      → open_envelope p message (make_blob p key salt nonce name files) name source
        ≡ ok (manifest, key)
  open_envelope-make_blob message source wf k =
      open_envelope-payload message name key source k ∙ open_payload-encrypt message wf

  -- Another key, or another folder's name, does not decrypt it.
  pub open_envelope-refused :
      Authentic p
      → (message aad other : Text) (source : KeySource)
      → key_of p source salt (envelope_fields p salt nonce sealed_text) ≡ ok other
      → (key ≢ other) ⊎ (name ≢ aad)
      → open_envelope p message (make_blob p key salt nonce name files) aad source
        ≡ seal_error message
  unfolding open_payload or_seal_error
  open_envelope-refused au message aad other source k apart =
      let fails : p.decrypt other nonce sealed_text aad ≡ none =
        elim (Option-cases (p.decrypt other nonce sealed_text aad)) [
          | inl e ↦ e
          | inr (q, e) ↦
              let (same_key, same_name) =
                au.authenticates key nonce (p.dumps manifest) name other nonce aad q e in
              elim apart [ inl ne ↦ absurd (ne same_key) | inr ne ↦ absurd (ne same_name) ]
        ] in
      open_envelope-payload message aad other source k ∙ rw fails refl
