-- ===== src/Seal/Restored.antt =====
-- seal.py: an unseal of a blob that opens, and the disk that it leaves.
use loomground_lock.Prelude.{
  ◌≡◌, refl, ap, ◌∙◌, ℕ, true, false, Option, none, some, List, [], ◌∷◌, ◌++◌, arith,
}
use loomground_lock.Text.{Text, lit, ◌==◌, has_prefix, is_blank}
use loomground_lock.Text.Equality.{==_iff}
use loomground_lock.Value.{Value, Fields, obj, end, entry, lookup}
use loomground_lock.Seal.Disk.{
  Tree, Disk, DiskStep, update, apply_step, run_steps, touch_file, file_at, make_log_dir,
  unlink_blob,
}
use loomground_lock.Seal.Disk.Laws.{
  run_steps-append, update_self, update_twice, update_same, file_at-append,
}
use loomground_lock.Seal.Disk.Runs.{distinct_paths, log_writes, log_writes-run}
use loomground_lock.Seal.Envelope.{
  Primitives, Outcome, ok, as_dict, files_of, passphrase, open_envelope,
}
use loomground_lock.Seal.Folder.{
  Erasure, sink_prefix, resolve_log_dir, unseal_folder, restore, restore_files, finish,
  unseal_verified, restore_steps, pending_markers, apply_erasure,
}
use loomground_lock.Seal.Pack.{plain_paths, sinks_writes}
use loomground_lock.Seal.Sinks.{StandIn, sinks_writes-clear}
use loomground_lock.Seal.Sealed.{sealed_disk, same_disk}

-- The log directory of a folder that has none under the legacy name.
pub resolve_log_dir-primary :
    (p : Primitives) (d : Disk) (folder : Text)
    → d.logs (p.legacy_folder_hash folder) ≡ none
    → resolve_log_dir p d folder ≡ p.folder_hash folder
unfolding resolve_log_dir
resolve_log_dir-primary p d folder h = ground arith

-- `a+` on events.jsonl keeps the paths distinct, and plain.
distinct_paths-new :
    (r : Text) (t : Tree)
    → file_at r t ≡ none
    → distinct_paths t ≡ true
    → distinct_paths (t ++ (r, []) ∷ []) ≡ true
unfolding distinct_paths file_at
distinct_paths-new r [] h k = refl
distinct_paths-new r ((j, c) ∷ t) h k =
    ground
      (arith, distinct_paths-new r t, file_at-append j t ((r, []) ∷ []), ==_iff j r, ==_iff r j)

plain_paths-new :
    (r : Text) (t : Tree)
    → has_prefix sink_prefix r ≡ false
    → plain_paths t ≡ true
    → plain_paths (t ++ (r, []) ∷ []) ≡ true
unfolding plain_paths
plain_paths-new r [] h k = ground arith
plain_paths-new r ((j, c) ∷ t) h k = ground (arith, plain_paths-new r t)

abbrev pub events : Text
events = lit "events.jsonl"

not_sink_path : has_prefix sink_prefix events ≡ false
unfolding has_prefix lit
not_sink_path = refl

pub touch_file-distinct :
    (t : Tree) → distinct_paths t ≡ true → distinct_paths (touch_file events t) ≡ true
unfolding touch_file
touch_file-distinct t h = ground (arith, distinct_paths-new events t)

pub touch_file-plain : (t : Tree) → plain_paths t ≡ true → plain_paths (touch_file events t) ≡ true
unfolding touch_file
touch_file-plain t h =
    let other : has_prefix sink_prefix events ≡ false = not_sink_path in
    ground (arith, plain_paths-new events t)

-- The writes of an unseal on the disk that a seal has left, and the removal of the blob.
pub restored :
    (name folder blob : Text) (t : Tree) (sinks : List (Text × Tree)) (d : Disk)
    → distinct_paths t ≡ true
    → StandIn folder d.sinks sinks
    → d.blobs name ≡ none
    → d.temps name ≡ none
    → run_steps
        (make_log_dir name
          ∷ ((log_writes name t ++ sinks_writes folder sinks) ++ unlink_blob name ∷ []))
        (sealed_disk name folder blob sinks d)
      ≡ record d { logs = update name (some t) d.logs }
unfolding run_steps apply_step sealed_disk
restored name folder blob t sinks d k stand nb nt =
    let writes = log_writes name t in
    let back = sinks_writes folder sinks in
    let written : Disk = record (sealed_disk name folder blob sinks d) {
      logs = update name (some t) d.logs;
    } in
    run_steps-append (writes ++ back) (unlink_blob name ∷ []) _
    ∙ ap (run_steps (unlink_blob name ∷ [])) (
        run_steps-append writes back _
        ∙ ap (run_steps back) (
            log_writes-run name [] t _ (update_self name (some []) (update name none d.logs)) k
            ∙ ap (λ (f : Text → Option Tree). record written { logs = f })
                (update_twice name (some []) (some t) (update name none d.logs)
                  ∙ update_twice name none (some t) d.logs))
        ∙ sinks_writes-clear folder sinks written d.sinks stand refl)
    ∙ same_disk refl (update_twice name (some blob) none d.blobs ∙ update_same name none d.blobs nb)
        (update_same name none d.temps nt)

pending_markers-unwired :
    (e : Erasure) (folder : Text) (d : Disk) → e.verify ≡ none → pending_markers e folder d ≡ ok []
unfolding pending_markers
pending_markers-unwired e folder d h = rw h refl

-- An unseal of a blob that opens restores its manifest.
pub unseal_folder-opens :
    (p : Primitives) (e : Erasure) (pass folder name blob key : Text) (m : Value) (d : Disk)
    → resolve_log_dir p d folder ≡ name
    → is_blank pass ≡ false
    → d.blobs name ≡ some blob
    → d.logs name ≡ none
    → d.sinks folder (lit ".versum") ≡ none
    → d.sinks folder (lit "grounding") ≡ none
    → e.verify ≡ none
    → open_envelope p
        (lit "wrong passphrase or corrupted seal — nothing restored")
        blob
        name
        (passphrase pass)
      ≡ ok (m, key)
    → unseal_folder p e pass folder d ≡ restore p e name folder [] (ok (m, key)) d
unfolding unseal_folder pending_markers unseal_verified
unseal_folder-opens p e pass folder name blob key m d h b blob_there no_log no_v no_g no_hook
      opens =
    rw (unseal_folder, h, b, blob_there, h, no_log, no_v, no_g)
      (ap (λ (o : Outcome (List Text)). unseal_verified p e pass folder name blob o d)
          (pending_markers-unwired e folder d no_hook)
        ∙ ap (λ (o : Outcome (Value × Text)). restore p e name folder [] o d) opens)

-- The files of a manifest that decode are all written before the blob is removed.
pub restore-files :
    (p : Primitives) (e : Erasure) (name folder : Text) (files : Fields) (key : Text) (n : ℕ)
    (ss : List DiskStep) (d : Disk)
    → restore_steps p name folder files ≡ (ss, ok n)
    → restore p e name folder [] (ok (obj (entry (lit "files") (obj files) end), key)) d ≡ (
      run_steps (make_log_dir name ∷ (ss ++ unlink_blob name ∷ [])) d,
      ok (record { files_restored = n; pending_erase_applied = none }),
    )
unfolding restore restore_files finish as_dict files_of lookup lit ◌==◌ apply_erasure
restore-files p e name folder files key n ss d h =
    ap (λ (x : List DiskStep × Outcome ℕ). finish e name folder [] x d) h
