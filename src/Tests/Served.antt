-- ===== src/Tests/Served.antt =====
-- Unlocking and serving at a concrete folder.
use loomground_lock.Prelude.{◌≡◌, refl, none, some, length, [], ◌∷◌}
use loomground_lock.Text.{Text, lit, ◌==◌, has_prefix}
use loomground_lock.Value.{Value, Fields, str, obj, end, entry, lookup}
use loomground_lock.TierM.{truthy, get}
use loomground_lock.Seal.Disk.{Tree, update, file_at}
use loomground_lock.Seal.Envelope.{
  ok, make_blob, open_sealed, open_envelope, open_fields, open_payload, envelope_parts,
  envelope_fields, key_of, cost, or_crash, or_seal_error, required, decoded, as_dict, files_of,
  files_and_key, is_magic,
}
use loomground_lock.Seal.Folder.{resolve_log_dir, is_sealed}
use loomground_lock.Seal.ReadThrough.{read_through, open_sealed_store, store_and_key, decode_files}
use loomground_lock.Binding.Wall.{
  unlock, unlock_with, remember, forget, cached, serve, serve_sealed, plain_store,
}
use loomground_lock.Binding.Wall.Served.{serve-unlock}
use loomground_lock.Binding.Wall.Refines.{
  unlocks, locks, locks_all, names_of, open_names, session_after, session_step, disk_after,
  disk_step, session_after-open_names,
}
use loomground_lock.Binding.Wall.Origin.{PutsIn, serve-origin}
use loomground_lock.Binding.Pairs.{
  Readers, by_text, ◌=?=◌, Pairs, pair_at, read_pairs, store_events, pair_from_event,
  knowledge_records, event_pairs, record_pairs, extra_pair, events_from_bytes, put_pairs, put_pair,
  default_pairs, identified, pair_id, hashed, get_of,
}
use loomground_lock.Binding.Pairs.Latest.{or_else, latest, pair_at-read_pairs}
use loomground_lock.Tests.Codec.{vault}
use loomground_lock.Tests.Vault.{memory, closed}

serve-unlock_example :
    (store : Tree) × (serve vault (lit "f") closed (unlock vault (lit "f") (lit "pw") closed []).0
      ≡ ok store)
    × (read_through vault (lit "pw") (lit "f") closed ≡ ok store)
    × (length store ≡ 1)
unfolding vault unlock unlock_with open_sealed_store store_and_key decode_files open_sealed
    open_envelope open_fields open_payload envelope_parts key_of cost or_crash or_seal_error
    required decoded as_dict files_of files_and_key is_magic make_blob envelope_fields lookup lit
    ◌==◌ update resolve_log_dir
serve-unlock_example = serve-unlock vault (lit "f") (lit "pw") closed [] 1 refl refl

session_after-open_names_example :
    names_of (
      session_after vault
        (unlocks (lit "f") (lit "pw") ∷ locks (lit "f") ∷ locks_all ∷ [])
        closed
        [])
    ≡ open_names vault
        (unlocks (lit "f") (lit "pw") ∷ locks (lit "f") ∷ locks_all ∷ [])
        closed
        (names_of [])
session_after-open_names_example =
    session_after-open_names vault (unlocks (lit "f") (lit "pw") ∷ locks (lit "f") ∷ locks_all ∷ [])
      closed []

serve-origin_example :
    (key : Text) × PutsIn vault
      (unlocks (lit "f") (lit "pw") ∷ [])
      closed
      (resolve_log_dir vault (disk_after (unlocks (lit "f") (lit "pw") ∷ []) closed) (lit "f"))
      key
unfolding vault unlock unlock_with open_sealed_store store_and_key decode_files open_sealed
    open_envelope open_fields open_payload envelope_parts key_of cost or_crash or_seal_error
    required decoded as_dict files_of files_and_key is_magic make_blob envelope_fields lookup lit
    ◌==◌ update resolve_log_dir is_sealed disk_after disk_step session_after session_step remember
    forget cached serve serve_sealed
serve-origin_example =
    serve-origin vault (unlocks (lit "f") (lit "pw") ∷ []) closed (lit "f")
      ((lit "a", lit "x") ∷ []) refl refl

abbrev noted : Text → Fields
noted text = entry (lit "id") (str (lit "p")) (entry (lit "text") (str text) end)

abbrev event : Text → Value
event text = obj (entry (lit "extra") (obj (entry (lit "pair") (obj (noted text)) end)) end)

abbrev readers : Readers
readers = record {
  decode = λ bytes. some bytes;
  events_from_bytes = some (λ raw. event (lit "old") ∷ event (lit "new") ∷ []);
  pair_from_event = none;
  read_served = none;
  read_disk = none;
}

pair_at-read_pairs_example :
    (store : Tree) × (written : Pairs) × (known : Pairs) × (serve vault
        (lit "f")
        (memory (lit "h-f"))
        []
      ≡ ok store)
    × (event_pairs (pair_from_event vault readers) (store_events vault readers store) ≡ ok written)
    × (record_pairs (knowledge_records vault readers (lit "f") store) ≡ ok known)
    × (pair_at (by_text (lit "p")) ((by_text (lit "p"), noted (lit "new")) ∷ [])
        ≡ or_else (latest (by_text (lit "p")) written) (pair_at (by_text (lit "p")) known))
unfolding vault read_pairs serve plain_store store_events pair_from_event knowledge_records
    event_pairs record_pairs extra_pair events_from_bytes put_pairs put_pair default_pairs
    identified pair_id hashed get_of truthy get lookup lit ◌==◌ update resolve_log_dir is_sealed
    file_at has_prefix ◌=?=◌
pair_at-read_pairs_example =
    pair_at-read_pairs vault readers (lit "f") (memory (lit "h-f")) []
      ((by_text (lit "p"), noted (lit "new")) ∷ []) (by_text (lit "p")) refl
