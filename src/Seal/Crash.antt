-- ===== src/Seal/Crash.antt =====
-- seal.py: a seal and an unseal that stop after any number of their writes.
use loomground_lock.Prelude.{
  ◌≡◌, refl, ap, ◌∙◌, ◌⊎◌, inl, inr, ℕ, zero, suc, Bool, true, ◌&&◌, Option, some, length, List, [],
  ◌∷◌, ◌++◌, all, Bool-cases, Option-cases, arith,
}
use loomground_lock.Text.{Text, lit, has_prefix, drop, split_once}
use loomground_lock.Value.{Fields, end, entry}
use loomground_lock.Seal.Disk.{
  Tree, Disk, DiskStep, apply_step, run_steps, touch_file, on_tree, make_log_dir,
}
use loomground_lock.Seal.Disk.Laws.{run_steps-blobs, keeps_blobs, update_self}
use loomground_lock.Seal.Envelope.{Primitives, Outcome, ok, seal_error, crashed, decoded, make_blob}
use loomground_lock.Seal.Folder.{
  snapshot, seal_steps, remove_log, remove_sink, remove_sinks, restore_steps, write_decoded,
  write_step, sink_prefix,
}

-- `xs[:n]`, of the steps that have been made
abbrev pub take : ℕ → List DiskStep → List DiskStep
take zero xs = []
take (suc n) [] = []
take (suc n) (x ∷ xs) = x ∷ take n xs

all-take :
    (n : ℕ) (xs : List DiskStep) → all keeps_blobs xs ≡ true → all keeps_blobs (take n xs) ≡ true
all-take zero xs h = refl
all-take (suc n) [] h = refl
all-take (suc n) (x ∷ xs) h = ground (arith, all-take n xs)

all-append :
    (xs ys : List DiskStep)
    → all keeps_blobs xs ≡ true
    → all keeps_blobs ys ≡ true
    → all keeps_blobs (xs ++ ys) ≡ true
all-append [] ys h k = k
all-append (x ∷ xs) ys h k = ground (arith, all-append xs ys)

remove_log-keeps : (name : Text) (t : Tree) → all keeps_blobs (remove_log name t) ≡ true
unfolding remove_log
remove_log-keeps name [] = refl
remove_log-keeps name (f ∷ t) = remove_log-keeps name t

remove_sink-keeps : (folder s : Text) (t : Tree) → all keeps_blobs (remove_sink folder s t) ≡ true
unfolding remove_sink
remove_sink-keeps folder s [] = refl
remove_sink-keeps folder s (f ∷ t) = remove_sink-keeps folder s t

remove_sinks-keeps :
    (folder : Text) (sinks : List (Text × Tree))
    → all keeps_blobs (remove_sinks folder sinks) ≡ true
unfolding remove_sinks
remove_sinks-keeps folder [] = refl
remove_sinks-keeps folder ((s, t) ∷ rest) =
    all-append (remove_sink folder s t) (remove_sinks folder rest) (remove_sink-keeps folder s t)
      (remove_sinks-keeps folder rest)

-- The folder's plaintext as it was, but for an empty events.jsonl.
unfoldable pub HasPlaintext : Text → Text → Disk → Disk → Type 0
HasPlaintext name folder d after =
    ((after.logs name ≡ d.logs name)
      ⊎ (after.logs name ≡ on_tree (touch_file (lit "events.jsonl")) (d.logs name)))
    × (after.sinks ≡ d.sinks)

-- After any number of the writes and removals of a seal, either the folder's plaintext is all
-- there, with an empty events.jsonl added at most, or the blob of the whole manifest stands under
-- the folder's name.
pub seal_steps-crash :
    (p : Primitives) (key salt nonce folder name : Text) (t : Tree) (sinks : List (Text × Tree))
    (d : Disk) (n : ℕ)
    → let after = run_steps (take n (seal_steps p key salt nonce folder name t sinks)) d in
      HasPlaintext name folder d after
      ⊎ (after.blobs name ≡ some (make_blob p key salt nonce name (snapshot p t sinks)))
unfolding seal_steps run_steps apply_step HasPlaintext
seal_steps-crash p key salt nonce folder name t sinks d zero = inl (inl refl, refl)
seal_steps-crash p key salt nonce folder name t sinks d (suc zero) =
    inl (inr (update_self name _ d.logs), refl)
seal_steps-crash p key salt nonce folder name t sinks d (suc (suc zero)) =
    inl (inr (update_self name _ d.logs), refl)
seal_steps-crash p key salt nonce folder name t sinks d (suc (suc (suc n))) =
    let blob = make_blob p key salt nonce name (snapshot p t sinks) in
    inr (
      ap (λ (f : Text → Option Text). f name)
        (run_steps-blobs (take n (remove_log name t ++ remove_sinks folder sinks)) _ (
          all-take n (remove_log name t ++ remove_sinks folder sinks) (
            all-append (remove_log name t) (remove_sinks folder sinks) (remove_log-keeps name t)
              (remove_sinks-keeps folder sinks))))
      ∙ update_self name _ d.blobs
      ∙ update_self name (some blob) d.temps)

write_step-keeps :
    (name folder rel content : Text) → keeps_blobs (write_step name folder rel content) ≡ true
unfolding write_step
write_step-keeps name folder rel content = elim (Bool-cases (has_prefix sink_prefix rel)) [
  | inl e ↦ elim (Option-cases (split_once (lit "/") (drop (length sink_prefix) rel))) [
    | inl k ↦ rw (e, k) refl
    | inr (x, k) ↦ rw (e, k) refl
  ]
  | inr e ↦ rw e refl
]

write_decoded-keeps :
    (write : Text → DiskStep) (o : Outcome Text) (rest : List DiskStep × Outcome ℕ)
    → ((content : Text) → keeps_blobs (write content) ≡ true)
    → all keeps_blobs rest.0 ≡ true
    → all keeps_blobs (write_decoded write o rest).0 ≡ true
unfolding write_decoded
write_decoded-keeps write (ok content) (ss, count) h k =
    ap (λ (b : Bool). b && all keeps_blobs ss) (h content) ∙ k
write_decoded-keeps write (seal_error m) rest h k = refl
write_decoded-keeps write (crashed c) rest h k = refl

pub restore_steps-keeps :
    (p : Primitives) (name folder : Text) (files : Fields)
    → all keeps_blobs ((restore_steps p name folder files).0) ≡ true
unfolding restore_steps
restore_steps-keeps p name folder end = refl
restore_steps-keeps p name folder (entry rel v files) =
    write_decoded-keeps (write_step name folder rel) (decoded p v)
      (restore_steps p name folder files) (write_step-keeps name folder rel)
      (restore_steps-keeps p name folder files)

-- After any number of the writes of an unseal, up to its last file, every sealed blob is there
-- still.
pub restore_steps-crash :
    (p : Primitives) (name folder : Text) (files : Fields) (d : Disk) (n : ℕ)
    → (run_steps (take n (make_log_dir name ∷ (restore_steps p name folder files).0)) d).blobs
      ≡ d.blobs
restore_steps-crash p name folder files d n =
    run_steps-blobs (take n (make_log_dir name ∷ (restore_steps p name folder files).0)) d (
      all-take n (make_log_dir name ∷ (restore_steps p name folder files).0)
        (restore_steps-keeps p name folder files))
