-- ===== src/Binding/Wall/Origin.antt =====
-- seal_binding.py: where the keys of a session come from.
use loomground_lock.Prelude.{
  ◌≡◌, refl, ap, sym, ◌∙◌, ◌⊎◌, ◌++◌, Bool-cases, Option-cases, inl, inr, true, none, some, List,
  [], ◌∷◌, arith,
}
use loomground_lock.Text.{Text, lit, ◌==◌}
use loomground_lock.Text.Equality.{==-eq}
use loomground_lock.Seal.Disk.{Tree, Disk}
use loomground_lock.Seal.Envelope.{Primitives, Outcome, ok, seal_error, crashed, passphrase}
use loomground_lock.Seal.Folder.{resolve_log_dir, is_sealed}
use loomground_lock.Seal.ReadThrough.{open_sealed_store}
use loomground_lock.Binding.Wall.{
  Session, cached, forget, remember, unlock, unlock_with, lock, lock_all, serve, serve_sealed,
}
use loomground_lock.Binding.Wall.Refines.{
  WallOp, unlocks, locks, locks_all, disk_becomes, disk_step, disk_after, session_step,
  session_after, cached-forget,
}

-- A call that has put a key under a name.
unfoldable pub Puts : Primitives → WallOp → Disk → Text → Text → Type 0
Puts p op d name key =
    (folder : Text) × (pass : Text) × (store : Tree) × (op ≡ unlocks folder pass)
    × (resolve_log_dir p d folder ≡ name)
    × (open_sealed_store p (passphrase pass) folder d ≡ ok (store, key))

-- A call of a history, at the disk of its time.
unfoldable pub PutsIn : Primitives → List WallOp → Disk → Text → Text → Type 0
PutsIn p ops d name key =
    (before : List WallOp) × (op : WallOp) × (after : List WallOp) × (ops ≡ before ++ op ∷ after)
    × Puts p op (disk_after before d) name key

cached-forget-some :
    (n name key : Text) (s : Session) → cached n (forget name s) ≡ some key → cached n s ≡ some key
cached-forget-some n name key s e = ground (arith, cached-forget n name s)

cached-remember-some :
    (n name key k : Text) (s : Session)
    → cached n (remember name key s) ≡ some k
    → ((name ≡ n) × (key ≡ k)) ⊎ (cached n s ≡ some k)
unfolding remember cached
cached-remember-some n name key k s e = elim (Bool-cases (n == name)) [
  | inl h ↦ inl (sym (==-eq n name h), ground arith)
  | inr h ↦ inr (cached-forget-some n name k s (ground arith))
]

cached-unlock_with :
    (p : Primitives) (folder pass : Text) (d : Disk) (s : Session) (o : Outcome (Tree × Text))
    (name key : Text)
    → open_sealed_store p (passphrase pass) folder d ≡ o
    → cached name (unlock_with p folder (resolve_log_dir p d folder) s o).0 ≡ some key
    → (cached name s ≡ some key) ⊎ Puts p (unlocks folder pass) d name key
unfolding unlock_with Puts
cached-unlock_with p folder pass d s (ok (store, k)) name key h e =
    elim (cached-remember-some name (resolve_log_dir p d folder) k key s e) [
      | inl (same, keys) ↦
          inr (folder, pass, store, refl, same, h ∙ ap (λ (x : Text). ok (store, x)) keys)
      | inr old ↦ inl old
    ]
cached-unlock_with p folder pass d s (seal_error m) name key h e = inl e
cached-unlock_with p folder pass d s (crashed c) name key h e = inl e

session_step-origin :
    (p : Primitives) (op : WallOp) (d : Disk) (s : Session) (name key : Text)
    → cached name (session_step p op d s) ≡ some key
    → (cached name s ≡ some key) ⊎ Puts p op d name key
unfolding session_step unlock lock lock_all cached
session_step-origin p (unlocks folder pass) d s name key e =
    cached-unlock_with p folder pass d s (open_sealed_store p (passphrase pass) folder d) name key
      refl e
session_step-origin p (locks folder) d s name key e =
    inl (cached-forget-some name (resolve_log_dir p d folder) key s e)
session_step-origin p locks_all d s name key e = cc
session_step-origin p (disk_becomes after) d s name key e = inl e

pub session_after-origin :
    (p : Primitives) (ops : List WallOp) (d : Disk) (s : Session) (name key : Text)
    → cached name (session_after p ops d s) ≡ some key
    → (cached name s ≡ some key) ⊎ PutsIn p ops d name key
unfolding session_after PutsIn disk_after
session_after-origin p [] d s name key e = inl e
session_after-origin p (op ∷ ops) d s name key e =
    elim (session_after-origin p ops (disk_step op d) (session_step p op d s) name key e) [
      | inl now ↦ elim (session_step-origin p op d s name key now) [
        | inl old ↦ inl old
        | inr put ↦ inr ([], op, ops, refl, put)
      ]
      | inr (before, at, after, split, put) ↦
          inr (op ∷ before, at, after, ap (λ (l : List WallOp). op ∷ l) split, put)
    ]

not_served :
    (p : Primitives) (d : Disk) (folder : Text) (s : Session) (store : Tree)
    → is_sealed p d folder ≡ true
    → cached (resolve_log_dir p d folder) s ≡ none
    → serve p folder d s ≡ ok store
    → ⊥
unfolding serve serve_sealed
not_served p d folder s store sealed e served =
    let locked : serve p folder d s ≡ seal_error (lit "workspace is locked") =
      rw (sealed, e) refl in
    cc

-- Where a process that began without keys serves a folder that is sealed, an earlier call of its
-- history was an unlock under the same name whose passphrase opened the blob of that time.
pub serve-origin :
    (p : Primitives) (ops : List WallOp) (d : Disk) (folder : Text) (store : Tree)
    → is_sealed p (disk_after ops d) folder ≡ true
    → serve p folder (disk_after ops d) (session_after p ops d []) ≡ ok store
    → (key : Text) × PutsIn p ops d (resolve_log_dir p (disk_after ops d) folder) key
unfolding serve serve_sealed cached
serve-origin p ops d folder store sealed served =
    let name = resolve_log_dir p (disk_after ops d) folder in
    elim (Option-cases (cached name (session_after p ops d []))) [
      | inl e ↦
          absurd (
            not_served p (disk_after ops d) folder (session_after p ops d []) store sealed e served)
      | inr (key, e) ↦ elim (session_after-origin p ops d [] name key e) [
        | inl none_yet ↦ cc
        | inr put ↦ (key, put)
      ]
    ]
