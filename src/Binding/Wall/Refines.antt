-- ===== src/Binding/Wall/Refines.antt =====
-- seal_binding.py: the sessions that a process can reach, beside the set of the names it has
-- unlocked.
use mathlib.Core.Path.{fun_ext}
use loomground_lock.Prelude.{
  ◌≡◌, refl, ap, ◌∙◌, Bool, true, false, Option, none, some, is_some, List, [], ◌∷◌, Option-cases,
  inl, inr, arith, if◌then◌else◌,
}
use loomground_lock.Text.{Text, lit, ◌==◌}
use loomground_lock.Text.Equality.{==_iff}
use loomground_lock.Seal.Disk.{Tree, Disk, update}
use loomground_lock.Seal.Envelope.{Primitives, Outcome, ok, seal_error, crashed, passphrase}
use loomground_lock.Seal.Folder.{resolve_log_dir, is_sealed}
use loomground_lock.Seal.ReadThrough.{open_sealed_store}
use loomground_lock.Binding.Wall.{
  Session, cached, forget, remember, unlock, unlock_with, lock, lock_all, serve, serve_sealed,
}

-- What happens to a process: its calls, and any change of the disk (a seal, an unseal, a sync).
pub data WallOp : Type 0 where
  unlocks : (folder pass : Text) → WallOp
  locks : (folder : Text) → WallOp
  locks_all : WallOp
  disk_becomes : Disk → WallOp

-- The specification: a folder is open from an unlock that succeeds to the next lock.
unfoldable pub is_ok : {A : Type 0} → Outcome A → Bool
is_ok (ok a) = true
is_ok (seal_error m) = false
is_ok (crashed c) = false

unfoldable pub open_step : Primitives → WallOp → Disk → (Text → Bool) → Text → Bool
unfolding is_ok
open_step p (unlocks folder pass) d names =
    if is_ok (open_sealed_store p (passphrase pass) folder d)
    then update (resolve_log_dir p d folder) true names
    else names
open_step p (locks folder) d names = update (resolve_log_dir p d folder) false names
open_step p locks_all d names = λ name. false
open_step p (disk_becomes after) d names = names

unfoldable pub disk_step : WallOp → Disk → Disk
disk_step (disk_becomes after) d = after
disk_step (unlocks folder pass) d = d
disk_step (locks folder) d = d
disk_step locks_all d = d

unfoldable pub open_names : Primitives → List WallOp → Disk → (Text → Bool) → Text → Bool
unfolding open_step disk_step
open_names p [] d names = names
open_names p (op ∷ ops) d names = open_names p ops (disk_step op d) (open_step p op d names)

-- The calls themselves.
unfoldable pub session_step : Primitives → WallOp → Disk → Session → Session
unfolding unlock lock lock_all
session_step p (unlocks folder pass) d s = (unlock p folder pass d s).0
session_step p (locks folder) d s = (lock p folder d s).0
session_step p locks_all d s = (lock_all s).0
session_step p (disk_becomes after) d s = s

unfoldable pub disk_after : List WallOp → Disk → Disk
unfolding disk_step
disk_after [] d = d
disk_after (op ∷ ops) d = disk_after ops (disk_step op d)

unfoldable pub session_after : Primitives → List WallOp → Disk → Session → Session
unfolding session_step disk_step
session_after p [] d s = s
session_after p (op ∷ ops) d s = session_after p ops (disk_step op d) (session_step p op d s)

-- The names that a session has a key for.
abbrev pub names_of : Session → Text → Bool
names_of s name = is_some (cached name s)

pub cached-forget :
    (n name : Text) (s : Session)
    → cached n (forget name s) ≡ (if name == n then none else cached n s)
unfolding cached forget
cached-forget n name [] = ground arith
cached-forget n name ((k, key) ∷ s) =
    ground (arith, cached-forget n name s, ==_iff n k, ==_iff name k, ==_iff name n)

names_of-forget :
    (name : Text) (s : Session) → names_of (forget name s) ≡ update name false (names_of s)
unfolding update
names_of-forget name s = fun_ext (λ n. ground (arith, cached-forget n name s))

names_of-remember :
    (name key : Text) (s : Session) → names_of (remember name key s) ≡ update name true (names_of s)
unfolding update remember cached
names_of-remember name key s =
    fun_ext (λ n. ground (arith, cached-forget n name s, ==_iff n name, ==_iff name n))

names_of-unlock_with :
    (p : Primitives) (folder name : Text) (s : Session) (o : Outcome (Tree × Text))
    → names_of ((unlock_with p folder name s o).0)
      ≡ (if is_ok o then update name true (names_of s) else names_of s)
unfolding unlock_with is_ok
names_of-unlock_with p folder name s (ok (store, key)) = names_of-remember name key s
names_of-unlock_with p folder name s (seal_error m) = refl
names_of-unlock_with p folder name s (crashed c) = refl

session_step-names_of :
    (p : Primitives) (op : WallOp) (d : Disk) (s : Session)
    → names_of (session_step p op d s) ≡ open_step p op d (names_of s)
unfolding session_step open_step unlock lock lock_all
session_step-names_of p (unlocks folder pass) d s =
    names_of-unlock_with p folder (resolve_log_dir p d folder) s
      (open_sealed_store p (passphrase pass) folder d)
session_step-names_of p (locks folder) d s = names_of-forget (resolve_log_dir p d folder) s
session_step-names_of p locks_all d s = refl
session_step-names_of p (disk_becomes after) d s = refl

-- Whatever calls a process makes, and however the disk changes between them, the names that its
-- session has a key for are those of the specification: a name is open from an unlock that opens
-- its blob to the next lock of it, or of all.
pub session_after-open_names :
    (p : Primitives) (ops : List WallOp) (d : Disk) (s : Session)
    → names_of (session_after p ops d s) ≡ open_names p ops d (names_of s)
unfolding session_after open_names
session_after-open_names p [] d s = refl
session_after-open_names p (op ∷ ops) d s =
    session_after-open_names p ops (disk_step op d) (session_step p op d s)
    ∙ ap (open_names p ops (disk_step op d)) (session_step-names_of p op d s)

not_held : (o : Option Text) (key : Text) → o ≡ some key → is_some o ≡ false → ⊥
not_held o key e h = cc

-- A sealed folder whose name is not open by the specification, in a process that began without
-- keys, is not served: the workspace is locked.
pub serve-locked :
    (p : Primitives) (ops : List WallOp) (d : Disk) (folder : Text)
    → is_sealed p (disk_after ops d) folder ≡ true
    → open_names p ops d (λ name. false) (resolve_log_dir p (disk_after ops d) folder) ≡ false
    → serve p folder (disk_after ops d) (session_after p ops d [])
      ≡ seal_error (lit "workspace is locked")
unfolding serve serve_sealed
serve-locked p ops d folder sealed shut =
    let name = resolve_log_dir p (disk_after ops d) folder in
    let none_held : names_of (session_after p ops d []) name ≡ false =
      ap (λ (f : Text → Bool). f name) (session_after-open_names p ops d []) ∙ shut in
    elim (Option-cases (cached name (session_after p ops d []))) [
      | inl e ↦ rw (sealed, e) refl
      | inr (key, e) ↦ absurd (not_held (cached name (session_after p ops d [])) key e none_held)
    ]
