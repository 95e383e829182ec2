-- ===== src/Binding/Wall.antt =====
-- seal_binding.py: the session, and `unlock`, `lock`, `lock_all`, `state`, `serve`, `serve_file`.
pub mod Served
pub mod Refines
pub mod Origin
use loomground_lock.Prelude.{
  ℕ, Bool, true, false, not, Option, none, some, is_some, List, [], ◌∷◌, filter, length,
  if◌then◌else◌,
}
use loomground_lock.Text.{Text, lit, ◌==◌}
use loomground_lock.Seal.Disk.{Tree, Disk, file_at}
use loomground_lock.Seal.Envelope.{
  Primitives, Outcome, ok, seal_error, crashed, ◌>>=◌, or_seal_error, KeySource, passphrase,
  derived,
}
use loomground_lock.Seal.Folder.{resolve_log_dir, is_sealed}
use loomground_lock.Seal.ReadThrough.{open_sealed_store}

-- `_SESSION`, by the names of the log directories
abbrev pub Session : Type 0
Session = List (Text × Text)

unfoldable pub cached : Text → Session → Option Text
cached name [] = none
cached name ((n, key) ∷ s) = if name == n then some key else cached name s

-- `_SESSION.pop(name, None)`
unfoldable pub forget : Text → Session → Session
forget name s = filter (λ (e : Text × Text). not (name == e.0)) s

-- `_SESSION[name] = key`; the order of the entries is never read.
unfoldable pub remember : Text → Text → Session → Session
unfolding forget
remember name key s = (name, key) ∷ forget name s

pub record WallState : Type 0 where
  pub sealed : Bool
  pub unlocked : Bool
  -- `"wall"`: up or down
  pub wall : Text

module _ (p : Primitives) (folder : Text) where
  -- `is_unlocked(folder)`
  unfoldable pub is_unlocked : Disk → Session → Bool
  unfolding cached resolve_log_dir
  is_unlocked d s = is_some (cached (resolve_log_dir p d folder) s)

  unfoldable pub unlock_with : Text → Session → Outcome (Tree × Text) → Session × Outcome ℕ
  unfolding remember
  unlock_with name s (ok (store, key)) = (remember name key s, ok (length store))
  unlock_with name s (seal_error m) = (s, seal_error m)
  unlock_with name s (crashed c) = (s, crashed c)

  -- `unlock(folder, passphrase=...)`: the number of files
  unfoldable pub unlock : Text → Disk → Session → Session × Outcome ℕ
  unfolding unlock_with open_sealed_store resolve_log_dir
  unlock pass d s =
      unlock_with (resolve_log_dir p d folder) s (open_sealed_store p (passphrase pass) folder d)

  -- `lock(folder)`: whether it was unlocked
  unfoldable pub lock : Disk → Session → Session × Bool
  unfolding forget is_unlocked resolve_log_dir
  lock d s = (forget (resolve_log_dir p d folder) s, is_unlocked d s)

  -- `state(folder)`
  unfoldable pub state : Disk → Session → WallState
  unfolding is_sealed is_unlocked
  state d s = record {
    sealed = is_sealed p d folder;
    unlocked = is_unlocked d s;
    wall = if is_sealed p d folder then lit "up" else lit "down";
  }

  -- The store of a folder that is not sealed: the files of its log directory.
  unfoldable pub plain_store : Disk → Tree
  unfolding resolve_log_dir
  plain_store d = elim (d.logs (resolve_log_dir p d folder)) [ none ↦ [] | some t ↦ t ]

  unfoldable pub serve_sealed : Disk → Option Text → Outcome Tree
  unfolding open_sealed_store
  serve_sealed d none = seal_error (lit "workspace is locked")
  serve_sealed d (some key) = open_sealed_store p (derived key) folder d >>= λ x. ok x.0

  -- `serve(folder)`
  unfoldable pub serve : Disk → Session → Outcome Tree
  unfolding is_sealed plain_store serve_sealed cached resolve_log_dir
  serve d s =
      if is_sealed p d folder
      then serve_sealed d (cached (resolve_log_dir p d folder) s)
      else ok (plain_store d)

  -- `serve_file(folder, relpath)`
  unfoldable pub serve_file : Text → Disk → Session → Outcome Text
  unfolding serve or_seal_error file_at
  serve_file rel d s = do
    store ← serve d s
    or_seal_error (lit "not in the workspace's store") (file_at rel store)

-- `lock_all()`: the number of folders that were unlocked
unfoldable pub lock_all : Session → Session × ℕ
lock_all s = ([], length s)
