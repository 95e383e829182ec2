-- ===== src/Seal/Disk.antt =====
-- seal.py: the part of the disk that sealing touches, and the writes and deletions that it makes
-- one by one. A directory is the files below it, by their relative paths; directories without
-- files are not kept apart. A manifest keeps the order in which a directory lists its files, where
-- the source sorts their paths. A step succeeds, so that an error of the disk is a run that stops
-- before it, and a path is taken to stay below its directory. Modes (`chmod`) and the advisory lock
-- on events.jsonl are left out.
pub mod Laws
pub mod Runs
use loomground_lock.Prelude.{
  Option, none, some, Bool, not, List, [], ◌∷◌, ◌++◌, filter, if◌then◌else◌,
}
use loomground_lock.Text.{Text, lit, ◌==◌}

-- The files below a directory: relative path and content.
abbrev pub Tree : Type 0
Tree = List (Text × Text)

unfoldable pub file_at : Text → Tree → Option Text
file_at rel [] = none
file_at rel ((r, content) ∷ t) = if rel == r then some content else file_at rel t

unfoldable pub write_file : Text → Text → Tree → Tree
write_file rel content [] = (rel, content) ∷ []
write_file rel content ((r, c) ∷ t) =
    let later = (r, c) ∷ write_file rel content t in if rel == r then (r, content) ∷ t else later

unfoldable pub remove_file : Text → Tree → Tree
remove_file rel t = filter (λ (f : Text × Text). not (rel == f.0)) t

-- `open(path, "a+")`: the file is created empty where it is not there.
unfoldable pub touch_file : Text → Tree → Tree
unfolding file_at
touch_file rel t = elim (file_at rel t) [ none ↦ t ++ (rel, []) ∷ [] | some c ↦ t ]

pub record Disk : Type 0 where
  -- the log directories below the log root, by name
  pub logs : Text → Option Tree
  -- `<name>.sealed` and `<name>.sealed.tmp`
  pub blobs : Text → Option Text
  pub temps : Text → Option Text
  -- the entries of a folder that hold knowledge: folder and name
  pub sinks : Text → Text → Option Tree

unfoldable pub update : {A : Type 0} → Text → A → (Text → A) → Text → A
update k v f j = if k == j then v else f j

unfoldable pub update_sink :
    Text → Text → Option Tree → (Text → Text → Option Tree) → Text → Text → Option Tree
unfolding update
update_sink folder name t f = update folder (update name t (f folder)) f

pub data DiskStep : Type 0 where
  touch_events : (name : Text) → DiskStep
  write_temp : (name content : Text) → DiskStep
  -- `os.replace(tmp, sealed)`
  replace_temp : (name : Text) → DiskStep
  remove_log_file : (name rel : Text) → DiskStep
  remove_log_dir : (name : Text) → DiskStep
  remove_sink_file : (folder sink rel : Text) → DiskStep
  remove_sink_dir : (folder sink : Text) → DiskStep
  make_log_dir : (name : Text) → DiskStep
  write_log_file : (name rel content : Text) → DiskStep
  write_sink_file : (folder sink rel content : Text) → DiskStep
  unlink_blob : (name : Text) → DiskStep

-- A change of a directory that is there.
unfoldable pub on_tree : (Tree → Tree) → Option Tree → Option Tree
on_tree f none = none
on_tree f (some t) = some (f t)

-- A write below a directory, which `mkdir(parents=True)` makes where it is not there.
unfoldable pub write_below : Text → Text → Option Tree → Option Tree
unfolding write_file
write_below rel content none = some ((rel, content) ∷ [])
write_below rel content (some t) = some (write_file rel content t)

unfoldable pub apply_step : DiskStep → Disk → Disk
unfolding update update_sink on_tree write_below
apply_step (touch_events name) d = record d {
  logs = update name (on_tree (touch_file (lit "events.jsonl")) (d.logs name)) d.logs;
}
apply_step (write_temp name content) d = record d { temps = update name (some content) d.temps }
apply_step (replace_temp name) d = record d {
  blobs = update name (d.temps name) d.blobs;
  temps = update name none d.temps;
}
apply_step (remove_log_file name rel) d = record d {
  logs = update name (on_tree (remove_file rel) (d.logs name)) d.logs;
}
apply_step (remove_log_dir name) d = record d { logs = update name none d.logs }
apply_step (remove_sink_file folder sink rel) d = record d {
  sinks = update_sink folder sink (on_tree (remove_file rel) (d.sinks folder sink)) d.sinks;
}
apply_step (remove_sink_dir folder sink) d = record d {
  sinks = update_sink folder sink none d.sinks;
}
apply_step (make_log_dir name) d = record d { logs = update name (some []) d.logs }
apply_step (write_log_file name rel content) d = record d {
  logs = update name (write_below rel content (d.logs name)) d.logs;
}
apply_step (write_sink_file folder sink rel content) d = record d {
  sinks = update_sink folder sink (write_below rel content (d.sinks folder sink)) d.sinks;
}
apply_step (unlink_blob name) d = record d { blobs = update name none d.blobs }

unfoldable pub run_steps : List DiskStep → Disk → Disk
unfolding apply_step
run_steps [] d = d
run_steps (s ∷ ss) d = run_steps ss (apply_step s d)
