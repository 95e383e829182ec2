-- ===== src/Seal/Disk/Runs.antt =====
-- seal.py: whole directories removed and written again, file by file.
use loomground_lock.Prelude.{
  ◌≡◌, refl, ap, sym, ◌∙◌, Bool, true, ◌&&◌, not, Option, none, some, is_some, List, [], ◌∷◌, ◌++◌,
  map, arith,
}
use loomground_lock.Text.{Text}
use loomground_lock.Text.Equality.{==_iff, ==_refl}
use loomground_lock.Seal.Disk.{
  Tree, Disk, DiskStep, file_at, update, update_sink, write_below, apply_step, run_steps,
  write_log_file, write_sink_file, on_tree, remove_file,
}
use loomground_lock.Seal.Disk.Laws.{
  update_self, update_twice, update_same, update_sink_self, update_sink_twice, update_sink_same,
  write_file-new,
}
use loomground_lock.Seal.Folder.{remove_log, remove_sink}

pub remove_log-run :
    (name : Text) (t : Tree) (d : Disk)
    → run_steps (remove_log name t) d ≡ record d { logs = update name none d.logs }
unfolding remove_log run_steps apply_step
remove_log-run name [] d = refl
remove_log-run name ((r, c) ∷ t) d =
    let gone = on_tree (remove_file r) (d.logs name) in
    remove_log-run name t (record d { logs = update name gone d.logs })
    ∙ ap (λ (f : Text → Option Tree). record d { logs = f }) (update_twice name gone none d.logs)

pub remove_sink-run :
    (folder s : Text) (t : Tree) (d : Disk)
    → run_steps (remove_sink folder s t) d ≡ record d { sinks = update_sink folder s none d.sinks }
unfolding remove_sink run_steps apply_step
remove_sink-run folder s [] d = refl
remove_sink-run folder s ((r, c) ∷ t) d =
    let gone = on_tree (remove_file r) (d.sinks folder s) in
    remove_sink-run folder s t (record d { sinks = update_sink folder s gone d.sinks })
    ∙ ap (λ (f : Text → Text → Option Tree). record d { sinks = f })
        (update_sink_twice folder s gone none d.sinks)

-- Distinct paths.
unfoldable pub distinct_paths : Tree → Bool
unfolding file_at
distinct_paths [] = true
distinct_paths ((r, c) ∷ t) = not (is_some (file_at r t)) && distinct_paths t

unfoldable pub log_writes : Text → Tree → List DiskStep
log_writes name t = map (λ (f : Text × Text). write_log_file name f.0 f.1) t

unfoldable pub sink_writes : Text → Text → Tree → List DiskStep
sink_writes folder sink t = map (λ (f : Text × Text). write_sink_file folder sink f.0 f.1) t

file_at-middle : (rel c : Text) (s t : Tree) → is_some (file_at rel (s ++ (rel, c) ∷ t)) ≡ true
unfolding file_at
file_at-middle rel c [] t = rw (==_refl rel)
file_at-middle rel c ((r, _) ∷ s) t = ground (arith, file_at-middle rel c s t)

-- A path that follows others among distinct ones is not among these.
file_at-before :
    (rel c : Text) (s t : Tree) → distinct_paths (s ++ (rel, c) ∷ t) ≡ true → file_at rel s ≡ none
unfolding distinct_paths file_at
file_at-before rel c [] t h = refl
file_at-before rel c ((r, k) ∷ s) t h =
    ground (arith, file_at-before rel c s t, file_at-middle rel c s t, ==_iff rel r)

append_one : (s t : Tree) (f : Text × Text) → (s ++ f ∷ []) ++ t ≡ s ++ f ∷ t
append_one [] t f = refl
append_one (g ∷ s) t f = ap (λ (u : Tree). g ∷ u) (append_one s t f)

append_nil : (s : Tree) → s ++ [] ≡ s
append_nil [] = refl
append_nil (g ∷ s) = ap (λ (u : Tree). g ∷ u) (append_nil s)

-- A write of a path that is not there yet, in a directory that is there or not.
write_below-new :
    (r c : Text) (s t : Tree) (o : Option Tree)
    → o ≡ some s
    → distinct_paths (s ++ (r, c) ∷ t) ≡ true
    → write_below r c o ≡ some (s ++ (r, c) ∷ [])
unfolding write_below
write_below-new r c s t o h k =
    ap (write_below r c) h ∙ ap some (write_file-new r c s (file_at-before r c s t k))

pub log_writes-run :
    (name : Text) (s t : Tree) (d : Disk)
    → d.logs name ≡ some s
    → distinct_paths (s ++ t) ≡ true
    → run_steps (log_writes name t) d ≡ record d { logs = update name (some (s ++ t)) d.logs }
unfolding run_steps apply_step log_writes
log_writes-run name s [] d h k =
    ap (λ (f : Text → Option Tree). record d { logs = f })
      (sym (update_same name (some (s ++ [])) d.logs (h ∙ ap some (sym (append_nil s)))))
log_writes-run name s ((r, c) ∷ t) d h k =
    let o = write_below r c (d.logs name) in
    let s1 : Tree = s ++ (r, c) ∷ [] in
    let now : o ≡ some s1 = write_below-new r c s t (d.logs name) h k in
    let same : s1 ++ t ≡ s ++ (r, c) ∷ t = append_one s t (r, c) in
    log_writes-run name s1 t (record d { logs = update name o d.logs })
      (update_self name o d.logs ∙ now) (ap distinct_paths same ∙ k)
    ∙ ap (λ (f : Text → Option Tree). record d { logs = f })
        (update_twice name o (some (s1 ++ t)) d.logs)
    ∙ ap (λ (u : Tree). record d { logs = update name (some u) d.logs }) same

sink_writes-from :
    (folder sink : Text) (s t : Tree) (d : Disk)
    → d.sinks folder sink ≡ some s
    → distinct_paths (s ++ t) ≡ true
    → run_steps (sink_writes folder sink t) d
      ≡ record d { sinks = update_sink folder sink (some (s ++ t)) d.sinks }
unfolding run_steps apply_step sink_writes
sink_writes-from folder sink s [] d h k =
    ap (λ (f : Text → Text → Option Tree). record d { sinks = f })
      (sym
        (update_sink_same folder sink (some (s ++ [])) d.sinks (h ∙ ap some (sym (append_nil s)))))
sink_writes-from folder sink s ((r, c) ∷ t) d h k =
    let o = write_below r c (d.sinks folder sink) in
    let s1 : Tree = s ++ (r, c) ∷ [] in
    let now : o ≡ some s1 = write_below-new r c s t (d.sinks folder sink) h k in
    let same : s1 ++ t ≡ s ++ (r, c) ∷ t = append_one s t (r, c) in
    sink_writes-from folder sink s1 t (record d { sinks = update_sink folder sink o d.sinks })
      (update_sink_self folder sink o d.sinks ∙ now) (ap distinct_paths same ∙ k)
    ∙ ap (λ (f : Text → Text → Option Tree). record d { sinks = f })
        (update_sink_twice folder sink o (some (s1 ++ t)) d.sinks)
    ∙ ap (λ (u : Tree). record d { sinks = update_sink folder sink (some u) d.sinks }) same

-- The first file makes the directory.
pub sink_writes-run :
    (folder sink r c : Text) (t : Tree) (d : Disk)
    → d.sinks folder sink ≡ none
    → distinct_paths ((r, c) ∷ t) ≡ true
    → run_steps (sink_writes folder sink ((r, c) ∷ t)) d
      ≡ record d { sinks = update_sink folder sink (some ((r, c) ∷ t)) d.sinks }
unfolding run_steps apply_step sink_writes write_below
sink_writes-run folder sink r c t d h k =
    let o = write_below r c (d.sinks folder sink) in
    sink_writes-from folder sink ((r, c) ∷ []) t
      (record d { sinks = update_sink folder sink o d.sinks })
      (update_sink_self folder sink o d.sinks ∙ ap (write_below r c) h) k
    ∙ ap (λ (f : Text → Text → Option Tree). record d { sinks = f })
        (update_sink_twice folder sink o (some ((r, c) ∷ t)) d.sinks)
