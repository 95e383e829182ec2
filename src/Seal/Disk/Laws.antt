-- ===== src/Seal/Disk/Laws.antt =====
-- seal.py: what sequences of steps leave on the disk.
use mathlib.Core.Path.{fun_ext}
use loomground_lock.Prelude.{
  ◌≡◌, refl, ap, ◌∙◌, Bool, true, false, Option, none, List, [], ◌∷◌, ◌++◌, all, both_true, arith,
}
use loomground_lock.Text.{Text}
use loomground_lock.Text.Equality.{==_iff, ==_refl}
use loomground_lock.Seal.Disk.{
  Tree, Disk, DiskStep, file_at, write_file, update, update_sink, apply_step, run_steps,
  touch_events, write_temp, replace_temp, remove_log_file, remove_log_dir, remove_sink_file,
  remove_sink_dir, make_log_dir, write_log_file, write_sink_file, unlink_blob,
}

pub update_self : {A : Type 0} (k : Text) (v : A) (f : Text → A) → update k v f k ≡ v
unfolding update
update_self k v f = rw (==_refl k)

pub update_twice :
    {A : Type 0} (k : Text) (v w : A) (f : Text → A) → update k w (update k v f) ≡ update k w f
unfolding update
update_twice k v w f = fun_ext (λ j. ground arith)

pub update_same : {A : Type 0} (k : Text) (v : A) (f : Text → A) → f k ≡ v → update k v f ≡ f
unfolding update
update_same k v f h = fun_ext (λ j. ground (arith, ==_iff k j))

pub update_sink_self :
    (folder s : Text) (t : Option Tree) (f : Text → Text → Option Tree)
    → update_sink folder s t f folder s ≡ t
unfolding update_sink update
update_sink_self folder s t f = rw (==_refl folder, ==_refl s)

pub update_sink_twice :
    (folder s : Text) (t u : Option Tree) (f : Text → Text → Option Tree)
    → update_sink folder s u (update_sink folder s t f) ≡ update_sink folder s u f
unfolding update_sink
update_sink_twice folder s t u f =
    ap (λ g. update folder (update s u g) (update folder (update s t (f folder)) f))
      (update_self folder (update s t (f folder)) f)
    ∙ update_twice folder (update s t (f folder)) _ f
    ∙ ap (λ g. update folder g f) (update_twice s t u (f folder))

pub update_sink_same :
    (folder s : Text) (t : Option Tree) (f : Text → Text → Option Tree)
    → f folder s ≡ t
    → update_sink folder s t f ≡ f
unfolding update_sink
update_sink_same folder s t f h =
    ap (λ g. update folder g f) (update_same s t (f folder) h)
    ∙ update_same folder (f folder) f refl

pub run_steps-append :
    (xs ys : List DiskStep) (d : Disk) → run_steps (xs ++ ys) d ≡ run_steps ys (run_steps xs d)
unfolding run_steps
run_steps-append [] ys d = refl
run_steps-append (x ∷ xs) ys d = run_steps-append xs ys (apply_step x d)

-- Steps that leave the sealed blobs alone.
abbrev pub keeps_blobs : DiskStep → Bool
keeps_blobs (replace_temp name) = false
keeps_blobs (unlink_blob name) = false
keeps_blobs _ = true

apply_step-blobs :
    (s : DiskStep) (d : Disk) → keeps_blobs s ≡ true → (apply_step s d).blobs ≡ d.blobs
unfolding apply_step
apply_step-blobs (touch_events name) d h = refl
apply_step-blobs (write_temp name content) d h = refl
apply_step-blobs (replace_temp name) d h = cc
apply_step-blobs (remove_log_file name rel) d h = refl
apply_step-blobs (remove_log_dir name) d h = refl
apply_step-blobs (remove_sink_file folder sink rel) d h = refl
apply_step-blobs (remove_sink_dir folder sink) d h = refl
apply_step-blobs (make_log_dir name) d h = refl
apply_step-blobs (write_log_file name rel content) d h = refl
apply_step-blobs (write_sink_file folder sink rel content) d h = refl
apply_step-blobs (unlink_blob name) d h = cc

pub run_steps-blobs :
    (ss : List DiskStep) (d : Disk) → all keeps_blobs ss ≡ true → (run_steps ss d).blobs ≡ d.blobs
unfolding run_steps
run_steps-blobs [] d h = refl
run_steps-blobs (s ∷ ss) d h =
    let (first, later) = both_true (keeps_blobs s) (all keeps_blobs ss) h in
    run_steps-blobs ss (apply_step s d) later ∙ apply_step-blobs s d first

-- A file that is not there is written behind the others.
pub write_file-new :
    (rel content : Text) (t : Tree)
    → file_at rel t ≡ none
    → write_file rel content t ≡ t ++ (rel, content) ∷ []
unfolding write_file file_at
write_file-new rel content [] h = refl
write_file-new rel content ((r, c) ∷ t) h = ground (arith, write_file-new rel content t)

pub file_at-append :
    (rel : Text) (s t : Tree) → file_at rel s ≡ none → file_at rel (s ++ t) ≡ file_at rel t
unfolding file_at
file_at-append rel [] t h = refl
file_at-append rel ((r, c) ∷ s) t h = ground (arith, file_at-append rel s t)
