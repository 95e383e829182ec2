-- ===== src/Seal/Sinks.antt =====
-- seal.py: the folder's knowledge sinks, removed by a seal and written again by an unseal.
pub mod Existing
use mathlib.Core.Path.{fun_ext}
use loomground_lock.Prelude.{
  ◌≡◌, refl, ap, sym, ◌∙◌, Bool, true, false, ◌&&◌, not, Option, none, some, is_empty, Option-cases,
  inl, inr, List, [], ◌∷◌, all, both_true, arith,
}
use loomground_lock.Text.{Text, lit, ◌==◌}
use loomground_lock.Text.Equality.{==_iff, ==_refl}
use loomground_lock.Seal.Disk.{Tree, Disk, update, update_sink, run_steps}
use loomground_lock.Seal.Disk.Laws.{
  run_steps-append, update_self, update_twice, update_sink_self, update_sink_twice,
  update_sink_same,
}
use loomground_lock.Seal.Disk.Runs.{distinct_paths, sink_writes, sink_writes-run, remove_sink-run}
use loomground_lock.Seal.Folder.{remove_sink, remove_sinks, existing_sinks, sink_entry}
use loomground_lock.Seal.Pack.{is_known, sinks_writes}

abbrev pub Sinks : Type 0
Sinks = Text → Text → Option Tree

-- The sinks after those of a list are removed.
unfoldable pub clear : Text → List (Text × Tree) → Sinks → Sinks
clear folder [] f = f
clear folder ((s, t) ∷ rest) f = clear folder rest (update_sink folder s none f)

pub remove_sinks-run :
    (folder : Text) (sinks : List (Text × Tree)) (d : Disk)
    → run_steps (remove_sinks folder sinks) d ≡ record d { sinks = clear folder sinks d.sinks }
unfolding remove_sinks clear run_steps
remove_sinks-run folder [] d = refl
remove_sinks-run folder ((s, t) ∷ rest) d =
    run_steps-append (remove_sink folder s t) (remove_sinks folder rest) d
    ∙ ap (run_steps (remove_sinks folder rest)) (remove_sink-run folder s t d)
    ∙ remove_sinks-run folder rest (record d { sinks = update_sink folder s none d.sinks })

-- A sink that a list does not name.
unfoldable pub absent : Text → List (Text × Tree) → Bool
absent s sinks = all (λ (e : Text × Tree). not (s == e.0)) sinks

update_swap :
    {A : Type 0} (j k : Text) (v w : A) (f : Text → A)
    → (j == k) ≡ false
    → update j v (update k w f) ≡ update k w (update j v f)
unfolding update
update_swap j k v w f h = fun_ext (λ i. ground (arith, ==_iff j i, ==_iff k i, ==_iff j k))

update_sink-both :
    (folder s z : Text) (t u : Option Tree) (f : Sinks)
    → update_sink folder s t (update_sink folder z u f)
      ≡ update folder (update s t (update z u (f folder))) f
unfolding update_sink
update_sink-both folder s z t u f =
    ap (λ g. update folder (update s t g) (update folder (update z u (f folder)) f))
      (update_self folder (update z u (f folder)) f)
    ∙ update_twice folder (update z u (f folder)) _ f

update_sink_swap :
    (folder s z : Text) (t u : Option Tree) (f : Sinks)
    → (s == z) ≡ false
    → update_sink folder s t (update_sink folder z u f)
      ≡ update_sink folder z u (update_sink folder s t f)
update_sink_swap folder s z t u f h =
    update_sink-both folder s z t u f
    ∙ ap (λ g. update folder g f) (update_swap s z t u (f folder) h)
    ∙ sym (update_sink-both folder z s u t f)

clear-update_sink :
    (folder s : Text) (v : Option Tree) (rest : List (Text × Tree)) (f : Sinks)
    → absent s rest ≡ true
    → update_sink folder s v (clear folder rest f) ≡ clear folder rest (update_sink folder s v f)
unfolding clear absent
clear-update_sink folder s v [] f h = refl
clear-update_sink folder s v ((z, t) ∷ rest) f h =
    let (other, later) =
      both_true (not (s == z)) (all (λ (e : Text × Tree). not (s == e.0)) rest) h in
    clear-update_sink folder s v rest (update_sink folder z none f) later
    ∙ ap (clear folder rest) (update_sink_swap folder s z v none f (ground (arith)))

-- Directories that a manifest restores: they hold files, with distinct paths.
unfoldable pub sound_sink : Option Tree → Bool
sound_sink none = true
sound_sink (some t) = not (is_empty t) && distinct_paths t

-- A list of sinks as they stand in a folder, each named once.
unfoldable pub StandIn : Text → Sinks → List (Text × Tree) → Type 0
StandIn folder f [] = Unit
StandIn folder f ((s, t) ∷ rest) =
    (f folder s ≡ some t)
    × (sound_sink (some t) ≡ true)
    × (absent s rest ≡ true)
    × StandIn folder f rest

sink_writes_sound :
    (folder s : Text) (t : Tree) (d : Disk)
    → d.sinks folder s ≡ none
    → sound_sink (some t) ≡ true
    → run_steps (sink_writes folder s t) d
      ≡ record d { sinks = update_sink folder s (some t) d.sinks }
unfolding sound_sink
sink_writes_sound folder s [] d h k = cc
sink_writes_sound folder s ((r, c) ∷ t) d h k = sink_writes-run folder s r c t d h k

-- Removing the sinks of a list and writing them again changes nothing.
pub sinks_writes-clear :
    (folder : Text) (sinks : List (Text × Tree)) (d : Disk) (f : Sinks)
    → StandIn folder f sinks
    → d.sinks ≡ clear folder sinks f
    → run_steps (sinks_writes folder sinks) d ≡ record d { sinks = f }
unfolding StandIn clear sinks_writes run_steps
sinks_writes-clear folder [] d f h e = ap (λ (g : Sinks). record d { sinks = g }) e
sinks_writes-clear folder ((s, t) ∷ rest) d f (stands, sound, alone, later) e =
    let none_there : d.sinks folder s ≡ none =
      ap (λ (g : Sinks). g folder s) (e ∙ sym (clear-update_sink folder s none rest f alone))
      ∙ update_sink_self folder s none (clear folder rest f) in
    let back : update_sink folder s (some t) d.sinks ≡ clear folder rest f =
      ap (update_sink folder s (some t)) (e ∙ sym (clear-update_sink folder s none rest f alone))
      ∙ update_sink_twice folder s none (some t) (clear folder rest f)
      ∙ clear-update_sink folder s (some t) rest f alone
      ∙ ap (clear folder rest) (update_sink_same folder s (some t) f stands) in
    run_steps-append (sink_writes folder s t) (sinks_writes folder rest) d
    ∙ ap (run_steps (sinks_writes folder rest)) (sink_writes_sound folder s t d none_there sound)
    ∙ sinks_writes-clear folder rest (record d { sinks = update_sink folder s (some t) d.sinks }) f
        later back
