-- ===== src/Seal/Sinks/Existing.antt =====
-- seal.py: the knowledge sinks that a folder has, by cases of which are there.
use loomground_lock.Prelude.{
  ◌≡◌, refl, ap, sym, ◌∙◌, true, false, Option, none, some, Option-cases, inl, inr, List, [], ◌∷◌,
  all,
}
use loomground_lock.Text.{Text, lit, ◌==◌}
use loomground_lock.Text.Equality.{==_refl}
use loomground_lock.Seal.Disk.{Tree, Disk, update, update_sink}
use loomground_lock.Seal.Disk.Laws.{update_sink_self}
use loomground_lock.Seal.Folder.{existing_sinks, sink_entry}
use loomground_lock.Seal.Pack.{is_known}
use loomground_lock.Seal.Sinks.{Sinks, clear, absent, sound_sink, StandIn}

sink_entry-none :
    (d : Disk) (folder s : Text) → d.sinks folder s ≡ none → sink_entry d folder s ≡ []
unfolding sink_entry
sink_entry-none d folder s e = rw (e, sink_entry) refl

sink_entry-some :
    (d : Disk) (folder s : Text) (t : Tree)
    → d.sinks folder s ≡ some t
    → sink_entry d folder s ≡ (s, t) ∷ []
unfolding sink_entry
sink_entry-some d folder s t e = rw (e, sink_entry) refl

-- The knowledge that a folder holds, by cases of which sinks are there.
pub existing_sinks-cases :
    (d : Disk) (folder : Text) (P : List (Text × Tree) → Type 0)
    → (d.sinks folder (lit ".versum") ≡ none → d.sinks folder (lit "grounding") ≡ none → P [])
    → ((t : Tree)
        → d.sinks folder (lit ".versum") ≡ some t
        → d.sinks folder (lit "grounding") ≡ none
        → P ((lit ".versum", t) ∷ []))
    → ((u : Tree)
        → d.sinks folder (lit ".versum") ≡ none
        → d.sinks folder (lit "grounding") ≡ some u
        → P ((lit "grounding", u) ∷ []))
    → ((t u : Tree)
        → d.sinks folder (lit ".versum") ≡ some t
        → d.sinks folder (lit "grounding") ≡ some u
        → P ((lit ".versum", t) ∷ (lit "grounding", u) ∷ []))
    → P (existing_sinks d folder)
unfolding existing_sinks
existing_sinks-cases d folder P neither first second both =
    elim (Option-cases (d.sinks folder (lit ".versum"))) [
      | inl v ↦ elim (Option-cases (d.sinks folder (lit "grounding"))) [
        | inl g ↦
            rw
              (
                sink_entry-none d folder (lit ".versum") v,
                sink_entry-none d folder (lit "grounding") g,
              )
              (neither v g)
        | inr (u, g) ↦
            rw
              (
                sink_entry-none d folder (lit ".versum") v,
                sink_entry-some d folder (lit "grounding") u g,
              )
              (second u v g)
      ]
      | inr (t, v) ↦ elim (Option-cases (d.sinks folder (lit "grounding"))) [
        | inl g ↦
            rw
              (
                sink_entry-some d folder (lit ".versum") t v,
                sink_entry-none d folder (lit "grounding") g,
              )
              (first t v g)
        | inr (u, g) ↦
            rw
              (
                sink_entry-some d folder (lit ".versum") t v,
                sink_entry-some d folder (lit "grounding") u g,
              )
              (both t u v g)
      ]
    ]

pub existing_sinks-StandIn :
    (d : Disk) (folder : Text)
    → sound_sink (d.sinks folder (lit ".versum")) ≡ true
    → sound_sink (d.sinks folder (lit "grounding")) ≡ true
    → StandIn folder d.sinks (existing_sinks d folder)
unfolding StandIn absent lit ◌==◌
existing_sinks-StandIn d folder v g =
    existing_sinks-cases d folder (StandIn folder d.sinks) (λ v g. tt)
      (λ t e k. (e, ap sound_sink (sym e) ∙ v, refl, tt))
      (λ u k e. (e, ap sound_sink (sym e) ∙ g, refl, tt))
      (λ t u e k. (e, ap sound_sink (sym e) ∙ v, refl, (k, ap sound_sink (sym k) ∙ g, refl, tt)))

pub all-existing_sinks :
    (d : Disk) (folder : Text)
    → all (λ (e : Text × Tree). is_known e.0) (existing_sinks d folder) ≡ true
unfolding is_known lit ◌==◌
all-existing_sinks d folder =
    existing_sinks-cases d folder
      (λ (l : List (Text × Tree)). all (λ (e : Text × Tree). is_known e.0) l ≡ true) (λ v g. refl)
      (λ t v g. refl) (λ u v g. refl) (λ t u v g. refl)

update_sink_other :
    (folder s z : Text) (t : Option Tree) (f : Sinks)
    → (s == z) ≡ false
    → update_sink folder s t f folder z ≡ f folder z
unfolding update_sink update
update_sink_other folder s z t f h = rw (==_refl folder, h) refl

-- A seal removes both sinks.
pub clear-existing_sinks :
    (d : Disk) (folder : Text)
    → (clear folder (existing_sinks d folder) d.sinks folder (lit ".versum") ≡ none)
      × (clear folder (existing_sinks d folder) d.sinks folder (lit "grounding") ≡ none)
unfolding clear lit ◌==◌
clear-existing_sinks d folder =
    existing_sinks-cases d folder
      (λ (l : List (Text × Tree)).
        (clear folder l d.sinks folder (lit ".versum") ≡ none)
        × (clear folder l d.sinks folder (lit "grounding") ≡ none))
      (λ v g. (v, g))
      (λ t v g. (
        update_sink_self folder (lit ".versum") none d.sinks,
        update_sink_other folder (lit ".versum") (lit "grounding") none d.sinks refl ∙ g,
      ))
      (λ u v g. (
        update_sink_other folder (lit "grounding") (lit ".versum") none d.sinks refl ∙ v,
        update_sink_self folder (lit "grounding") none d.sinks,
      ))
      (λ t u v g. (
        update_sink_other folder (lit "grounding") (lit ".versum") none _ refl
            ∙ update_sink_self folder (lit ".versum") none d.sinks,
        update_sink_self folder (lit "grounding") none _,
      ))
