-- ===== src/Seal/Keys.antt =====
-- seal.py: the paths in the manifest of a sealed folder.
use loomground_lock.Prelude.{
  ◌≡◌, refl, ap, sym, ◌∙◌, Bool, true, false, ◌||◌, Option, some, is_some, List, [], ◌∷◌, ◌++◌, all,
  any, arith,
}
use loomground_lock.Text.{Text, lit, ◌==◌, member, has_prefix}
use loomground_lock.Text.Equality.{all-member}
use loomground_lock.Value.{Fields, end, keys}
use loomground_lock.Seal.Disk.{Tree, Disk, file_at}
use loomground_lock.Seal.Disk.Runs.{distinct_paths}
use loomground_lock.Seal.Envelope.{Primitives}
use loomground_lock.Seal.Folder.{sink_prefix, pack_tree, pack_sinks, snapshot, existing_sinks}
use loomground_lock.Seal.Reliable.{well_keyed, well_keyed_fields}
use loomground_lock.Seal.Pack.{plain_paths}
use loomground_lock.Seal.Sinks.{sound_sink}
use loomground_lock.Seal.Sinks.Existing.{existing_sinks-cases}

==-append : (a s t : Text) → (a ++ s == a ++ t) ≡ (s == t)
unfolding ◌==◌
==-append [] s t = refl
==-append (c ∷ a) s t = ground (arith, ==-append a s t)

sound-distinct :
    (t : Tree) (o : Option Tree) → o ≡ some t → sound_sink o ≡ true → distinct_paths t ≡ true
unfolding sound_sink
sound-distinct t o e h = ground (arith, ap sound_sink (sym e) ∙ h)

-- Paths below a prefix that are keys already.
unfoldable clash : Text → Tree → Fields → Bool
clash prefix t files = any (λ (f : Text × Text). member (prefix ++ f.0) (keys files)) t

module _ (p : Primitives) where
  member-pack_tree :
      (prefix r : Text) (t : Tree) (files : Fields)
      → member (prefix ++ r) (keys (pack_tree p prefix t files))
        ≡ (is_some (file_at r t) || member (prefix ++ r) (keys files))
  unfolding pack_tree member keys file_at
  member-pack_tree prefix r [] files = refl
  member-pack_tree prefix r ((j, c) ∷ t) files =
      ground (arith, ==-append prefix r j, member-pack_tree prefix r t files)

  well_keyed-pack_tree :
      (prefix : Text) (t : Tree) (files : Fields)
      → distinct_paths t ≡ true
      → clash prefix t files ≡ false
      → well_keyed_fields files ≡ true
      → well_keyed_fields (pack_tree p prefix t files) ≡ true
  unfolding well_keyed pack_tree distinct_paths clash
  well_keyed-pack_tree prefix [] files d k h = h
  well_keyed-pack_tree prefix ((r, c) ∷ t) files d k h =
      ground (arith, member-pack_tree prefix r t files, well_keyed-pack_tree prefix t files)

  clash-end : (prefix : Text) (t : Tree) → clash prefix t end ≡ false
  unfolding clash member keys
  clash-end prefix [] = refl
  clash-end prefix (f ∷ t) = clash-end prefix t

  member-other_sink :
      (r : Text) (u : Tree)
      → member
          ((sink_prefix ++ (lit ".versum" ++ lit "/")) ++ r)
          (keys (pack_tree p (sink_prefix ++ (lit "grounding" ++ lit "/")) u end))
        ≡ false
  unfolding pack_tree member keys lit ◌==◌
  member-other_sink r [] = refl
  member-other_sink r ((j, c) ∷ u) = member-other_sink r u

  clash-other_sink :
      (t u : Tree)
      → clash
          (sink_prefix ++ (lit ".versum" ++ lit "/"))
          t
          (pack_tree p (sink_prefix ++ (lit "grounding" ++ lit "/")) u end)
        ≡ false
  unfolding clash
  clash-other_sink [] u = refl
  clash-other_sink ((r, c) ∷ t) u = ground (arith, member-other_sink r u, clash-other_sink t u)

  well_keyed-pack_sinks :
      (d : Disk) (folder : Text)
      → sound_sink (d.sinks folder (lit ".versum")) ≡ true
      → sound_sink (d.sinks folder (lit "grounding")) ≡ true
      → well_keyed_fields (pack_sinks p (existing_sinks d folder)) ≡ true
  unfolding sound_sink pack_sinks well_keyed
  well_keyed-pack_sinks d folder v g =
      existing_sinks-cases d folder
        (λ (l : List (Text × Tree)). well_keyed_fields (pack_sinks p l) ≡ true) (λ v g. refl)
        (λ t e k.
          well_keyed-pack_tree (sink_prefix ++ (lit ".versum" ++ lit "/")) t end
            (sound-distinct t (d.sinks folder (lit ".versum")) e v) (clash-end _ t) refl)
        (λ t k e.
          well_keyed-pack_tree (sink_prefix ++ (lit "grounding" ++ lit "/")) t end
            (sound-distinct t (d.sinks folder (lit "grounding")) e g) (clash-end _ t) refl)
        (λ t u e k.
          well_keyed-pack_tree (sink_prefix ++ (lit ".versum" ++ lit "/")) t _
            (sound-distinct t (d.sinks folder (lit ".versum")) e v) (clash-other_sink t u)
            (well_keyed-pack_tree (sink_prefix ++ (lit "grounding" ++ lit "/")) u end
              (sound-distinct u (d.sinks folder (lit "grounding")) k g) (clash-end _ u) refl))

  all-keys-pack_tree :
      (s : Text) (t : Tree) (files : Fields)
      → all (has_prefix sink_prefix) (keys files) ≡ true
      → all (has_prefix sink_prefix) (keys (pack_tree p (sink_prefix ++ s) t files)) ≡ true
  unfolding pack_tree keys has_prefix lit
  all-keys-pack_tree s [] files h = h
  all-keys-pack_tree s ((r, c) ∷ t) files h = all-keys-pack_tree s t files h

  all-keys-pack_sinks :
      (sinks : List (Text × Tree)) → all (has_prefix sink_prefix) (keys (pack_sinks p sinks)) ≡ true
  unfolding pack_sinks keys
  all-keys-pack_sinks [] = refl
  all-keys-pack_sinks ((s, t) ∷ rest) =
      all-keys-pack_tree (s ++ lit "/") t (pack_sinks p rest) (all-keys-pack_sinks rest)

  clash-plain :
      (t : Tree) (sinks : List (Text × Tree))
      → plain_paths t ≡ true
      → clash [] t (pack_sinks p sinks) ≡ false
  unfolding plain_paths clash
  clash-plain [] sinks h = refl
  clash-plain ((r, c) ∷ t) sinks h = ground (
    arith,
    clash-plain t sinks,
    all-member (has_prefix sink_prefix) r (keys (pack_sinks p sinks)),
    all-keys-pack_sinks sinks,
  )

  -- No path of the manifest of a sealed folder stands in it twice.
  pub well_keyed-snapshot :
      (t : Tree) (d : Disk) (folder : Text)
      → distinct_paths t ≡ true
      → plain_paths t ≡ true
      → sound_sink (d.sinks folder (lit ".versum")) ≡ true
      → sound_sink (d.sinks folder (lit "grounding")) ≡ true
      → well_keyed_fields (snapshot p t (existing_sinks d folder)) ≡ true
  unfolding snapshot
  well_keyed-snapshot t d folder k plain v g =
      well_keyed-pack_tree [] t (pack_sinks p (existing_sinks d folder)) k
        (clash-plain t (existing_sinks d folder) plain) (well_keyed-pack_sinks d folder v g)
