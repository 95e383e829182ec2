-- ===== src/Core/Ensemble/Laws.antt =====
-- core.py, the ensemble of Tier C: what the votes of the models come to.
use loomground_lock.Prelude.{
  ◌≡◌, refl, ap, sym, ◌∙◌, Bool, true, false, ◌&&◌, Option, none, some, List, [], ◌∷◌, all,
  is_empty, both_true, Bool-cases, Option-cases, inl, inr, arith, if◌then◌else◌,
}
use loomground_lock.Text.{Text, lit, ◌==◌, strip, is_blank}
use loomground_lock.Text.Equality.{==-eq}
use loomground_lock.Text.Unicode.{Unicode}
use loomground_lock.Value.{Value, Fields}
use loomground_lock.HostDeps.{HostState, Callable, Reply, returned, raised, ensure_wired}
use loomground_lock.Core.Ensemble.{
  Label, pii_yes, pii_no, insufficient, same_label, Votes, vote, all_vote, unanimous,
  EnsembleResult, verdict_of, answer, ask_all, poll, models_of, models_for_role, configured_or,
  classify_reply, prompt, tier_c_semantic_check, ensemble_models_default, roles_reply,
}

same_label-eq : (a b : Label) → same_label a b ≡ true → a ≡ b
unfolding same_label
same_label-eq pii_yes pii_yes h = refl
same_label-eq pii_yes pii_no h = cc
same_label-eq pii_yes insufficient h = cc
same_label-eq pii_no pii_yes h = cc
same_label-eq pii_no pii_no h = refl
same_label-eq pii_no insufficient h = cc
same_label-eq insufficient pii_yes h = cc
same_label-eq insufficient pii_no h = cc
same_label-eq insufficient insufficient h = refl

same_label_refl : (a : Label) → same_label a a ≡ true
unfolding same_label
same_label_refl pii_yes = refl
same_label_refl pii_no = refl
same_label_refl insufficient = refl

twice : (a b : Bool) → (a && b) ≡ (a && (a && b))
twice a b = ground arith

swap : (a b c : Bool) → (a && (b && c)) ≡ (b && (a && c))
swap a b c = ground arith

module _ (u : Unicode) (show : Value → Text) (ask : Text → Reply (Option Fields)) where
  abbrev said : Text → Label
  said m = answer u show (ask m)

  -- Votes that are what the models said.
  unfoldable true_votes : Votes → Bool
  true_votes votes = all (λ (e : Text × Label). same_label e.1 (said e.0)) votes

  true_votes-vote :
      (m : Text) (votes : Votes)
      → true_votes votes ≡ true
      → true_votes (vote m (said m) votes) ≡ true
  unfolding true_votes vote
  true_votes-vote m [] h = ground (arith, same_label_refl (said m))
  true_votes-vote m ((j, l) ∷ votes) h =
      let (first, later) = both_true (same_label l (said j)) (true_votes votes) h in
      let rest = true_votes-vote m votes later in
      elim (Bool-cases (m == j)) [
        | inl e ↦
            let same : same_label (said m) (said j) ≡ true =
              ap (λ x. same_label (said m) (said x)) (sym (==-eq m j e))
              ∙ same_label_refl (said m) in
            rw e (ap (λ b. b && true_votes votes) same ∙ later)
        | inr e ↦ rw e (ap (λ b. b && true_votes (vote m (said m) votes)) first ∙ rest)
      ]

  all_vote-vote :
      (label : Label) (m : Text) (votes : Votes)
      → true_votes votes ≡ true
      → all_vote label (vote m (said m) votes) ≡ (same_label label (said m) && all_vote label votes)
  unfolding all_vote vote true_votes
  all_vote-vote label m [] h = refl
  all_vote-vote label m ((j, l) ∷ votes) h =
      let (first, later) = both_true (same_label l (said j)) (true_votes votes) h in
      let rest = all_vote-vote label m votes later in
      elim (Bool-cases (m == j)) [
        | inl e ↦
            let same : l ≡ said m = same_label-eq l (said j) first ∙ ap said (sym (==-eq m j e)) in
            rw (e, same) (twice (same_label label (said m)) (all_vote label votes))
        | inr e ↦ rw e (
            ap (λ b. same_label label l && b) rest
            ∙ swap (same_label label l) (same_label label (said m)) (all_vote label votes))
      ]

  -- The votes are unanimous where every model said so.
  all_vote-ask_all :
      (label : Label) (models : List Text) (votes : Votes)
      → true_votes votes ≡ true
      → all_vote label (ask_all u show ask models votes)
        ≡ (all_vote label votes && all (λ m. same_label label (said m)) models)
  unfolding ask_all
  all_vote-ask_all label [] votes h = ground arith
  all_vote-ask_all label (m ∷ ms) votes h = ground (
    arith,
    all_vote-ask_all label ms (vote m (said m) votes),
    true_votes-vote m votes,
    all_vote-vote label m votes,
  )

  vote_nonempty : (m : Text) (l : Label) (votes : Votes) → is_empty (vote m l votes) ≡ false
  unfolding vote
  vote_nonempty m l [] = refl
  vote_nonempty m l ((j, k) ∷ votes) = ground arith

  ask_all_nonempty :
      (models : List Text) (votes : Votes)
      → is_empty votes ≡ false
      → is_empty (ask_all u show ask models votes) ≡ false
  unfolding ask_all
  ask_all_nonempty [] votes h = h
  ask_all_nonempty (m ∷ ms) votes h =
      ask_all_nonempty ms (vote m (said m) votes) (vote_nonempty m (said m) votes)

  -- The votes of some models are unanimous just where each said the label.
  unanimous-ask_all :
      (label : Label) (m : Text) (ms : List Text)
      → unanimous label (ask_all u show ask (m ∷ ms) [])
        ≡ all (λ x. same_label label (said x)) (m ∷ ms)
  unfolding unanimous ask_all true_votes all_vote
  unanimous-ask_all label m ms = ground (
    arith,
    all_vote-ask_all label (m ∷ ms) [] refl,
    ask_all_nonempty ms (vote m (said m) []) (vote_nonempty m (said m) []),
  )

-- The label of a poll: the one that every model gave, or none of the two.
verdict_of-label :
    (votes : Votes)
    → (verdict_of votes).label ≡ (
        if unanimous pii_yes votes
        then pii_yes
        else if unanimous pii_no votes
        then pii_no
        else insufficient)
unfolding verdict_of
verdict_of-label votes = ground arith

-- Votes cannot be unanimous for two labels.
one_label :
    (votes : Votes)
    → ((unanimous pii_yes votes && unanimous pii_no votes) ≡ false)
      × ((unanimous pii_yes votes && all_vote insufficient votes) ≡ false)
      × ((unanimous pii_no votes && all_vote insufficient votes) ≡ false)
unfolding unanimous all_vote same_label
one_label [] = (refl, refl, refl)
one_label ((m, pii_yes) ∷ votes) = (ground arith, ground arith, ground arith)
one_label ((m, pii_no) ∷ votes) = (ground arith, ground arith, ground arith)
one_label ((m, insufficient) ∷ votes) = (ground arith, ground arith, ground arith)

-- Whether there is a result with a label.
unfoldable pub says : Label → Option EnsembleResult → Bool
unfolding same_label
says label none = false
says label (some r) = same_label label r.label

configured_or_nonempty :
    (d : Text) (ds : List Text) (r : Reply (List Text))
    → (m : Text) × (ms : List Text) × (configured_or (d ∷ ds) r ≡ m ∷ ms)
unfolding configured_or
configured_or_nonempty d ds (returned (m ∷ ms)) = (m, ms, refl)
configured_or_nonempty d ds (returned []) = (d, ds, refl)
configured_or_nonempty d ds (raised name) = (d, ds, refl)

models_for_role_nonempty :
    (host : HostState) (role d : Text) (ds : List Text)
    → (m : Text) × (ms : List Text) × (models_for_role host role (d ∷ ds) ≡ m ∷ ms)
unfolding models_for_role
models_for_role_nonempty host role d ds =
    elim (Option-cases ((ensure_wired host).hooks (lit "models_for_role"))) [
      | inl e ↦ rw (models_for_role, e) (d, ds, refl)
      | inr (hook, e) ↦
          rw (models_for_role, e) (configured_or_nonempty d ds (roles_reply hook role))
    ]

models_of_nonempty :
    (host : HostState) (given : Option (List Text))
    → (m : Text) × (ms : List Text) × (models_of host given ≡ m ∷ ms)
unfolding models_of models_for_role ensemble_models_default configured_or
models_of_nonempty host (some (m ∷ ms)) = (m, ms, refl)
models_of_nonempty host (some []) = models_for_role_nonempty host (lit "lock-c") _ _
models_of_nonempty host none = models_for_role_nonempty host (lit "lock-c") _ _

module _ (u : Unicode) (show : Value → Text) where
  poll-says :
      (ask : Text → Reply (Option Fields)) (models : List Text)
      → (says pii_yes (poll u show ask models) ≡ unanimous pii_yes (ask_all u show ask models []))
        × (says pii_no (poll u show ask models) ≡ unanimous pii_no (ask_all u show ask models []))
  unfolding poll says same_label
  poll-says ask models =
      let votes = ask_all u show ask models [] in
      let label = verdict_of-label votes in
      let (yes_no, yes_none, no_none) = one_label votes in (ground arith, ground arith)

  -- For a text that is not blank and a host with a classifier, the ensemble's label is pii_yes just
  -- where the answer of every model that it asks counts as pii_yes, and pii_no just where every
  -- answer counts as pii_no: one model that is unavailable, unsure or of the other mind prevents
  -- both. The models are the given ones, or else the host's, or else the defaults.
  pub tier_c_semantic_check-says :
      (host : HostState) (text context : Text) (given : Option (List Text)) (hook : Callable)
      → is_blank (strip text) ≡ false
      → (ensure_wired host).hooks (lit "llm_classify") ≡ some hook
      → let ask = classify_reply hook (prompt text) context in
        (says pii_yes (tier_c_semantic_check u show host text context given)
          ≡ all (λ m. same_label pii_yes (answer u show (ask m))) (models_of host given))
        × (says pii_no (tier_c_semantic_check u show host text context given)
            ≡ all (λ m. same_label pii_no (answer u show (ask m))) (models_of host given))
  unfolding tier_c_semantic_check
  tier_c_semantic_check-says host text context given hook filled wired =
      let ask = classify_reply hook (prompt text) context in
      let (m, ms, some_models) = models_of_nonempty host given in
      let (joint_yes, joint_no) = poll-says ask (m ∷ ms) in
      rw (tier_c_semantic_check, filled, wired, some_models)
        (
          joint_yes ∙ unanimous-ask_all u show ask pii_yes m ms,
          joint_no ∙ unanimous-ask_all u show ask pii_no m ms,
        )
