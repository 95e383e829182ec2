-- ===== src/Tests/Ensemble.antt =====
-- The ensemble of Tier C at concrete models.
use loomground_lock.Prelude.{◌≡◌, refl, Option, some, all, if◌then◌else◌, true, [], ◌∷◌}
use loomground_lock.Text.{Text, lit, ◌==◌, strip, lstrip, rstrip, is_space}
use loomground_lock.Text.Unicode.{ascii}
use loomground_lock.Value.{Value, Fields, str, end, entry}
use loomground_lock.HostDeps.{HostState, Reply, returned, raised, classifies, unwired, ensure_wired}
use loomground_lock.Core.Ensemble.{
  pii_yes, pii_no, same_label, answer, models_of, classify_reply, prompt, tier_c_semantic_check,
}
use loomground_lock.Core.Ensemble.Laws.{says, tier_c_semantic_check-says}

-- One model answers, the other fails.
abbrev classifier : Text → Text → Text → Reply (Option Fields)
classifier text context model =
    if model == lit "b"
    then raised (lit "TimeoutError")
    else returned (some (entry (lit "category") (str (lit "pii_yes")) end))

abbrev host : HostState
host = record unwired { hooks = λ name. some (classifies classifier); wired = true }

abbrev show : Value → Text
show v = []

tier_c_semantic_check-says_example :
    (says pii_yes
        (tier_c_semantic_check ascii show host (lit "x") [] (some (lit "a" ∷ lit "b" ∷ [])))
      ≡ all
          (λ m.
            same_label pii_yes
              (answer ascii show (classify_reply (classifies classifier) (prompt (lit "x")) [] m)))
          (models_of host (some (lit "a" ∷ lit "b" ∷ []))))
    × (says pii_no
          (tier_c_semantic_check ascii show host (lit "x") [] (some (lit "a" ∷ lit "b" ∷ [])))
        ≡ all
            (λ m.
              same_label pii_no (
                answer ascii show (classify_reply (classifies classifier) (prompt (lit "x")) [] m)))
            (models_of host (some (lit "a" ∷ lit "b" ∷ []))))
unfolding strip lstrip rstrip is_space lit ensure_wired
tier_c_semantic_check-says_example =
    tier_c_semantic_check-says ascii show host (lit "x") [] (some (lit "a" ∷ lit "b" ∷ []))
      (classifies classifier) refl refl
