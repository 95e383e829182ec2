-- ===== src/Verdicts/Laws.antt =====
-- verdicts.py: what is released without a person.
use loomground_lock.Prelude.{
  ◌≤◌, ◌≡◌, ◌≢◌, refl, ◌⊎◌, ◌↔◌, inl, inr, Bool, true, ◌||◌, Option, arith,
}
use loomground_lock.Text.{Text, lit, ◌==◌, strip}
use loomground_lock.Text.Unicode.{Unicode}
use loomground_lock.Oversight.{OversightLevel, rank, asks_user_per_plan}
use loomground_lock.Verdicts.{
  Vocabulary, Looked, found, lookup_error, releasing, member_verdict, action_verdict,
  oversight_verdict, action_text, verdict_for_action, verdict_for_oversight,
}

-- The actions that go on without a person.
abbrev pub releases : Text → Bool
releases a = a == lit "allow" || (a == lit "minimise" || (a == lit "strip" || a == lit "redact"))

pub Looked-cases : {A : Type 0} (l : Looked A) → (l ≡ lookup_error) ⊎ ((a : A) × (l ≡ found a))
Looked-cases lookup_error = inl refl
Looked-cases (found a) = inr (a, refl)

module _ (u : Unicode) (v : Vocabulary) where
  member_verdict_same : (name m : Text) → member_verdict v name ≡ found m → m ≡ name
  unfolding member_verdict
  member_verdict_same name m h = ground arith

  -- Where the releasing member is neither "human" nor "refused", exactly the four acting decisions
  -- get it; every other action, an unknown or a missing one too, does not.
  pub action_released_iff :
      (action : Option Text) (auto r : Text)
      → releasing v ≡ found auto
      → auto ≢ lit "human"
      → auto ≢ lit "refused"
      → verdict_for_action u v action ≡ found r
      → (r ≡ auto) ↔ (releases (u.lower (strip (action_text action))) ≡ true)
  unfolding verdict_for_action action_verdict
  action_released_iff action auto r rel nh nr h =
      elim (Looked-cases (member_verdict v (lit "human"))) [
        | inl missing ↦ absurd (ground arith)
        | inr (human, eh) ↦ elim (Looked-cases (member_verdict v (lit "refused"))) [
          | inl missing ↦ absurd (ground arith)
          | inr (refused, er) ↦ ground (
            arith,
            member_verdict_same (lit "human") human eh,
            member_verdict_same (lit "refused") refused er,
          )
        ]
      ]

  -- Where the releasing member is not "human", a level is released exactly when it is one of the
  -- two silent ones; every level that asks for a plan is held.
  pub oversight_released_iff :
      (level : OversightLevel) (auto r : Text)
      → releasing v ≡ found auto
      → auto ≢ lit "human"
      → verdict_for_oversight u v level ≡ found r
      → ((r ≡ auto) ↔ (rank level ≤ 2)) × (asks_user_per_plan level ≡ true → r ≡ lit "human")
  unfolding verdict_for_oversight oversight_verdict rank asks_user_per_plan
  oversight_released_iff level auto r rel nh h =
      elim (Looked-cases (member_verdict v (lit "human"))) [
        | inl missing ↦ absurd (ground arith)
        | inr (human, eh) ↦ ground (arith, member_verdict_same (lit "human") human eh)
      ]
