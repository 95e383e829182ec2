-- ===== src/Decisions/Tiers.antt =====
-- decisions.py: the tiers of `recall`, and the candidates in the index.
use loomground_lock.Prelude.{
  ℕ, ◌-◌, ◌≡◌, refl, inl, inr, Bool, true, false, not, ◌&&◌, ◌||◌, some, List, [], ◌∷◌, ◌++◌, arith,
  any, map, is_empty, get_last?, ltb, Bool-cases, Option-cases, if◌then◌else◌,
}
use loomground_lock.Text.{Text, lit, ◌==◌}
use loomground_lock.Text.Equality.{==_iff}
use loomground_lock.DecisionFile.{StoredDecision}
use loomground_lock.Decisions.{
  Index, candidates, index_add, is_block, live, always_tier, session_tier, tier_verdict,
  recall_from,
}
use loomground_lock.DecisionErasure.{blank_preview, blank_index}

-- A standing block: of scope "always".
abbrev pub blocks_always : StoredDecision → Bool
blocks_always d = d.scope == lit "always" && is_block d

any-always_tier :
    (ttl now : ℕ) (ds : List StoredDecision)
    → any blocks_always ds ≡ true
    → any is_block (always_tier ttl now ds) ≡ true
unfolding always_tier live
any-always_tier ttl now [] h = cc
any-always_tier ttl now (d ∷ ds) h = ground (arith, any-always_tier ttl now ds)

-- A tier with a block says "block".
verdict-block :
    (ds : List StoredDecision) → any is_block ds ≡ true → tier_verdict ds ≡ some (lit "block")
unfolding tier_verdict
verdict-block [] h = cc
verdict-block (d ∷ ds) h = rw h

not-empty_of-any :
    (p : StoredDecision → Bool) (ds : List StoredDecision) → any p ds ≡ true → is_empty ds ≡ false
not-empty_of-any p [] h = cc
not-empty_of-any p (d ∷ ds) h = refl

pub recall_from-block :
    (ttl now : ℕ) (session : Text) (ds : List StoredDecision)
    → any blocks_always ds ≡ true
    → recall_from ttl now session ds ≡ some (lit "block")
unfolding recall_from
recall_from-block ttl now session ds h =
    let b = any-always_tier ttl now ds h in
    rw (not-empty_of-any is_block (always_tier ttl now ds) b) (verdict-block _ b)

-- An append to the candidates of its hash, and to no others.
pub candidates-index_add :
    (h k : Text) (d : StoredDecision) (index : Index)
    → candidates h (index_add k d index)
      ≡ (if h == k then candidates h index ++ d ∷ [] else candidates h index)
unfolding candidates index_add
candidates-index_add h k d [] = refl
candidates-index_add h k d ((j, ds) ∷ rest) =
    ground (arith, ==_iff h k, ==_iff h j, ==_iff k j, candidates-index_add h k d rest)

pub candidates-blank_index :
    (h : Text) (should : StoredDecision → Bool) (index : Index)
    → candidates h (blank_index should index) ≡ map (blank_preview should) (candidates h index)
unfolding candidates blank_index
candidates-blank_index h should [] = refl
candidates-blank_index h should ((j, ds) ∷ rest) =
    ground (arith, candidates-blank_index h should rest)

pub any-blank_preview :
    (should : StoredDecision → Bool) (ds : List StoredDecision)
    → any blocks_always (map (blank_preview should) ds) ≡ any blocks_always ds
unfolding blank_preview
any-blank_preview should [] = refl
any-blank_preview should (d ∷ ds) = ground (arith, any-blank_preview should ds)

pub or_true : (b : Bool) → (b || true) ≡ true
or_true true = refl
or_true false = refl

-- The two words that a decision may be are not the same.
allow_is_not_block : (lit "allow" == lit "block") ≡ false
unfolding lit ◌==◌
allow_is_not_block = refl

last_is :
    (p : StoredDecision → Bool) (ds : List StoredDecision) (d : StoredDecision)
    → get_last? ds ≡ some d
    → p d ≡ true
    → any p ds ≡ true
last_is p [] d e h = cc
last_is p (x ∷ []) d e h = ground arith
last_is p (x ∷ y ∷ ds) d e h = ground (arith, last_is p (y ∷ ds) d e h)

abbrev says_allow : StoredDecision → Bool
says_allow d = d.decision == lit "allow"

-- "allow" comes only of a last decision that says so, in a tier without a block.
verdict-allow :
    (ds : List StoredDecision)
    → tier_verdict ds ≡ some (lit "allow")
    → (any says_allow ds ≡ true) × (any is_block ds ≡ false)
unfolding tier_verdict
verdict-allow [] h = cc
verdict-allow (d ∷ ds) h = elim (Bool-cases (any is_block (d ∷ ds))) [
  | inl blocked ↦ absurd (ground (arith, allow_is_not_block, ==_iff (lit "allow") (lit "block")))
  | inr clear ↦ elim (Option-cases (get_last? (d ∷ ds))) [
    | inl missing ↦ absurd (ground arith)
    | inr (l, e) ↦
        (last_is says_allow (d ∷ ds) l e (ground (arith, ==_iff l.decision (lit "allow"))), clear)
  ]
]

-- A clearance that applies: an "allow" that has not expired, of scope "always" or of this session.
abbrev pub clears : ℕ → ℕ → Text → StoredDecision → Bool
clears ttl now session d =
    d.decision == lit "allow"
    && (not (ltb 0 ttl && ltb ttl (now - d.ts))
        && (d.scope == lit "always" || (d.scope == lit "session" && d.session_id == session)))

clears_of-always :
    (ttl now : ℕ) (session : Text) (ds : List StoredDecision)
    → any says_allow (always_tier ttl now ds) ≡ true
    → any (clears ttl now session) ds ≡ true
unfolding always_tier live
clears_of-always ttl now session [] h = cc
clears_of-always ttl now session (d ∷ ds) h = ground (
  arith,
  clears_of-always ttl now session ds,
  allow_is_not_block,
  ==_iff d.decision (lit "allow"),
)

clears_of-session :
    (ttl now : ℕ) (session : Text) (ds : List StoredDecision)
    → any says_allow (session_tier ttl now session ds) ≡ true
    → any (clears ttl now session) ds ≡ true
unfolding session_tier live
clears_of-session ttl now session [] h = cc
clears_of-session ttl now session (d ∷ ds) h = ground (
  arith,
  clears_of-session ttl now session ds,
  allow_is_not_block,
  ==_iff d.decision (lit "allow"),
)

pub recall_from-allow :
    (ttl now : ℕ) (session : Text) (ds : List StoredDecision)
    → recall_from ttl now session ds ≡ some (lit "allow")
    → (any (clears ttl now session) ds ≡ true) × (any blocks_always ds ≡ false)
unfolding recall_from
recall_from-allow ttl now session ds h = elim (Bool-cases (any blocks_always ds)) [
  | inl blocked ↦ absurd (
      ground (
        arith,
        recall_from-block ttl now session ds blocked,
        allow_is_not_block,
        ==_iff (lit "allow") (lit "block"),
      ))
  | inr clear ↦ elim (Bool-cases (is_empty (always_tier ttl now ds))) [
    | inl none_always ↦ (
      clears_of-session ttl now session ds
          (verdict-allow (session_tier ttl now session ds) (rw none_always at h)).0,
      clear,
    )
    | inr some_always ↦ (
      clears_of-always ttl now session ds
          (verdict-allow (always_tier ttl now ds) (rw some_always at h)).0,
      clear,
    )
  ]
]
