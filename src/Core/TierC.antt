-- ===== src/Core/TierC.antt =====
-- core.py, Tier C: the terms of the context, then the host's semantic check or the built-in tier,
-- and the finding that fails closed.
pub mod Laws
use loomground_lock.Prelude.{
  ℕ, Bool, true, false, ◌&&◌, not, Option, none, some, List, [], ◌∷◌, ◌++◌, leb, length, ◌||◌,
  ◌==◌ as eqb, is_some, if◌then◌else◌,
}
use loomground_lock.Text.{Text, lit, strip, lstrip, splitlines, contains, is_blank}
use loomground_lock.Text.Unicode.{Unicode}
use loomground_lock.HostDeps.{
  HostState, Callable, Reply, returned, raised, semantic, predicate, ensure_wired,
}
use loomground_lock.Core.Data.{Finding, high}
use loomground_lock.TierCDefault.{tier_c_default_check}

-- The bullet characters of `lstrip("-*•")`.
unfoldable pub is_bullet : ℕ → Bool
is_bullet c = eqb c b'-' || eqb c b'*' || eqb c 0x2022

-- `_context_terms`: the loop over the lines
unfoldable pub terms_of_lines : List Text → List Text
terms_of_lines [] = []
terms_of_lines (line ∷ lines) =
    let rest = terms_of_lines lines in
    let term = strip (lstrip is_bullet (strip line)) in
    if not (is_blank term) && leb 3 (length term) then term ∷ rest else rest

unfoldable pub context_terms : Text → List Text
context_terms context = terms_of_lines (splitlines context)

unfoldable pub tier_c_unavailable_finding : Text → Finding
tier_c_unavailable_finding detail = record {
  tier = lit "C";
  type = lit "tier_c_unavailable";
  severity = high;
  field = none;
  detail = lit "Tier-C semantic check could not run — failing closed: " ++ detail;
  confidence = 100;
  remediation_actions = [];
}

unfoldable pub context_term_finding : Finding
context_term_finding = record {
  tier = lit "C";
  type = lit "pii_in_argument";
  severity = high;
  field = none;
  detail = lit "semantic classifier flagged confidential: matched a confidential term from context";
  confidence = 95;
  remediation_actions = [];
}

-- The host's `tier_c_requires_real_backend`: one that raises counts as a promise.
unfoldable pub predicate_reply : Callable → Reply Bool
predicate_reply (predicate r) = r
predicate_reply _ = raised (lit "TypeError")

unfoldable pub tier_c_required : HostState → Bool
unfolding predicate_reply
tier_c_required host = elim (host.hooks (lit "tier_c_requires_real_backend")) [
  | none ↦ false
  | some hook ↦ elim (predicate_reply hook) [ returned b ↦ b | raised e ↦ true ]
]

unfoldable pub semantic_reply : Callable → Text → Text → Reply (Option (List Finding))
semantic_reply (semantic f) text context = f text context
semantic_reply _ text context = raised (lit "TypeError")

-- What the semantic part gives: the findings of the host's check, or why it could not run.
pub data Semantic : Type 0 where
  ran : List Finding → Semantic
  unavailable : Text → Semantic

abbrev pub crashed : Text → Semantic
crashed name = unavailable (lit "Tier-C layer crashed (" ++ (name ++ lit ")"))

-- A reply that is not a list raises a `TypeError` inside the `try`.
unfoldable pub run_semantic : HostState → Text → Text → Semantic
unfolding semantic_reply
run_semantic host text context = elim host.error [
  | some name ↦ unavailable (lit "host wiring provider raised (" ++ (name ++ lit ")"))
  | none ↦ elim (host.hooks (lit "tier_c_check_semantic")) [
    | none ↦ unavailable (lit "no tier_c_check_semantic hook is wired")
    | some hook ↦ elim (semantic_reply hook text context) [
      | returned (some extra) ↦ ran extra
      | returned none ↦ crashed (lit "TypeError")
      | raised name ↦ crashed name
    ]
  ]
]

module _ (u : Unicode) where
  unfoldable pub any_term_in : List Text → Text → Bool
  any_term_in [] low = false
  any_term_in (t ∷ ts) low = contains (u.lower t) low || any_term_in ts low

  unfoldable pub tier_c_context_terms_check : Text → Text → List Finding
  tier_c_context_terms_check text context =
      if is_blank (strip text)
      then []
      else if any_term_in (context_terms context) (u.lower text)
      then context_term_finding ∷ []
      else []

  -- The built-in tier in the place of the host's, and the finding that fails closed.
  unfoldable pub tier_c_floor : HostState → Text → Text → List Finding
  tier_c_floor wired text detail =
      tier_c_default_check u text
      ++ (if is_some wired.error || tier_c_required wired
          then tier_c_unavailable_finding detail ∷ []
          else [])

  -- `_tier_c(text, context)`
  unfoldable pub tier_c : HostState → Text → Text → List Finding
  tier_c host text context =
      let wired = ensure_wired host in
      tier_c_context_terms_check text context ++ (elim (run_semantic wired text context) [
        | ran extra ↦ extra
        | unavailable detail ↦ tier_c_floor wired text detail
      ])
