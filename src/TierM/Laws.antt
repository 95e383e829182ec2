-- ===== src/TierM/Laws.antt =====
-- tier_m.py: the severity of its findings, and declared categories.
use loomground_lock.Prelude.{
  or_true, ◌≡◌, refl, Bool, true, false, none, some, List, [], ◌++◌, arith, any-append,
}
use loomground_lock.Text.{Text, lit, strip, is_blank}
use loomground_lock.Text.Unicode.{Unicode}
use loomground_lock.Value.{Fields, end, entry, lookup}
use loomground_lock.HostDeps.{Reply, returned, raised}
use loomground_lock.Core.Data.{Finding, is_high, has_high}
use loomground_lock.TierM.{
  ModerationEnv, Backend, truthy, get, tier_m_requires_real_backend, moderation_finding,
  tier_m_unavailable_finding, str_of, banned_terms, banned_patterns, ask_backend, check_categories,
  tier_m_check_moderation, ◌>>=◌,
}

-- The reply blocks the text: it has a finding of high severity, or it raises, which lock_text
-- turns into one where categories are declared.
abbrev pub blocks : Reply (List Finding) → Bool
blocks (returned fs) = has_high fs
blocks (raised name) = true

-- The two fallible parts of the check, in their order, behind the banned terms.
blocks-bind :
    (terms : List Finding) (patterns flagged : Reply (List Finding))
    → blocks flagged ≡ true
    → blocks (patterns >>= λ p. flagged >>= λ f. returned (terms ++ (p ++ f))) ≡ true
blocks-bind terms (raised name) flagged h = refl
blocks-bind terms (returned p) (raised name) h = refl
blocks-bind terms (returned p) (returned f) h =
    rw (any-append is_high terms (p ++ f), any-append is_high p f, h, or_true) (or_true _)

-- A backend that cannot be made, is not available, or whose calls raise.
pub data CannotJudge (env : ModerationEnv) (spec : Text) : Type 0 where
  no_backend_made : (name : Text) → env.make_backend spec ≡ raised name → CannotJudge env spec
  check_raised :
      (b : Backend) (name : Text)
      → env.make_backend spec ≡ returned b
      → b.is_available ≡ raised name
      → CannotJudge env spec
  not_available :
      (b : Backend)
      → env.make_backend spec ≡ returned b
      → b.is_available ≡ returned false
      → CannotJudge env spec

-- The text after `rules.get("backend", "")`.
abbrev pub backend_spec : Unicode → ModerationEnv → Fields → Text
backend_spec u env rules = elim (lookup (lit "backend") rules) [
  | none ↦ []
  | some v ↦ strip (str_of u env v)
]

module _ (u : Unicode) (env : ModerationEnv) (text : Text) where
  categories_block :
      (rules : Fields)
      → truthy (get (lit "categories") rules) ≡ true
      → CannotJudge env (backend_spec u env rules)
      → blocks (check_categories u env text rules) ≡ true
  unfolding check_categories ask_backend tier_m_unavailable_finding moderation_finding
  categories_block rules declared (no_backend_made name e) = rw (declared, e)
  categories_block rules declared (check_raised b name e a) = rw (declared, e, a)
  categories_block rules declared (not_available b e a) = rw (declared, e, a)

  -- Declared categories that no backend can judge block the text.
  pub declared_categories_block :
      (rules : Fields)
      → is_blank (strip text) ≡ false
      → tier_m_requires_real_backend rules ≡ true
      → CannotJudge env (backend_spec u env rules)
      → blocks (tier_m_check_moderation u env text rules) ≡ true
  unfolding tier_m_check_moderation tier_m_requires_real_backend get truthy lookup
  declared_categories_block end nonblank declared cannot = absurd (ground arith)
  declared_categories_block (entry k v d) nonblank declared cannot = rw nonblank (
      blocks-bind (banned_terms u env text (get (lit "banned_terms") (entry k v d)))
        (banned_patterns u env text (get (lit "banned_patterns") (entry k v d)))
        (check_categories u env text (entry k v d))
        (categories_block (entry k v d) declared cannot))
