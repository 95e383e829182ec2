-- ===== src/Core/TierC/Laws.antt =====
-- core.py: `_tier_c`.
use loomground_lock.Prelude.{
  or_true, ◌≡◌, Bool, true, false, ◌||◌, List, [], ◌∷◌, arith, any-append, is_some,
}
use loomground_lock.Text.{Text, contains, strip, is_blank, member}
use loomground_lock.Text.Equality.{==-eq}
use loomground_lock.Text.Unicode.{Unicode}
use loomground_lock.HostDeps.{HostState, ensure_wired}
use loomground_lock.Core.Data.{Finding, is_high, has_high}
use loomground_lock.Core.TierC.{
  Semantic, ran, unavailable, run_semantic, tier_c, tier_c_floor, tier_c_required,
  tier_c_unavailable_finding, context_terms, any_term_in, tier_c_context_terms_check,
  context_term_finding,
}

abbrev pub did_run : Semantic → Bool
did_run (ran extra) = true
did_run (unavailable detail) = false

pub any_term_in-member :
    (u : Unicode) (t low : Text) (ts : List Text)
    → member t ts ≡ true
    → contains (u.lower t) low ≡ true
    → any_term_in u ts low ≡ true
unfolding any_term_in member
any_term_in-member u t low [] m c = cc
any_term_in-member u t low (s ∷ ts) m c = ground (arith, ==-eq t s, any_term_in-member u t low ts)

module _ (u : Unicode) (host : HostState) (text context : Text) where
  floor_high :
      (detail : Text)
      → (is_some (ensure_wired host).error || tier_c_required (ensure_wired host)) ≡ true
      → has_high (tier_c_floor u (ensure_wired host) text detail) ≡ true
  unfolding tier_c_floor tier_c_unavailable_finding
  floor_high detail h = rw (h, any-append is_high) (or_true _)

  -- Where the semantic check has not run and the host has promised a backend, or its wiring has
  -- raised, Tier C has a finding of high severity.
  pub tier_c_fails_closed :
      did_run (run_semantic (ensure_wired host) text context) ≡ false
      → (is_some (ensure_wired host).error || tier_c_required (ensure_wired host)) ≡ true
      → has_high (tier_c u host text context) ≡ true
  unfolding tier_c
  tier_c_fails_closed idle promised =
      rw (any-append is_high) (by_semantic (run_semantic (ensure_wired host) text context) idle)
    where
      by_semantic :
          (s : Semantic)
          → did_run s ≡ false
          → (has_high (tier_c_context_terms_check u text context)
              || has_high (elim s as (λ _. List Finding) [
                | ran extra ↦ extra
                | unavailable detail ↦ tier_c_floor u (ensure_wired host) text detail
              ]))
            ≡ true
      by_semantic (ran extra) h = cc
      by_semantic (unavailable detail) h = rw (floor_high detail promised) (or_true _)

  -- A provider that has raised keeps every semantic check from running.
  pub wiring_error_idle :
      is_some host.error ≡ true → did_run (run_semantic host text context) ≡ false
  unfolding run_semantic
  wiring_error_idle h = ground arith

  -- A confidential term of the context that the text holds gives a finding of high severity,
  -- whatever the host has wired.
  pub context_term_high :
      (t : Text)
      → member t (context_terms context) ≡ true
      → contains (u.lower t) (u.lower text) ≡ true
      → is_blank (strip text) ≡ false
      → has_high (tier_c u host text context) ≡ true
  unfolding tier_c tier_c_context_terms_check context_term_finding
  context_term_high t m c nonblank =
      rw (nonblank, any_term_in-member u t (u.lower text) (context_terms context) m c)
