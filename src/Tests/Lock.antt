-- ===== src/Tests/Lock.antt =====
-- The text lock at concrete texts.
use loomground_lock.Prelude.{◌≡◌, refl, ◌↔◌, true, false, none, some, [], ◌∷◌, is_empty}
use loomground_lock.Text.{Text, lit, strip, lstrip, rstrip, ◌==◌}
use loomground_lock.Text.Unicode.{ascii}
use loomground_lock.Value.{Fields, end, entry, str, arr, cons, nil, lookup}
use loomground_lock.HostDeps.{HostState, unwired, ensure_wired}
use loomground_lock.Core.Data.{has_high, TextAction, standard, strict}
use loomground_lock.Core.Fold.{ascii_fold}
use loomground_lock.Core.Redact.{redact_text_with_regex}
use loomground_lock.Core.Patterns.{tier_b_patterns}
use loomground_lock.Core.TierB.{tier_b_scan_text, scan_patterns}
use loomground_lock.Core.TierC.{run_semantic}
use loomground_lock.Core.TextLock.{lock_text}
use loomground_lock.Core.TextLock.Laws.{
  folded_hit_refuses, unavailable_semantic_refuses, unjudged_categories_refuse, lock_text_enforced,
  findings,
}
use loomground_lock.TierM.{
  ModerationEnv, invalid, no_backend, tier_m_requires_real_backend, truthy, get,
}
use loomground_lock.TierM.Laws.{no_backend_made}

-- No pattern compiles, and no backend can be made.
abbrev pub moderation_off : ModerationEnv
moderation_off = record {
  compile = λ p. invalid (lit "error");
  make_backend = no_backend;
  repr = λ s. s;
  show_value = λ v. [];
}

-- A host whose wiring provider raises.
abbrev broken_host : HostState
broken_host = record {
  hooks = λ name. none;
  provider = some (λ table. (table, some (lit "OSError")));
  wired = false;
  error = none;
}

-- An address whose first letter is Cyrillic.
abbrev lookalike : Text
lookalike = 0x430 ∷ lit "lex@example.com"

lookalike_hit : is_empty (tier_b_scan_text ascii unwired (ascii_fold ascii lookalike)) ≡ false
unfolding lit ascii_fold tier_b_scan_text tier_b_patterns scan_patterns
lookalike_hit = refl

folded_hit_refuses_example :
    (lock_text ascii unwired moderation_off lookalike [] strict (lit "document") none).0.action
    ≡ TextAction.refuse
folded_hit_refuses_example =
    folded_hit_refuses ascii unwired moderation_off lookalike [] none strict (lit "document") refl
      lookalike_hit

unavailable_semantic_refuses_example :
    (lock_text ascii broken_host moderation_off
      (lit "a plan")
      []
      standard
      (lit "triple")
      none).0.action
    ≡ TextAction.refuse
unfolding run_semantic ensure_wired
unavailable_semantic_refuses_example =
    unavailable_semantic_refuses ascii broken_host moderation_off (lit "a plan") [] none standard
      (lit "triple") refl refl refl

abbrev terms : Text
terms = lit "- project atlas"

abbrev category_rules : Fields
category_rules = entry (lit "categories") (arr (cons (str (lit "violence")) nil)) end

unjudged_categories_refuse_example :
    (lock_text ascii unwired moderation_off
      (lit "hello")
      []
      standard
      (lit "document")
      (some category_rules)).0.action
    ≡ TextAction.refuse
unfolding lit strip lstrip rstrip tier_m_requires_real_backend no_backend truthy get lookup ◌==◌
unjudged_categories_refuse_example =
    unjudged_categories_refuse ascii unwired moderation_off (lit "hello") [] (some category_rules)
      standard (lit "document") refl category_rules refl refl refl
      (no_backend_made (lit "ModerationBackendError") refl)

lock_text_enforced_example :
    let d =
      (lock_text ascii unwired moderation_off lookalike [] standard (lit "document") none).0 in
    let found = findings ascii unwired moderation_off lookalike [] none in
    ((d.action ≡ TextAction.allow) ↔ (is_empty found ≡ true))
    × ((d.action ≡ TextAction.minimise)
        ↔ ((standard ≡ standard) × (is_empty found ≡ false) × (has_high found ≡ false)))
    × ((d.action ≡ TextAction.minimise)
        → d.redacted_text ≡ some (redact_text_with_regex ascii lookalike))
    × (d.findings ≡ found)
lock_text_enforced_example =
    lock_text_enforced ascii unwired moderation_off lookalike [] none standard (lit "document") refl
