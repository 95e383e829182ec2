-- ===== src/Core/TextLock/Laws.antt =====
-- core.py: what `lock_text` decides.
use loomground_lock.Prelude.{
  or_true, ◌≡◌, refl, ◌↔◌, inl, inr, Bool, true, false, not, ◌||◌, Option, none, some, List, [],
  ◌∷◌, arith, any-append, is_some, is_empty, Bool-cases,
}
use loomground_lock.Text.{Text, ◌==◌, contains, strip, is_blank, member}
use loomground_lock.Text.Equality.{==-eq}
use loomground_lock.Text.Unicode.{Unicode}
use loomground_lock.Value.{Fields, end, entry}
use loomground_lock.HostDeps.{HostState, Reply, returned, raised, ensure_wired}
use loomground_lock.Core.Data.{
  Mode, standard, strict, permissive, audit_only, Finding, TextAction, is_high, has_high,
}
use loomground_lock.Core.Fold.{ascii_fold}
use loomground_lock.Core.Redact.{redact_text_with_regex}
use loomground_lock.Core.TierB.{tier_b_scan_text}
use loomground_lock.Core.TierB.Severity.{tier_b_scan_text_high, has_high-of_all}
use loomground_lock.Core.TierC.{tier_c, context_terms, run_semantic, tier_c_required}
use loomground_lock.Core.TierC.Laws.{did_run, tier_c_fails_closed, context_term_high}
use loomground_lock.TierM.{
  ModerationEnv, tier_m_check_moderation, tier_m_requires_real_backend, tier_m_unavailable_finding,
  moderation_finding, get, truthy,
}
use loomground_lock.TierM.Laws.{blocks, CannotJudge, backend_spec, declared_categories_block}
use loomground_lock.Value.{lookup}
use loomground_lock.Core.TextLock.{
  hidden_findings, bypass_finding, detect_confusable_bypass, text_allow, text_refuse, decide_text,
  tier_m_after, moderation, lock_findings, lock_text,
}

-- STANDARD or STRICT
abbrev pub enforces : Mode → Bool
enforces standard = true
enforces strict = true
enforces _ = false

refused_of_high :
    (u : Unicode) (fs : List Finding) (text source : Text) (mode : Mode)
    → enforces mode ≡ true
    → has_high fs ≡ true
    → (decide_text u fs text mode source).action ≡ TextAction.refuse
unfolding decide_text
refused_of_high u [] text source mode e h = cc
refused_of_high u (f ∷ fs) text source standard e h = rw h
refused_of_high u (f ∷ fs) text source strict e h = refl
refused_of_high u (f ∷ fs) text source _ e h = cc

or_true_last : (a b c : Bool) → (a || (b || (c || true))) ≡ true
or_true_last a b c = rw (or_true c, or_true b, or_true a)

after_high :
    (r : Fields) (reply : Reply (List Finding))
    → tier_m_requires_real_backend r ≡ true
    → blocks reply ≡ true
    → has_high (tier_m_after r reply) ≡ true
unfolding tier_m_after tier_m_unavailable_finding moderation_finding
after_high r (returned fs) declared h = h
after_high r (raised name) declared h = rw declared

-- A hit in the folded text is a hit in the text, or one that the folding has uncovered.
hidden_or_seen :
    (original folded : List Finding)
    → is_empty folded ≡ false
    → is_empty (hidden_findings original folded) ≡ true
    → is_empty original ≡ false
unfolding hidden_findings
hidden_or_seen [] [] h k = cc
hidden_or_seen [] (f ∷ fs) h k = cc
hidden_or_seen (o ∷ os) folded h k = refl

module _ (u : Unicode) (host : HostState) (env : ModerationEnv) (text context : Text)
    (rules : Option Fields) where
  abbrev pub findings : List Finding
  findings = lock_findings u host env text context rules

  abbrev scan_high : Bool
  scan_high = has_high (tier_b_scan_text u host text)

  has_high-findings : has_high findings ≡ (
      scan_high
      || (has_high (detect_confusable_bypass u host text)
          || (has_high (tier_c u host text context) || has_high (moderation u env text rules))))
  unfolding lock_findings
  has_high-findings = rw (
    any-append is_high (tier_b_scan_text u host text),
    any-append is_high (detect_confusable_bypass u host text),
    any-append is_high (tier_c u host text context),
  )

  high_of-scan :
      (t : Text) → has_high (tier_b_scan_text u host t) ≡ not (is_empty (tier_b_scan_text u host t))
  high_of-scan t = has_high-of_all (tier_b_scan_text u host t) (tier_b_scan_text_high u host t)

  folded_high :
      is_empty (tier_b_scan_text u host (ascii_fold u text)) ≡ false
      → (scan_high || has_high (detect_confusable_bypass u host text)) ≡ true
  unfolding detect_confusable_bypass bypass_finding
  folded_high hit = elim (Bool-cases (ascii_fold u text == text)) [
    | inl same ↦ rw (high_of-scan text, ← ==-eq (ascii_fold u text) text same, hit)
    | inr differs ↦ ground (
      arith,
      high_of-scan text,
      hidden_or_seen (tier_b_scan_text u host text) (tier_b_scan_text u host (ascii_fold u text))
          hit,
    )
  ]

  moderation_high :
      (r : Fields)
      → is_blank (strip text) ≡ false
      → tier_m_requires_real_backend r ≡ true
      → CannotJudge env (backend_spec u env r)
      → has_high (moderation u env text (some r)) ≡ true
  unfolding moderation tier_m_requires_real_backend get truthy lookup
  moderation_high end nonblank declared cannot = absurd (ground arith)
  moderation_high (entry k v d) nonblank declared cannot =
      after_high (entry k v d) (tier_m_check_moderation u env text (entry k v d)) declared
        (declared_categories_block u env text (entry k v d) nonblank declared cannot)

  module _ (mode : Mode) (source : Text) (enforced : enforces mode ≡ true) where
    refuses :
        has_high findings ≡ true
        → (lock_text u host env text context mode source rules).0.action ≡ TextAction.refuse
    unfolding lock_text
    refuses h = refused_of_high u findings text source mode enforced h

    -- In an enforcing mode a text is refused when some pattern hits what it becomes with its
    -- lookalikes folded to ASCII.
    pub folded_hit_refuses :
        is_empty (tier_b_scan_text u host (ascii_fold u text)) ≡ false
        → (lock_text u host env text context mode source rules).0.action ≡ TextAction.refuse
    folded_hit_refuses hit = refuses (ground (arith, has_high-findings, folded_high hit))

    -- In an enforcing mode, where the semantic check has not run and the host has promised a
    -- backend, or its wiring has raised, the text is refused.
    pub unavailable_semantic_refuses :
        did_run (run_semantic (ensure_wired host) text context) ≡ false
        → (is_some (ensure_wired host).error || tier_c_required (ensure_wired host)) ≡ true
        → (lock_text u host env text context mode source rules).0.action ≡ TextAction.refuse
    unavailable_semantic_refuses idle promised =
        refuses
          (ground (arith, has_high-findings, tier_c_fails_closed u host text context idle promised))

    -- In an enforcing mode a text that is not blank is refused when it holds a confidential term of
    -- the context, both in lower case.
    pub context_term_refuses :
        (t : Text)
        → member t (context_terms context) ≡ true
        → contains (u.lower t) (u.lower text) ≡ true
        → is_blank (strip text) ≡ false
        → (lock_text u host env text context mode source rules).0.action ≡ TextAction.refuse
    context_term_refuses t m c nonblank =
        refuses
          (ground (arith, has_high-findings, context_term_high u host text context t m c nonblank))

    -- In an enforcing mode a text that is not blank is refused where moderation categories are
    -- declared and no backend can judge them: it cannot be made, or it is not available.
    pub unjudged_categories_refuse :
        (r : Fields)
        → rules ≡ some r
        → is_blank (strip text) ≡ false
        → tier_m_requires_real_backend r ≡ true
        → CannotJudge env (backend_spec u env r)
        → (lock_text u host env text context mode source rules).0.action ≡ TextAction.refuse
    unjudged_categories_refuse r e nonblank declared cannot = refuses (
        rw (has_high-findings, e, moderation_high r nonblank declared cannot)
          (or_true_last scan_high (has_high (detect_confusable_bypass u host text))
            (has_high (tier_c u host text context))))

  -- PERMISSIVE and AUDIT_ONLY let every text pass unredacted, with all the findings on record.
  pub lock_text_unenforced :
      (mode : Mode) (source : Text)
      → enforces mode ≡ false
      → let d = (lock_text u host env text context mode source rules).0 in
        (d.action ≡ TextAction.allow) × (d.redacted_text ≡ none) × (d.findings ≡ findings)
  unfolding lock_text decide_text text_allow
  lock_text_unenforced standard source e = cc
  lock_text_unenforced strict source e = cc
  lock_text_unenforced permissive source e = (refl, refl, refl)
  lock_text_unenforced audit_only source e = (refl, refl, refl)

  -- A text passes unchanged in an enforcing mode exactly when nothing has been found; it passes
  -- with its patterns redacted only in STANDARD mode, with findings of which none is of high
  -- severity; and all the findings are on record.
  pub lock_text_enforced :
      (mode : Mode) (source : Text)
      → enforces mode ≡ true
      → let d = (lock_text u host env text context mode source rules).0 in
        ((d.action ≡ TextAction.allow) ↔ (is_empty findings ≡ true))
        × ((d.action ≡ TextAction.minimise)
            ↔ ((mode ≡ standard) × (is_empty findings ≡ false) × (has_high findings ≡ false)))
        × ((d.action ≡ TextAction.minimise)
            → d.redacted_text ≡ some (redact_text_with_regex u text))
        × (d.findings ≡ findings)
  unfolding lock_text decide_text text_allow text_refuse
  lock_text_enforced standard source e = ground arith
  lock_text_enforced strict source e = ground arith
  lock_text_enforced permissive source e = cc
  lock_text_enforced audit_only source e = cc
