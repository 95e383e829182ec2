-- ===== src/Core/TextLock.antt =====
-- core.py: `_detect_confusable_bypass`, `lock_text` and `_decide_text`.
pub mod Laws
use loomground_lock.Prelude.{
  ℕ, Bool, true, false, not, ◌&&◌, ◌||◌, Option, none, some, List, [], ◌∷◌, ◌++◌, map, any, filter,
  length, is_empty, if◌then◌else◌,
}
use loomground_lock.Text.{Text, lit, ◌==◌}
use loomground_lock.Text.Sets.{sorted_set}
use loomground_lock.Text.Number.{show}
use loomground_lock.Text.Unicode.{Unicode}
use loomground_lock.Value.{Fields, end, entry, str, assign}
use loomground_lock.HostDeps.{HostState, Reply, returned, raised, ensure_wired}
use loomground_lock.Core.Data.{
  Mode, standard, strict, permissive, audit_only, Finding, RemediationAction, TextDecision,
  TextAction, high, has_high,
}
use loomground_lock.Core.Fold.{ascii_fold}
use loomground_lock.Core.Redact.{redact_text_with_regex}
use loomground_lock.Core.TierB.{build_remediation_actions, tier_b_scan_text}
use loomground_lock.Core.TierC.{tier_c}
use loomground_lock.TierM.{
  ModerationEnv, tier_m_check_moderation, tier_m_requires_real_backend, tier_m_unavailable_finding,
}

-- `(f.type, f.detail) == (g.type, g.detail)`
unfoldable pub same_kind : Finding → Finding → Bool
same_kind f g = f.type == g.type && f.detail == g.detail

-- `[f for f in folded if (f.type, f.detail) not in original]`
unfoldable pub hidden_findings : List Finding → List Finding → List Finding
hidden_findings original folded = filter (λ f. not (any (same_kind f) original)) folded

-- `", ".join(...)`
unfoldable pub join_comma : List Text → Text
join_comma [] = []
join_comma (t ∷ []) = t
join_comma (t ∷ t' ∷ ts) = t ++ (lit ", " ++ join_comma (t' ∷ ts))

-- `[:3]`
unfoldable pub first_three : List Text → List Text
first_three (a ∷ b ∷ c ∷ rest) = a ∷ b ∷ c ∷ []
first_three ts = ts

-- `actions[0].payload["redacted_text"] = text`
unfoldable pub set_retry_text : Text → List RemediationAction → List RemediationAction
set_retry_text text [] = []
set_retry_text text (a ∷ actions) =
    record a { payload = assign (lit "redacted_text") (str text) a.payload } ∷ actions

module _ (u : Unicode) (host : HostState) where
  unfoldable pub bypass_finding : Text → Text → List Finding → Finding
  bypass_finding text folded hidden =
      let detail =
        lit "Confusable-Unicode bypass detected: "
        ++ (show (length hidden)
            ++ (lit " PII pattern(s) hidden behind homoglyph substitution. Examples: "
                ++ join_comma (first_three (sorted_set (map (λ (f : Finding). f.type) hidden))))) in
      record {
        tier = lit "B+";
        type = lit "confusable_bypass";
        severity = high;
        field = some [];
        detail = detail;
        confidence = 95;
        remediation_actions =
            set_retry_text (redact_text_with_regex u folded)
              (build_remediation_actions u host detail text);
      }

  unfoldable pub detect_confusable_bypass : Text → List Finding
  detect_confusable_bypass text =
      let folded = ascii_fold u text in
      let hidden =
        hidden_findings (tier_b_scan_text u host text) (tier_b_scan_text u host folded) in
      if folded == text
      then []
      else if is_empty hidden
      then []
      else bypass_finding text folded hidden ∷ []

unfoldable pub text_allow : List Finding → Text → Text → TextDecision
text_allow findings reason source = record {
  action = TextAction.allow;
  findings = findings;
  redacted_text = none;
  reason = reason;
  source = source;
}

unfoldable pub text_refuse : List Finding → Text → Text → TextDecision
text_refuse findings reason source = record {
  action = TextAction.refuse;
  findings = findings;
  redacted_text = none;
  reason = reason;
  source = source;
}

-- `_decide_text(findings, text, mode, source)`
unfoldable pub decide_text : Unicode → List Finding → Text → Mode → Text → TextDecision
unfolding text_allow text_refuse
decide_text u findings text audit_only source =
    text_allow findings (lit "audit-only mode — recording only") source
decide_text u findings text permissive source =
    text_allow findings (lit "permissive mode — findings recorded, not enforced") source
decide_text u findings text strict source =
    if is_empty findings
    then text_allow [] [] source
    else text_refuse findings (lit "strict mode: any finding blocks") source
decide_text u findings text standard source =
    if is_empty findings
    then text_allow [] [] source
    else if has_high findings
    then text_refuse findings
        (lit "high-severity finding (PII regex match, confidential term, or special-category)")
        source
    else record {
      action = TextAction.minimise;
      findings = findings;
      redacted_text = some (redact_text_with_regex u text);
      reason = lit "medium-severity findings; pattern-matched spans redacted";
      source = source;
    }

-- The `except` arms around Tier M: declared categories fail closed.
unfoldable pub tier_m_after : Fields → Reply (List Finding) → List Finding
tier_m_after rules (returned findings) = findings
tier_m_after rules (raised name) =
    if tier_m_requires_real_backend rules
    then tier_m_unavailable_finding (lit "Tier-M layer crashed (" ++ (name ++ lit ")")) ∷ []
    else []

-- `if moderation_rules: ...`
unfoldable pub moderation : Unicode → ModerationEnv → Text → Option Fields → List Finding
moderation u env text none = []
moderation u env text (some end) = []
moderation u env text (some (entry k v d)) =
    tier_m_after (entry k v d) (tier_m_check_moderation u env text (entry k v d))

module _ (u : Unicode) (host : HostState) (env : ModerationEnv) where
  unfoldable pub lock_findings : Text → Text → Option Fields → List Finding
  lock_findings text context rules =
      tier_b_scan_text u host text
      ++ (detect_confusable_bypass u host text
          ++ (tier_c u host text context ++ moderation u env text rules))

  -- `lock_text(...)`, with the state of host_deps that it leaves: Tier C runs the wiring.
  unfoldable pub lock_text : Text → Text → Mode → Text → Option Fields → TextDecision × HostState
  lock_text text context mode source rules =
      (decide_text u (lock_findings text context rules) text mode source, ensure_wired host)
