-- ===== src/Tests/Log.antt =====
-- The audit log at concrete calls and texts.
use loomground_lock.Prelude.{◌≡◌, refl, none, some, [], true}
use loomground_lock.Text.{Text, lit, ◌==◌, splitlines, strip}
use loomground_lock.Text.Unicode.{ascii}
use loomground_lock.Text.Regex.{search}
use loomground_lock.Value.{end, entry, str}
use loomground_lock.HostDeps.{unwired, ensure_wired}
use loomground_lock.Core.Data.{ToolCall, standard}
use loomground_lock.Core.Patterns.{tier_b_patterns}
use loomground_lock.Core.TierB.{tier_b_scan_text, scan_patterns}
use loomground_lock.Core.Audit.{Stamp, audited_lock_text}
use loomground_lock.Core.Audit.Laws.{IsAlike, logged, text_log_alike}
use loomground_lock.Core.TextLock.{lock_findings, detect_confusable_bypass, moderation}
use loomground_lock.Core.TierC.{
  tier_c_required, tier_c, tier_c_context_terms_check, tier_c_floor, run_semantic, any_term_in,
  context_terms, terms_of_lines,
}
use loomground_lock.TierCDefault.{
  tier_c_default_check, classify, first_kind, kinds, health, financial, name_pair,
}
use loomground_lock.Core.Fold.{ascii_fold}
use loomground_lock.Tests.Calls.{token}
use loomground_lock.Tests.Lock.{moderation_off}

abbrev stamp : Stamp
stamp = record { ts = 7; audit_id = lit "id" }

abbrev mail_call : Text → ToolCall
mail_call address = record {
  tool = lit "hr.get";
  arguments = entry (lit "to") (str address) end;
  capability_token = some token;
}

clean_scan :
    (tier_b_scan_text ascii unwired (lit "hi") ≡ [])
    × (tier_b_scan_text ascii unwired (lit "yo") ≡ [])
unfolding lit tier_b_scan_text tier_b_patterns scan_patterns
clean_scan = (refl, refl)

clean_fold :
    (detect_confusable_bypass ascii unwired (lit "hi") ≡ [])
    × (detect_confusable_bypass ascii unwired (lit "yo") ≡ [])
unfolding lit detect_confusable_bypass ascii_fold ◌==◌
clean_fold = (refl, refl)

clean_tier_c : (tier_c ascii unwired (lit "hi") [] ≡ []) × (tier_c ascii unwired (lit "yo") [] ≡ [])
unfolding lit tier_c tier_c_context_terms_check tier_c_floor run_semantic any_term_in context_terms
    terms_of_lines splitlines tier_c_default_check classify first_kind kinds strip ensure_wired
    search health financial name_pair tier_c_required
clean_tier_c = (refl, refl)

texts-IsAlike :
    IsAlike
      (lock_findings ascii unwired moderation_off (lit "hi") [] none)
      (lock_findings ascii unwired moderation_off (lit "yo") [] none)
unfolding lock_findings moderation
texts-IsAlike =
    rw (clean_scan.0, clean_scan.1, clean_fold.0, clean_fold.1, clean_tier_c.0, clean_tier_c.1)

text_log_alike_example :
    logged (
      audited_lock_text ascii unwired true stamp moderation_off
        (lit "hi")
        []
        standard
        (lit "document")
        none
        none
        (some []))
    ≡ logged (
        audited_lock_text ascii unwired true stamp moderation_off
          (lit "yo")
          []
          standard
          (lit "document")
          none
          none
          (some []))
unfolding lit
text_log_alike_example =
    text_log_alike ascii unwired true stamp moderation_off (lit "hi") (lit "yo") [] standard
      (lit "document") none none (some []) refl texts-IsAlike
