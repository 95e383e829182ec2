-- ===== src/Core/TierB.antt =====
-- core.py, Tier B: the scan of texts and of the texts in a dict, each finding with its remediation
-- block. `host` is the state of host_deps at the call; wiring runs once, so every call site may
-- run it anew.
pub mod Severity
use loomground_lock.Prelude.{true, none, some, Option, List, [], ◌∷◌, ◌++◌, map, if◌then◌else◌}
use loomground_lock.Text.{Text, lit, strip, split_once, is_blank}
use loomground_lock.Text.Unicode.{Unicode}
use loomground_lock.Value.{
  Value, Items, Fields, str, num, bool, null, arr, obj, nil, cons, end, entry,
}
use loomground_lock.Core.Data.{
  Finding, RemediationAction, redact_and_retry, bypass_once, disable_lock, high,
}
use loomground_lock.Core.Patterns.{Pattern, tier_b_patterns, hit}
use loomground_lock.Core.Redact.{redact_for_label, redact_text_with_regex}
use loomground_lock.HostDeps.{HostState, Callable, Reply, payload, returned, raised, ensure_wired}

unfoldable pub disable_lock_reply : Callable → Reply (Option Fields)
disable_lock_reply (payload r) = r
disable_lock_reply _ = raised (lit "TypeError")

-- `_disable_lock_payload()`: anything but a dict from the host gives the default
unfoldable pub disable_lock_payload : HostState → Fields
unfolding ensure_wired disable_lock_reply
disable_lock_payload host =
    let default =
      entry (lit "acknowledgement_required") (bool true)
        (entry (lit "disclaimer_required") (bool true) end) in
    elim ((ensure_wired host).hooks (lit "disable_lock_remediation")) [
      | none ↦ default
      | some hook ↦ elim (disable_lock_reply hook) [
        | returned (some d) ↦ d
        | returned none ↦ default
        | raised e ↦ default
      ]
    ]

-- The label that a detail names, or the empty text.
unfoldable pub finding_label : Text → Text
unfolding split_once strip
finding_label detail = elim (split_once (lit "regex matched pattern: ") detail) [
  | none ↦ []
  | some (before, after) ↦ strip after
]

module _ (u : Unicode) (host : HostState) where
  unfoldable pub build_remediation_actions : Text → Text → List RemediationAction
  unfolding finding_label redact_for_label redact_text_with_regex disable_lock_payload
  build_remediation_actions detail original_text =
      let label = finding_label detail in
      let redacted =
        if is_blank label
        then redact_text_with_regex u original_text
        else redact_for_label u original_text label in
      record {
        kind = redact_and_retry;
        label = lit "Redact this and try again";
        payload = entry (lit "redacted_text") (str redacted) end;
      }
      ∷ record {
        kind = bypass_once;
        label = lit "Send anyway (this one prompt, this session)";
        payload = entry (lit "acknowledgement_required") (bool true) end;
      }
      ∷ record {
        kind = disable_lock;
        label = lit "Disable lock for this folder (requires disclaimer)";
        payload = disable_lock_payload host;
      }
      ∷ []

  -- The finding for a pattern that hits.
  unfoldable pub pattern_finding : Pattern → Text → Finding
  unfolding build_remediation_actions
  pattern_finding p text =
      let detail = lit "regex matched pattern: " ++ p.label in
      record {
        tier = lit "B";
        type = lit "pii_in_argument";
        severity = high;
        field = none;
        detail = detail;
        confidence = p.confidence;
        remediation_actions = build_remediation_actions detail text;
      }

  unfoldable pub scan_patterns : List Pattern → Text → List Finding
  unfolding hit pattern_finding
  scan_patterns [] text = []
  scan_patterns (p ∷ ps) text =
      let rest = scan_patterns ps text in
      elim (hit u p.matcher text) [ none ↦ rest | some m ↦ pattern_finding p text ∷ rest ]

  unfoldable pub tier_b_scan_text : Text → List Finding
  tier_b_scan_text text = scan_patterns (tier_b_patterns u) text

-- `f.field = key`
unfoldable pub with_field : Text → Finding → Finding
with_field key f = record f { field = some key }

-- The walk over a dict, for the scan of one text.
module _ (scan : Text → List Finding) where
  unfoldable mutual
    unfolding with_field

    pub scan_dict : Fields → List Finding
    scan_dict end = []
    scan_dict (entry key value d) = scan_value key value ++ scan_dict d

    pub scan_value : Text → Value → List Finding
    scan_value key (str s) = map (with_field key) (scan s)
    scan_value key (obj d) = scan_dict d
    scan_value key (arr xs) = scan_items key xs
    scan_value key (num n) = []
    scan_value key (bool b) = []
    scan_value key null = []

    pub scan_items : Text → Items → List Finding
    scan_items key nil = []
    scan_items key (cons x xs) = scan_item key x ++ scan_items key xs

    -- An item that is itself a list is not looked into.
    pub scan_item : Text → Value → List Finding
    scan_item key (obj d) = scan_dict d
    scan_item key (str s) = map (with_field key) (scan s)
    scan_item key (arr xs) = []
    scan_item key (num n) = []
    scan_item key (bool b) = []
    scan_item key null = []

unfoldable pub tier_b_scan_dict : Unicode → HostState → Fields → List Finding
tier_b_scan_dict u host d = scan_dict (tier_b_scan_text u host) d
