-- ===== src/Core/Ingress/Laws.antt =====
-- core.py: what `ingress` hands on.
use loomground_lock.Prelude.{
  or_true, ◌≡◌, refl, ◌⊎◌, inl, inr, true, false, not, ◌&&◌, ◌||◌, Option, some, List, [], ◌∷◌, map,
  arith, filter, filter-append, all, Option-cases, is_empty, is_some, Bool-cases, if◌then◌else◌,
}
use loomground_lock.Text.{Text, lit, ◌==◌, member}
use loomground_lock.Text.Equality.{==_refl, ==-eq, member-append, nil_of-not-member}
use loomground_lock.Text.Sets.{sorted_set, member-sorted_set}
use loomground_lock.Text.Unicode.{Unicode}
use loomground_lock.Value.{Value, Fields, str, obj, keys, lookup}
use loomground_lock.Value.Laws.{lookup-assign, member-keys}
use loomground_lock.HostDeps.{HostState}
use loomground_lock.Core.Data.{
  Mode, standard, strict, permissive, audit_only, Finding, ToolResponse, IngressAction, is_high,
  has_high,
}
use loomground_lock.Core.TierA.{difference, over_collection, tier_a_check_response}
use loomground_lock.Core.TierB.{tier_b_scan_text, tier_b_scan_dict}
use loomground_lock.Core.TierB.Severity.{
  has_field, tier_b_scan_dict_high, tier_b_scan_dict_field, member-scan_dict, has_high-of_all,
}
use loomground_lock.Core.Egress.{fields_of}
use loomground_lock.Core.Egress.Laws.{
  fields_of-over_collection, member-difference, is_empty-map, not-empty_of-member,
}
use loomground_lock.Core.Ingress.{
  ingress_allow, fields_to_redact, redact_fields, enforce_ingress, decide_ingress, in_response,
  ingress_findings, ingress, incoming,
}

abbrev pub redacted : Option Value
redacted = some (str (lit "[REDACTED]"))

pub lookup-redact_fields :
    (k : Text) (fs : List Text) (d : Fields)
    → lookup k (redact_fields fs d)
      ≡ (if member k fs && is_some (lookup k d) then redacted else lookup k d)
unfolding redact_fields member
lookup-redact_fields k [] d = refl
lookup-redact_fields k (f ∷ fs) d = elim (Bool-cases (is_some (lookup f d))) [
  | inl there ↦
      rw (there, lookup-redact_fields k fs, lookup-assign)
        (elim (Bool-cases (k == f)) [
          | inl same ↦ let e = ==-eq k f same in rw (same, e, there) (ground arith)
          | inr other ↦ rw other
        ])
  | inr missing ↦
      rw (missing, lookup-redact_fields k fs)
        (elim (Bool-cases (k == f)) [
          | inl same ↦ let e = ==-eq k f same in rw (same, e, missing) (ground arith)
          | inr other ↦ rw other
        ])
]

filter-high : (fs : List Finding) → all is_high fs ≡ true → filter is_high fs ≡ fs
filter-high [] h = refl
filter-high (f ∷ fs) h = ground (arith, filter-high fs)

filter-over_collection :
    (a b : Text) (xs : List Text) → filter is_high (map (over_collection a b) xs) ≡ []
unfolding over_collection
filter-over_collection a b [] = refl
filter-over_collection a b (x ∷ xs) = filter-over_collection a b xs

all-high-in_response :
    (fs : List Finding) → all is_high fs ≡ true → all is_high (map in_response fs) ≡ true
unfolding in_response
all-high-in_response [] h = refl
all-high-in_response (f ∷ fs) h = ground (arith, all-high-in_response fs)

fields_of-in_response : (fs : List Finding) → fields_of (map in_response fs) ≡ fields_of fs
unfolding in_response fields_of
fields_of-in_response [] = refl
fields_of-in_response (f ∷ fs) = ground (arith, fields_of-in_response fs)

has_high-filter : (fs : List Finding) → has_high fs ≡ has_high (filter is_high fs)
has_high-filter [] = refl
has_high-filter (f ∷ fs) = ground (arith, has_high-filter fs)

-- A finding that carries a field names it.
field_of_found :
    (fs : List Finding)
    → is_empty fs ≡ false
    → all has_field fs ≡ true
    → (k : Text) × (member k (fields_of fs) ≡ true)
unfolding fields_of member
field_of_found [] h f = cc
field_of_found (x ∷ xs) h f = elim (Option-cases x.field) [
  | inl missing ↦ absurd (ground arith)
  | inr (k, e) ↦ (k, ground (arith, ==_refl k))
]

fields_nil : (fs : List Finding) → is_empty fs ≡ true → fields_of fs ≡ []
unfolding fields_of
fields_nil [] h = refl
fields_nil (x ∷ xs) h = cc

module _ (u : Unicode) (host : HostState) (response : ToolResponse) (scope : List Text) where
  abbrev over : List Text
  over = sorted_set (difference (keys response.payload) scope)

  abbrev pub scanned : List Finding
  scanned = tier_b_scan_dict u host response.payload

  abbrev targets : List Text
  targets =
      fields_to_redact (tier_a_check_response response.payload scope)
        (ingress_findings u host response scope)

  high_findings : filter is_high (ingress_findings u host response scope) ≡ map in_response scanned
  unfolding ingress_findings tier_a_check_response
  high_findings =
      let before = lit "response field '" in
      let after = lit "' not in declared task scope" in
      rw
        (
          filter-append is_high (map (over_collection before after) over) (map in_response scanned),
          filter-over_collection before after over,
        )
        (filter-high (map in_response scanned)
          (all-high-in_response scanned (tier_b_scan_dict_high u host response.payload)))

  -- A key is redacted where it is not declared or the scan names it.
  member-targets :
      (k : Text)
      → member k targets ≡ (
          (is_some (lookup k response.payload) && not (member k scope))
          || member k (fields_of scanned))
  unfolding fields_to_redact tier_a_check_response
  member-targets k =
      let before = lit "response field '" in
      let after = lit "' not in declared task scope" in
      rw (
        member-sorted_set k,
        member-append k,
        high_findings,
        fields_of-in_response,
        fields_of-over_collection before after over,
        member-difference k (keys response.payload) scope,
        member-keys k response.payload,
      )

  enforced :
      (k : Text)
      → lookup k (
          incoming response (
            enforce_ingress response
              (tier_a_check_response response.payload scope)
              (ingress_findings u host response scope)))
        ≡ (if is_some (lookup k response.payload)
              && (not (member k scope) || member k (fields_of scanned))
            then redacted
            else lookup k response.payload)
  unfolding enforce_ingress incoming ingress_allow member
  enforced k = ground (arith, member-targets k, lookup-redact_fields k targets response.payload)

  -- STANDARD and STRICT: a key of the payload that is not declared, or that a finding of the scan
  -- names, comes back as "[REDACTED]"; every other key comes back as it was.
  pub ingress_enforced_payload :
      (mode : Mode)
      → (mode ≡ standard) ⊎ (mode ≡ strict)
      → (k : Text)
      → lookup k (incoming response (ingress u host response scope mode)) ≡ (
          if is_some (lookup k response.payload)
            && (not (member k scope) || member k (fields_of scanned))
          then redacted
          else lookup k response.payload)
  unfolding ingress decide_ingress
  ingress_enforced_payload standard h k = enforced k
  ingress_enforced_payload strict h k = enforced k
  ingress_enforced_payload permissive h k = ground arith
  ingress_enforced_payload audit_only h k = ground arith

  has_high-ingress_findings :
      has_high (ingress_findings u host response scope) ≡ not (is_empty scanned)
  has_high-ingress_findings = rw (
    has_high-filter (ingress_findings u host response scope),
    high_findings,
    has_high-of_all (map in_response scanned)
        (all-high-in_response scanned (tier_b_scan_dict_high u host response.payload)),
    is_empty-map in_response scanned,
  )

  named :
      (k s : Text)
      → lookup k response.payload ≡ some (str s)
      → is_empty (tier_b_scan_text u host s) ≡ false
      → member k (fields_of scanned) ≡ true
  unfolding tier_b_scan_dict
  named k s = member-scan_dict (tier_b_scan_text u host) k s response.payload

  -- A named finding is a target.
  target_of_found : is_empty scanned ≡ false → is_empty targets ≡ false
  target_of_found found =
      let (k, m) = field_of_found scanned found (tier_b_scan_dict_field u host response.payload) in
      not-empty_of-member k targets (rw (member-targets k, m) (or_true _))

  enforced_action :
      let d =
        enforce_ingress response
          (tier_a_check_response response.payload scope)
          (ingress_findings u host response scope) in
      (has_high (ingress_findings u host response scope) ≡ true → d.action ≡ IngressAction.redact)
      × ((k : Text)
          → member k (keys response.payload) ≡ true
          → member k scope ≡ false
          → d.action ≡ IngressAction.redact)
      × (has_high (ingress_findings u host response scope) ≡ false
          → ((k : Text) → member k (keys response.payload) ≡ true → member k scope ≡ true)
          → d.action ≡ IngressAction.allow)
  unfolding enforce_ingress ingress_allow member
  enforced_action = (
    λ h. rw (target_of_found (ground (arith, has_high-ingress_findings))),
    λ k asked beyond. rw (
        not-empty_of-member k targets
          (rw (member-targets k, ← member-keys k response.payload, asked, beyond) refl)),
    λ h declared. rw (
        nil_of-not-member targets (λ k.
          rw (member-targets k, fields_nil scanned (ground (arith, has_high-ingress_findings)))
            (ground (arith, member-keys k response.payload, declared k)))),
  )

  -- STANDARD and STRICT: with a finding of high severity, or with a key that is not declared, the
  -- action is "redact"; without either the response is allowed.
  pub ingress_enforced_action :
      (mode : Mode)
      → (mode ≡ standard) ⊎ (mode ≡ strict)
      → let d = ingress u host response scope mode in
        (has_high (ingress_findings u host response scope) ≡ true → d.action ≡ IngressAction.redact)
        × ((k : Text)
            → member k (keys response.payload) ≡ true
            → member k scope ≡ false
            → d.action ≡ IngressAction.redact)
        × (has_high (ingress_findings u host response scope) ≡ false
            → ((k : Text) → member k (keys response.payload) ≡ true → member k scope ≡ true)
            → d.action ≡ IngressAction.allow)
  unfolding ingress decide_ingress
  ingress_enforced_action standard h = enforced_action
  ingress_enforced_action strict h = enforced_action
  ingress_enforced_action permissive h = absurd (ground arith)
  ingress_enforced_action audit_only h = absurd (ground arith)

  -- In STANDARD or STRICT mode, where the scan has found something but no finding of it names a
  -- declared key whose value is a dict, the action is "redact" and that dict comes back as it was,
  -- whatever the scan has found below it.
  pub nested_value_comes_back :
      (mode : Mode) (k : Text) (e : Fields)
      → (mode ≡ standard) ⊎ (mode ≡ strict)
      → lookup k response.payload ≡ some (obj e)
      → member k scope ≡ true
      → member k (fields_of scanned) ≡ false
      → is_empty scanned ≡ false
      → let d = ingress u host response scope mode in
        (d.action ≡ IngressAction.redact) × (lookup k (incoming response d) ≡ some (obj e))
  nested_value_comes_back mode k e m there declared unnamed found = (
    (ingress_enforced_action mode m).0 (rw (has_high-ingress_findings, found)),
    rw (ingress_enforced_payload mode m k, there, declared, unnamed),
  )

  -- In STANDARD or STRICT mode a text under a key of the payload that some pattern hits comes back as
  -- "[REDACTED]".
  pub hit_text_is_redacted :
      (mode : Mode) (k s : Text)
      → (mode ≡ standard) ⊎ (mode ≡ strict)
      → lookup k response.payload ≡ some (str s)
      → is_empty (tier_b_scan_text u host s) ≡ false
      → lookup k (incoming response (ingress u host response scope mode)) ≡ redacted
  hit_text_is_redacted mode k s m there hits =
      rw (ingress_enforced_payload mode m k, there, named k s there hits) (ground arith)
