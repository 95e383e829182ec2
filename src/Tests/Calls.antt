-- ===== src/Tests/Calls.antt =====
-- Egress, ingress and tokens at concrete calls.
use loomground_lock.Prelude.{
  ◌<◌, ◌≡◌, refl, ◌↔◌, ◌&&◌, ◌||◌, not, true, false, none, some, [], ◌∷◌, List, inl, inr, is_some,
  if◌then◌else◌,
}
use loomground_lock.Text.{Text, lit, ◌==◌, member}
use loomground_lock.Text.Unicode.{ascii}
use loomground_lock.Value.{end, entry, str, obj, lookup, keys}
use loomground_lock.HostDeps.{unwired}
use loomground_lock.Core.Data.{
  ToolCall, ToolResponse, CapabilityToken, EgressAction, IngressAction, standard, strict, has_high,
}
use loomground_lock.Core.TierA.{flatten}
use loomground_lock.Core.Patterns.{tier_b_patterns}
use loomground_lock.Core.TierB.{
  tier_b_scan_text, tier_b_scan_dict, scan_patterns, scan_dict, with_field,
}
use loomground_lock.Core.Token.{TokenEnv, absent, bad_pem, is_strict, validate_token}
use loomground_lock.Core.Token.Laws.{IsSigned, validate_token_iff}
use loomground_lock.Core.Egress.{egress, outgoing, fields_of}
use loomground_lock.Core.Egress.Laws.{
  egress_standard_arguments, nested_path_goes_on, egress_strict_iff,
}
use loomground_lock.Core.Ingress.{ingress, ingress_findings, incoming}
use loomground_lock.Core.Ingress.Laws.{
  redacted, scanned, ingress_enforced_payload, ingress_enforced_action, nested_value_comes_back,
  hit_text_is_redacted,
}

-- Claims only: no signature is asked for, and the clock shows 100.
abbrev pub env : TokenEnv
env = record {
  strict_sig = none;
  trust_store = none;
  read_store = λ path. absent;
  load_pem = λ p. bad_pem;
  from_hex = λ s. none;
  signed_bytes = λ t. [];
  verifies = λ key signature payload. false;
  now = 100;
}

abbrev pub token : CapabilityToken
token = record {
  iss = lit "issuer";
  sub = lit "agent";
  aud = lit "hr.get";
  iat = 50;
  exp = 200;
  scope = end;
  controller = lit "c";
  task_id = lit "t";
  signature = [];
}

-- { id: "E-1", profile: { salary: "x" } }
abbrev call : ToolCall
call = record {
  tool = lit "hr.get";
  arguments =
      entry (lit "id") (str (lit "E-1"))
        (entry (lit "profile") (obj (entry (lit "salary") (str (lit "x")) end)) end);
  capability_token = some token;
}

abbrev declared : List Text
declared = lit "id" ∷ lit "profile" ∷ []

egress_standard_arguments_example :
    lookup
      (lit "profile")
      (outgoing call (egress ascii unwired env call (lit "id" ∷ []) standard)).arguments
    ≡ none
unfolding lit member ◌==◌
egress_standard_arguments_example =
    egress_standard_arguments call (lit "id" ∷ []) ascii unwired env (lit "profile")

declared_keys : (k : Text) → member k (keys call.arguments) ≡ true → member k declared ≡ true
unfolding member keys
declared_keys k h = h

nested_path_goes_on_example :
    let d = egress ascii unwired env call declared standard in
    (d.action ≡ EgressAction.strip)
    × (member (lit "profile.salary") d.stripped_fields ≡ true)
    × ((outgoing call d).arguments ≡ call.arguments)
unfolding lit member ◌==◌ flatten keys
nested_path_goes_on_example =
    nested_path_goes_on call declared ascii unwired env (lit "profile.salary") refl refl
      declared_keys

egress_strict_iff_example :
    let d = egress ascii unwired env call declared strict in
    ((d.action ≡ EgressAction.allow) ↔ (
      ((p : Text) → member p (flatten call.arguments []) ≡ true → member p declared ≡ true)
      × (has_high (tier_b_scan_dict ascii unwired call.arguments) ≡ false)
      × (has_high (validate_token env call.capability_token call).findings ≡ false)))
    × (outgoing call d ≡ call)
egress_strict_iff_example = egress_strict_iff ascii unwired env call declared

validate_token_iff_example : ((validate_token env (some token) call).valid ≡ true) ↔ (
    (t : CapabilityToken) × (some token ≡ some t)
    × (is_strict env.strict_sig ≡ true → IsSigned env t)
    × (env.now < t.exp)
    × (t.aud ≡ call.tool))
validate_token_iff_example = validate_token_iff env (some token) call

-- { note: "call", contact: { email: "a@b.org" } }
abbrev response : ToolResponse
response = record {
  payload =
      entry (lit "note") (str (lit "a@b.org"))
        (entry (lit "contact") (obj (entry (lit "email") (str (lit "a@b.org")) end)) end);
}

abbrev expected : List Text
expected = lit "note" ∷ lit "contact" ∷ []

ingress_enforced_payload_example :
    lookup (lit "extra") (incoming response (ingress ascii unwired response expected strict)) ≡ (
      if is_some (lookup (lit "extra") response.payload)
        && (not (member (lit "extra") expected)
            || member (lit "extra") (fields_of (scanned ascii unwired response expected)))
      then redacted
      else lookup (lit "extra") response.payload)
ingress_enforced_payload_example =
    ingress_enforced_payload ascii unwired response expected strict (inr refl) (lit "extra")

ingress_enforced_action_example :
    let d = ingress ascii unwired response expected standard in
    (has_high (ingress_findings ascii unwired response expected) ≡ true
      → d.action ≡ IngressAction.redact)
    × ((k : Text)
        → member k (keys response.payload) ≡ true
        → member k expected ≡ false
        → d.action ≡ IngressAction.redact)
    × (has_high (ingress_findings ascii unwired response expected) ≡ false
        → ((k : Text) → member k (keys response.payload) ≡ true → member k expected ≡ true)
        → d.action ≡ IngressAction.allow)
ingress_enforced_action_example =
    ingress_enforced_action ascii unwired response expected standard (inl refl)

nested_value_comes_back_example :
    let d = ingress ascii unwired response expected standard in
    (d.action ≡ IngressAction.redact)
    × (lookup (lit "contact") (incoming response d)
        ≡ some (obj (entry (lit "email") (str (lit "a@b.org")) end)))
unfolding lit member ◌==◌ lookup tier_b_scan_dict scan_dict tier_b_scan_text tier_b_patterns
    scan_patterns fields_of with_field
nested_value_comes_back_example =
    nested_value_comes_back ascii unwired response expected standard (lit "contact")
      (entry (lit "email") (str (lit "a@b.org")) end) (inl refl) refl refl refl refl

hit_text_is_redacted_example :
    lookup (lit "note") (incoming response (ingress ascii unwired response expected strict))
    ≡ redacted
unfolding lit ◌==◌ lookup tier_b_scan_text tier_b_patterns scan_patterns
hit_text_is_redacted_example =
    hit_text_is_redacted ascii unwired response expected strict (lit "note") (lit "a@b.org")
      (inr refl) refl refl
