-- ===== src/Tests/Policy.antt =====
-- The dial, the verdicts and the resolver of credentials at concrete inputs.
use loomground_lock.Prelude.{
  ◌≤◌, ◌≡◌, ◌≢◌, refl, ◌↔◌, ◌⊎◌, true, false, Option, none, some, [], ◌∷◌, if◌then◌else◌,
}
use loomground_lock.Text.{
  Text, lit, ◌==◌, member, strip, lstrip, rstrip, split_once, has_prefix, drop,
}
use loomground_lock.Text.Unicode.{ascii}
use loomground_lock.HostDeps.{unwired, returned, ensure_wired}
use loomground_lock.Oversight.{OversightLevel, notify, review, rank, class_level, effective_level}
use loomground_lock.Oversight.Laws.{effective_level_strictest}
use loomground_lock.Verdicts.{
  Vocabulary, releasing, single_member, true_members, member_verdict, action_text, action_verdict,
  verdict_for_action,
}
use loomground_lock.Verdicts.Laws.{releases, action_released_iff}
use loomground_lock.Credentials.{
  System, holds, armed, parse_ref, check_parts, schemes, resolve_secret, resolve_parsed,
  resolve_keydir, read_target, nonempty, find_key_root, key_root_override, is_open_to_others,
  arm_status,
}
use loomground_lock.Credentials.Laws.{Source, resolve_secret-Source, armed_iff}

effective_level_strictest_example :
    let e = effective_level notify (some review) (some (lit "sensitive")) in
    (rank notify ≤ rank e)
    × ((f : OversightLevel) → some review ≡ some f → rank f ≤ rank e)
    × ((c : OversightLevel) → class_level (some (lit "sensitive")) ≡ some c → rank c ≤ rank e)
    × ((e ≡ notify) ⊎ ((some review ≡ some e) ⊎ (class_level (some (lit "sensitive")) ≡ some e)))
effective_level_strictest_example =
    effective_level_strictest notify (some review) (some (lit "sensitive"))

abbrev vocabulary : Vocabulary
vocabulary = record {
  alphabet = lit "auto" ∷ lit "human" ∷ lit "refused" ∷ [];
  releases_at_master = (lit "auto", true) ∷ (lit "human", false) ∷ [];
}

auto_is_not_human : lit "auto" ≢ lit "human"
unfolding lit
auto_is_not_human = λ e. cc

auto_is_not_refused : lit "auto" ≢ lit "refused"
unfolding lit
auto_is_not_refused = λ e. cc

action_released_iff_example :
    (lit "auto" ≡ lit "auto")
    ↔ (releases (ascii.lower (strip (action_text (some (lit " Strip "))))) ≡ true)
unfolding lit strip lstrip rstrip releasing single_member true_members member member_verdict
    action_verdict action_text verdict_for_action ◌==◌
action_released_iff_example =
    action_released_iff ascii vocabulary (some (lit " Strip ")) (lit "auto") (lit "auto") refl
      auto_is_not_human auto_is_not_refused refl

-- A key root with one file, which only its owner may read.
abbrev system : System
system = record {
  environ = λ name. if name == lit "WORKSPACE_KEY_DIR" then some (lit "/keys") else none;
  expanduser = λ p. p;
  target = λ root locator. record {
    inside_root = true;
    is_file = locator == lit "api";
    mode = 384;
    content = holds (lit " s3cret ");
  };
}

abbrev reference : Option Text
reference = some (lit "keydir:api")

reference_resolves : resolve_secret ascii unwired system reference ≡ returned (some (lit "s3cret"))
unfolding lit strip lstrip rstrip split_once has_prefix drop member parse_ref check_parts schemes
    resolve_secret resolve_parsed resolve_keydir read_target nonempty find_key_root
    key_root_override is_open_to_others ensure_wired ◌==◌
reference_resolves = refl

resolve_secret-Source_example :
    (scheme : Text) × (locator : Text) × (parse_ref ascii reference ≡ some (scheme, locator))
    × Source ascii unwired system (lit "s3cret") scheme locator
resolve_secret-Source_example =
    resolve_secret-Source ascii unwired system reference (lit "s3cret") reference_resolves

armed_iff_example :
    (arm_status ascii unwired system reference ≡ returned armed)
    ↔ ((s : Text) × (resolve_secret ascii unwired system reference ≡ returned (some s)))
armed_iff_example = armed_iff ascii unwired system reference
