-- ===== src/Core/Egress/Laws.antt =====
-- core.py: what `egress` sends on, and when it refuses.
use loomground_lock.Prelude.{
  ◌≡◌, refl, ap, ◌∙◌, ◌↔◌, ◌⊎◌, Bool, true, false, not, ◌&&◌, ◌||◌, none, List, [], ◌∷◌, ◌++◌, map,
  arith, inl, inr, is_empty, is_some, any-append, Bool-cases, if◌then◌else◌,
}
use loomground_lock.Text.{Text, lit, member}
use loomground_lock.Text.Equality.{==_iff, ==_refl, member-filter, member-append, nil_of-not-member}
use loomground_lock.Text.Sets.{sorted_set, member-sorted_set}
use loomground_lock.Text.Unicode.{Unicode}
use loomground_lock.Value.{Fields, end, entry, keys, lookup, keep_keys}
use loomground_lock.Value.Laws.{lookup-keep_keys}
use loomground_lock.HostDeps.{HostState}
use loomground_lock.Core.Data.{
  Mode, standard, strict, permissive, audit_only, ToolCall, EgressAction, is_high, has_high,
}
use loomground_lock.Core.TierA.{
  flatten, flatten_value, difference, over_collection, tier_a_check_arguments,
}
use loomground_lock.Core.TierB.{tier_b_scan_dict}
use loomground_lock.Core.Token.{TokenEnv, validate_token}
use loomground_lock.Core.Egress.{
  fields_of, egress_allow, decide_egress, strip_call, egress, egress_findings, outgoing,
}

pub fields_of-over_collection :
    (a b : Text) (xs : List Text) → fields_of (map (over_collection a b) xs) ≡ xs
unfolding fields_of over_collection
fields_of-over_collection a b [] = refl
fields_of-over_collection a b (x ∷ xs) = ap (λ r. x ∷ r) (fields_of-over_collection a b xs)

pub is_empty-map : {A B : Type 0} (f : A → B) (xs : List A) → is_empty (map f xs) ≡ is_empty xs
is_empty-map f [] = refl
is_empty-map f (x ∷ xs) = refl

-- The paths that a call asks for beyond the scope.
pub member-difference :
    (k : Text) (a b : List Text)
    → member k (sorted_set (difference a b)) ≡ (member k a && not (member k b))
unfolding difference
member-difference k a b = member-sorted_set k _ ∙ member-filter k (λ f. not (member f b)) a

-- A key of the arguments is a path.
member-flatten :
    (k : Text) (d : Fields) → is_some (lookup k d) ≡ true → member k (flatten d []) ≡ true
unfolding flatten lookup member
member-flatten k end h = cc
member-flatten k (entry j v d) h =
    ground
      (arith, ==_iff k j, member-append k (flatten_value v j) (flatten d []), member-flatten k d)

pub not-empty_of-member : (p : Text) (xs : List Text) → member p xs ≡ true → is_empty xs ≡ false
unfolding member
not-empty_of-member p [] h = cc
not-empty_of-member p (x ∷ xs) h = refl

-- A filter that lets every key pass changes nothing.
pub keep_keys_all :
    (keep : Text → Bool) (d : Fields)
    → ((k : Text) → member k (keys d) ≡ true → keep k ≡ true)
    → keep_keys keep d ≡ d
unfolding keep_keys keys member
keep_keys_all keep end h = refl
keep_keys_all keep (entry j v d) h =
    ground (arith, h j, ==_refl j, keep_keys_all keep d (λ k e. h k (ground arith)))

-- The stripped fields are the paths beyond the scope.
abbrev over_paths : ToolCall → List Text → List Text
over_paths call scope = sorted_set (difference (flatten call.arguments []) scope)

module _ (call : ToolCall) (scope : List Text) where
  fields_of-tier_a : fields_of (tier_a_check_arguments call.arguments scope) ≡ over_paths call scope
  unfolding tier_a_check_arguments
  fields_of-tier_a =
      fields_of-over_collection (lit "argument requests field '")
        (lit "' not in declared task scope") (over_paths call scope)

  is_empty-tier_a :
      is_empty (tier_a_check_arguments call.arguments scope) ≡ is_empty (over_paths call scope)
  unfolding tier_a_check_arguments
  is_empty-tier_a =
      is_empty-map
        (over_collection (lit "argument requests field '") (lit "' not in declared task scope"))
        (over_paths call scope)

  nothing_over :
      is_empty (over_paths call scope) ≡ true
      → (k : Text) → (member k (flatten call.arguments []) && not (member k scope)) ≡ false
  unfolding member
  nothing_over clean k = ground (arith, member-difference k (flatten call.arguments []) scope)

  stripped_lookup :
      (k : Text)
      → lookup k (keep_keys (λ j. not (member j (over_paths call scope))) call.arguments)
        ≡ (if member k scope then lookup k call.arguments else none)
  stripped_lookup k = ground (
    arith,
    lookup-keep_keys k (λ j. not (member j (over_paths call scope))) call.arguments,
    member-difference k (flatten call.arguments []) scope,
    member-flatten k call.arguments,
  )

  -- In STANDARD mode what goes on keeps the declared keys, with their values, and loses the others.
  pub egress_standard_arguments :
      (u : Unicode) (host : HostState) (env : TokenEnv) (k : Text)
      → lookup k (outgoing call (egress u host env call scope standard)).arguments
        ≡ (if member k scope then lookup k call.arguments else none)
  unfolding egress decide_egress outgoing strip_call
  egress_standard_arguments u host env k = elim (Bool-cases (is_empty (over_paths call scope))) [
    | inl clean ↦
        rw (is_empty-tier_a, clean)
          (ground (arith, nothing_over clean k, member-flatten k call.arguments))
    | inr over ↦ rw (is_empty-tier_a, over, fields_of-tier_a) (stripped_lookup k)
  ]

  -- In STANDARD mode a nested path of the arguments that is not declared is reported as stripped, and
  -- goes on all the same where the keys of the call are declared: the arguments stay as they were.
  pub nested_path_goes_on :
      (u : Unicode) (host : HostState) (env : TokenEnv) (p : Text)
      → member p (flatten call.arguments []) ≡ true
      → member p scope ≡ false
      → ((k : Text) → member k (keys call.arguments) ≡ true → member k scope ≡ true)
      → let d = egress u host env call scope standard in
        (d.action ≡ EgressAction.strip)
        × (member p d.stripped_fields ≡ true)
        × ((outgoing call d).arguments ≡ call.arguments)
  unfolding egress decide_egress outgoing strip_call
  nested_path_goes_on u host env p asked beyond declared =
      let over : is_empty (over_paths call scope) ≡ false =
        not-empty_of-member p (over_paths call scope)
          (ground (arith, member-difference p (flatten call.arguments []) scope)) in
      rw (is_empty-tier_a, over, fields_of-tier_a)
        (
          refl,
          ground (arith, member-difference p (flatten call.arguments []) scope),
          keep_keys_all (λ j. not (member j (over_paths call scope))) call.arguments
              (λ k h.
                ground
                  (arith, member-difference k (flatten call.arguments []) scope, declared k h)),
        )

has_high-over_collection :
    (a b : Text) (xs : List Text) → has_high (map (over_collection a b) xs) ≡ false
unfolding over_collection
has_high-over_collection a b [] = refl
has_high-over_collection a b (x ∷ xs) = has_high-over_collection a b xs

empty_of-declared :
    (call : ToolCall) (scope : List Text)
    → ((p : Text) → member p (flatten call.arguments []) ≡ true → member p scope ≡ true)
    → is_empty (over_paths call scope) ≡ true
empty_of-declared call scope h = rw (
    nil_of-not-member (over_paths call scope) (λ p.
      elim (Bool-cases (member p (flatten call.arguments []))) [
        | inl asked ↦ rw (member-difference p (flatten call.arguments []) scope, asked, h p asked)
        | inr not_asked ↦ rw (member-difference p (flatten call.arguments []) scope, not_asked)
      ]))

module _ (u : Unicode) (host : HostState) (env : TokenEnv) (call : ToolCall)
    (scope : List Text) where
  -- PERMISSIVE and AUDIT_ONLY let every call pass as it is, with all the findings on record.
  pub egress_unenforced :
      (mode : Mode)
      → (mode ≡ permissive) ⊎ (mode ≡ audit_only)
      → let d = egress u host env call scope mode in
        (d.action ≡ EgressAction.allow)
        × (outgoing call d ≡ call)
        × (d.findings ≡ egress_findings u host env call scope)
  unfolding egress decide_egress egress_allow outgoing
  egress_unenforced standard h = ground arith
  egress_unenforced strict h = ground arith
  egress_unenforced permissive h = (refl, refl, refl)
  egress_unenforced audit_only h = (refl, refl, refl)

  has_high-egress_findings : has_high (egress_findings u host env call scope) ≡ (
      has_high (tier_b_scan_dict u host call.arguments)
      || has_high (validate_token env call.capability_token call).findings)
  unfolding egress_findings tier_a_check_arguments
  has_high-egress_findings =
      let asked = lit "argument requests field '" in
      let scoped = lit "' not in declared task scope" in
      let token = (validate_token env call.capability_token call).findings in
      let scanned = tier_b_scan_dict u host call.arguments in
      rw (
        any-append is_high (map (over_collection asked scoped) (over_paths call scope))
            (scanned ++ token),
        any-append is_high scanned token,
        has_high-over_collection asked scoped (over_paths call scope),
      )

  -- STRICT never changes a call: it refuses, or lets it pass as it is. It lets it pass exactly when
  -- every path of the arguments is declared, and neither Tier B's scan of the arguments, which does
  -- not look into a list that stands in a list, nor the token's validation has a finding of high
  -- severity.
  pub egress_strict_iff :
      let d = egress u host env call scope strict in
      ((d.action ≡ EgressAction.allow) ↔ (
        ((p : Text) → member p (flatten call.arguments []) ≡ true → member p scope ≡ true)
        × (has_high (tier_b_scan_dict u host call.arguments) ≡ false)
        × (has_high (validate_token env call.capability_token call).findings ≡ false)))
      × (outgoing call d ≡ call)
  unfolding egress decide_egress egress_allow outgoing
  egress_strict_iff =
      rw (has_high-egress_findings, is_empty-tier_a call scope)
        (
          (
            λ h. (
              λ p asked. ground (arith, nothing_over call scope (ground arith) p),
              ground arith,
              ground arith,
            ),
            λ h. ground (arith, empty_of-declared call scope h.0),
          ),
          ground arith,
        )
