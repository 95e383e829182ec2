-- ===== src/TierM.antt =====
-- tier_m.py: moderation by a policy's rules. The compiler of author-supplied patterns, Python's
-- `repr` and the classifier backend are parameters.
pub mod Laws
use loomground_lock.Prelude.{
  ℕ, suc, zero, String, ◌+◌, Bool, true, false, not, ◌&&◌, Option, none, some, List, [], ◌∷◌, ◌++◌,
  map, ◌==◌ as eqb, if◌then◌else◌,
}
use loomground_lock.Text.{Text, lit, strip, contains, member, is_blank}
use loomground_lock.Text.Number.{show}
use loomground_lock.Text.Unicode.{Unicode}
use loomground_lock.Value.{
  Value, Items, Fields, str, num, bool, null, arr, obj, nil, cons, end, entry, lookup, keys,
}
use loomground_lock.HostDeps.{Reply, returned, raised}
use loomground_lock.Core.Data.{Finding, high}

-- What `re.compile` does: `re.error` is caught at the call, any other exception is not.
pub data Compiled : Type 0 where
  pattern : (Text → Reply Bool) → Compiled
  invalid : Text → Compiled
  crashed : Text → Compiled

pub record Backend : Type 0 where
  pub is_available : Reply Bool
  pub classify : Text → List Value → Reply Value

pub record ModerationEnv : Type 0 where
  pub compile : Text → Compiled
  -- `make_moderation_backend`, which a host overrides
  pub make_backend : Text → Reply Backend
  -- `repr` of a text, and `str` of a list or a dict
  pub repr : Text → Text
  pub show_value : Value → Text

-- The default of the package always raises.
unfoldable pub no_backend : Text → Reply Backend
no_backend spec = raised (lit "ModerationBackendError")

unfoldable pub truthy : Value → Bool
truthy (str []) = false
truthy (str (c ∷ s)) = true
truthy (num n) = not (eqb n 0)
truthy (bool b) = b
truthy null = false
truthy (arr nil) = false
truthy (arr (cons x xs)) = true
truthy (obj end) = false
truthy (obj (entry k v d)) = true

unfoldable pub is_none : Value → Bool
is_none null = true
is_none _ = false

unfoldable pub items : Items → List Value
items nil = []
items (cons x xs) = x ∷ items xs

-- The iteration over a value, `none` where Python raises a `TypeError`.
unfoldable pub iterate : Value → Option (List Value)
unfolding items
iterate (str s) = some (map (λ c. str (c ∷ [])) s)
iterate (arr xs) = some (items xs)
iterate (obj d) = some (map str (keys d))
iterate (num n) = none
iterate (bool b) = none
iterate null = none

-- `d.get(k)`, where a missing key is `None`
unfoldable pub get : Text → Fields → Value
get k d = elim (lookup k d) [ none ↦ null | some v ↦ v ]

unfoldable pub tier_m_requires_real_backend : Fields → Bool
tier_m_requires_real_backend rules = truthy (get (lit "categories") rules)

unfoldable pub moderation_finding : Text → Text → Finding
moderation_finding type detail = record {
  tier = lit "M";
  type = type;
  severity = high;
  field = none;
  detail = detail;
  confidence = 100;
  remediation_actions = [];
}

unfoldable pub tier_m_unavailable_finding : Text → Finding
tier_m_unavailable_finding detail =
    moderation_finding (lit "tier_m_unavailable")
      (lit "Tier-M moderation check could not run — failing closed: " ++ detail)

unfoldable pub match_finding : Text → Finding
match_finding detail = moderation_finding (lit "moderation_match") detail

infixl 5 ◌>>=◌
abbrev pub ◌>>=◌ : {A B : Type 0} → Reply A → (A → Reply B) → Reply B
returned a >>= f = f a
raised e >>= f = raised e

abbrev numbered : String → ℕ → String → Text
numbered before i after = lit before ++ (show i ++ lit after)

module _ (u : Unicode) (env : ModerationEnv) where
  -- `str(v)`
  unfoldable pub str_of : Value → Text
  str_of (str s) = s
  str_of (num n) = show n
  str_of (bool true) = lit "True"
  str_of (bool false) = lit "False"
  str_of null = lit "None"
  str_of (arr xs) = env.show_value (arr xs)
  str_of (obj d) = env.show_value (obj d)

  -- The loop over `banned_terms`, from the index `i`.
  unfoldable pub check_terms : Text → ℕ → List Value → List Finding
  check_terms low i [] = []
  check_terms low i (term ∷ terms) =
      let rest = check_terms low (i + 1) terms in
      let t = u.lower (strip (str_of term)) in
      if not (is_blank t) && contains t low
      then match_finding (numbered "banned term rule #" i " matched") ∷ rest
      else rest

  unfoldable pub banned_terms : Text → Value → List Finding
  banned_terms text (arr xs) = check_terms (u.lower text) 0 (items xs)
  banned_terms text null = []
  banned_terms text _ = tier_m_unavailable_finding (lit "banned_terms must be a list") ∷ []

  unfoldable pub check_pattern : Text → ℕ → Compiled → Reply (List Finding)
  check_pattern text i (crashed name) = raised name
  check_pattern text i (invalid name) = returned (
      tier_m_unavailable_finding
        (numbered "banned_patterns rule #" i " is not a valid regex (" ++ (name ++ lit ")"))
      ∷ [])
  check_pattern text i (pattern search) = elim (search text) [
    | returned true ↦ returned (match_finding (numbered "banned pattern rule #" i " matched") ∷ [])
    | returned false ↦ returned []
    | raised name ↦ returned (
        tier_m_unavailable_finding
          (numbered "banned_patterns rule #" i " failed to evaluate (" ++ (name ++ lit ")"))
        ∷ [])
  ]

  -- The loop over `banned_patterns`, from the index `i`.
  unfoldable pub check_patterns : Text → ℕ → List Value → Reply (List Finding)
  check_patterns text i [] = returned []
  check_patterns text i (p ∷ ps) = do
    first ← check_pattern text i (env.compile (str_of p))
    rest ← check_patterns text (i + 1) ps
    returned (first ++ rest)

  unfoldable pub banned_patterns : Text → Value → Reply (List Finding)
  banned_patterns text (arr xs) = check_patterns text 0 (items xs)
  banned_patterns text null = returned []
  banned_patterns text _ =
      returned (tier_m_unavailable_finding (lit "banned_patterns must be a list") ∷ [])

  -- The flagged labels that were asked for.
  unfoldable pub flag_findings : List Text → List Value → List Finding
  flag_findings wanted [] = []
  flag_findings wanted (c ∷ cs) =
      let rest = flag_findings wanted cs in
      if member (str_of c) wanted
      then match_finding (lit "moderation classifier flagged category " ++ env.repr (str_of c))
        ∷ rest
      else rest

  -- `result.get("flagged") or []`, and the loop over it; iterating a number raises.
  unfoldable pub flagged_findings : List Value → Value → Reply (List Finding)
  flagged_findings wanted flagged =
      if truthy flagged
      then elim (iterate flagged) [
        | none ↦ raised (lit "TypeError")
        | some cs ↦ returned (flag_findings (map str_of wanted) cs)
      ]
      else returned []

  abbrev unavailable : Text → Reply (List Finding)
  unavailable detail = returned (tier_m_unavailable_finding detail ∷ [])

  unfoldable pub classify_result : List Value → Reply Value → Reply (List Finding)
  classify_result wanted (raised name) =
      unavailable (lit "moderation backend classify failed (" ++ (name ++ lit ")"))
  classify_result wanted (returned (obj d)) = elim (lookup (lit "flagged") d) [
    | none ↦ unavailable (lit "classifier backend returned a malformed result")
    | some flagged ↦ flagged_findings wanted flagged
  ]
  classify_result wanted (returned _) =
      unavailable (lit "classifier backend returned a malformed result")

  -- `backend.classify(text, list(categories))` in its `try`
  unfoldable pub ask_backend : Text → Value → Backend → Reply (List Finding)
  ask_backend text categories backend = elim backend.is_available [
    | raised name ↦
        unavailable (lit "moderation backend availability check failed (" ++ (name ++ lit ")"))
    | returned false ↦ unavailable (lit "moderation backend is not available")
    | returned true ↦ elim (iterate categories) [
      | none ↦ classify_result [] (raised (lit "TypeError"))
      | some wanted ↦ classify_result wanted (backend.classify text wanted)
    ]
  ]

  unfoldable pub check_categories : Text → Fields → Reply (List Finding)
  check_categories text rules =
      let categories = get (lit "categories") rules in
      let spec : Text = elim (lookup (lit "backend") rules) [
        | none ↦ []
        | some v ↦ strip (str_of v)
      ] in
      if truthy categories
      then elim (env.make_backend spec) [
        | raised name ↦ unavailable (lit "moderation backend unavailable (" ++ (name ++ lit ")"))
        | returned backend ↦ ask_backend text categories backend
      ]
      else returned []

  -- `tier_m_check_moderation(text, rules=rules)`
  unfoldable pub tier_m_check_moderation : Text → Fields → Reply (List Finding)
  tier_m_check_moderation text end = returned []
  tier_m_check_moderation text (entry k v d) = if is_blank (strip text) then returned [] else do
    patterns ← banned_patterns text (get (lit "banned_patterns") (entry k v d))
    flagged ← check_categories text (entry k v d)
    returned (banned_terms text (get (lit "banned_terms") (entry k v d)) ++ (patterns ++ flagged))
