-- ===== src/Core/Ensemble.antt =====
-- core.py, the ensemble of Tier C: several models over the host's classifier, which must agree.
-- Confidences are in hundredths; `str` of a value that is no text is an argument.
pub mod Laws
use loomground_lock.Prelude.{
  ℕ, Bool, true, false, not, ◌&&◌, ◌||◌, Option, none, some, List, [], ◌∷◌, ◌++◌, map, all, length,
  is_empty, ◌==◌ as eqb, if◌then◌else◌,
}
use loomground_lock.Text.{Text, lit, ◌==◌, strip, lstrip, rstrip, contains, is_blank}
use loomground_lock.Text.Unicode.{Unicode}
use loomground_lock.Value.{Value, Fields, str, num, bool, null, arr, obj, lookup}
use loomground_lock.TierM.{truthy, get}
use loomground_lock.HostDeps.{
  HostState, Callable, Reply, returned, raised, roles, classifies, ensure_wired,
}

unfoldable pub ensemble_models_default : List Text
ensemble_models_default =
    lit "phi-3.5-mini-q4" ∷ lit "qwen-2.5-coder-7b-q4" ∷ lit "mistral-7b-instruct-q4" ∷ []

unfoldable pub roles_reply : Callable → Text → Reply (List Text)
roles_reply (roles f) role = f role
roles_reply _ role = raised (lit "TypeError")

unfoldable pub configured_or : List Text → Reply (List Text) → List Text
configured_or default (returned (m ∷ ms)) = m ∷ ms
configured_or default (returned []) = default
configured_or default (raised name) = default

-- `_models_for_role(role, default)`
unfoldable pub models_for_role : HostState → Text → List Text → List Text
unfolding ensure_wired roles_reply configured_or
models_for_role host role default = elim ((ensure_wired host).hooks (lit "models_for_role")) [
  | none ↦ default
  | some hook ↦ configured_or default (roles_reply hook role)
]

-- The labels, "pii_yes", "pii_no" and "insufficient" in the source.
pub data Label : Type 0 where
  pii_yes : Label
  pii_no : Label
  insufficient : Label

unfoldable pub same_label : Label → Label → Bool
same_label pii_yes pii_yes = true
same_label pii_no pii_no = true
same_label insufficient insufficient = true
same_label _ _ = false

-- The characters of `strip("\"' .\n\t")`
unfoldable pub is_quoting : ℕ → Bool
is_quoting c = eqb c 34 || eqb c 39 || eqb c 32 || eqb c 46 || eqb c 10 || eqb c 9

-- Lines, each with its line end.
unfoldable pub with_lines : List Text → Text
with_lines [] = []
with_lines (l ∷ ls) = l ++ 10 ∷ with_lines ls

-- TIER_C_COT_PROMPT_TEMPLATE.format(text=text)
unfoldable pub prompt : Text → Text
unfolding with_lines
prompt text = with_lines (
    lit "You are a privacy classifier. Apply these rules IN ORDER:"
    ∷ lit "1. Does the text mention a specific real person by name? (yes/no/unsure)"
    ∷ lit "2. Does it reveal information not public about that person? (yes/no/n/a)"
    ∷ lit "3. Could the combination of details identify the person? (yes/no/unsure)"
    ∷ lit "Then classify: pii_yes / pii_no / insufficient."
    ∷ lit "Output ONLY the final label."
    ∷ []
    ∷ (lit "Text: " ++ text)
    ∷ [])

abbrev pub Votes : Type 0
Votes = List (Text × Label)

-- `per_model[model] = label`
unfoldable pub vote : Text → Label → Votes → Votes
vote model label [] = (model, label) ∷ []
vote model label ((m, l) ∷ votes) =
    let later = (m, l) ∷ vote model label votes in if model == m then (m, label) ∷ votes else later

-- `all(v == label for v in per_model.values())`
unfoldable pub all_vote : Label → Votes → Bool
unfolding same_label
all_vote label votes = all (λ (e : Text × Label). same_label label e.1) votes

-- `set(per_model.values()) == {label}`
unfoldable pub unanimous : Label → Votes → Bool
unfolding all_vote
unanimous label votes = not (is_empty votes) && all_vote label votes

pub record EnsembleResult : Type 0 where
  pub label : Label
  pub per_model : Votes
  pub confidence : ℕ
  pub reason : Text

-- The end of `tier_c_semantic_check`, of the votes that agree or not.
unfoldable pub verdict_of : Votes → EnsembleResult
unfolding unanimous
verdict_of votes =
    if unanimous pii_yes votes
    then record {
      label = pii_yes;
      per_model = votes;
      confidence = 90;
      reason = lit "ensemble agreement (pii_yes)";
    }
    else if unanimous pii_no votes
    then record {
      label = pii_no;
      per_model = votes;
      confidence = 90;
      reason = lit "ensemble agreement (pii_no)";
    }
    else record {
      label = insufficient;
      per_model = votes;
      confidence = 50;
      reason = lit "ensemble disagreement or insufficient — escalate per policy";
    }

unfoldable pub classify_reply : Callable → Text → Text → Text → Reply (Option Fields)
classify_reply (classifies f) text context model = f text context model
classify_reply _ text context model = raised (lit "TypeError")

-- `result.get("ok", True)`
unfoldable pub is_available : Reply (Option Fields) → Bool
unfolding truthy
is_available (raised name) = false
is_available (returned none) = false
is_available (returned (some d)) = elim (lookup (lit "ok") d) [ none ↦ true | some v ↦ truthy v ]

unfoldable pub any_unavailable : (Text → Reply (Option Fields)) → List Text → Bool
unfolding is_available
any_unavailable ask [] = false
any_unavailable ask (m ∷ ms) = not (is_available (ask m)) || any_unavailable ask ms

-- The models of a call: the given ones, or those of the role
unfoldable pub models_of : HostState → Option (List Text) → List Text
unfolding models_for_role ensemble_models_default
models_of host (some (m ∷ ms)) = m ∷ ms
models_of host (some []) = models_for_role host (lit "lock-c") ensemble_models_default
models_of host none = models_for_role host (lit "lock-c") ensemble_models_default

module _ (u : Unicode) (show : Value → Text) where
  -- `_normalise_label(raw)`, of the text of `raw`
  unfoldable pub label_of_text : Text → Label
  unfolding is_quoting
  label_of_text raw =
      let s = rstrip is_quoting (lstrip is_quoting (u.lower (strip raw))) in
      if contains (lit "pii_yes") s || (s == lit "yes" || s == lit "pii")
      then pii_yes
      else if contains (lit "pii_no") s || (s == lit "no" || s == lit "none")
      then pii_no
      else insufficient

  unfoldable pub normalise_label : Value → Label
  unfolding label_of_text
  normalise_label null = insufficient
  normalise_label (str s) = label_of_text s
  normalise_label (num n) = label_of_text (show (num n))
  normalise_label (bool b) = label_of_text (show (bool b))
  normalise_label (arr xs) = label_of_text (show (arr xs))
  normalise_label (obj d) = label_of_text (show (obj d))

  -- The label that a reply of the classifier counts for.
  unfoldable pub answer : Reply (Option Fields) → Label
  unfolding normalise_label is_available get
  answer (raised name) = insufficient
  answer (returned none) = insufficient
  answer (returned (some d)) =
      if is_available (returned (some d))
      then normalise_label (get (lit "category") d)
      else insufficient

  -- The loop over the models, of what the classifier replies to each.
  unfoldable pub ask_all : (Text → Reply (Option Fields)) → List Text → Votes → Votes
  unfolding answer vote
  ask_all ask [] votes = votes
  ask_all ask (m ∷ ms) votes = ask_all ask ms (vote m (answer (ask m)) votes)

  unfoldable pub poll : (Text → Reply (Option Fields)) → List Text → Option EnsembleResult
  unfolding ask_all any_unavailable all_vote verdict_of
  poll ask models =
      let votes = ask_all ask models [] in
      if any_unavailable ask models
        && (all_vote insufficient votes && eqb (length votes) (length models))
      then none
      else some (verdict_of votes)

  -- `tier_c_semantic_check(text, folder_context, models=...)`
  unfoldable pub tier_c_semantic_check :
      HostState → Text → Text → Option (List Text) → Option EnsembleResult
  unfolding poll models_of ensure_wired classify_reply prompt
  tier_c_semantic_check host text context models =
      if is_blank (strip text)
      then some
          (record { label = pii_no; per_model = []; confidence = 100; reason = lit "empty input" })
      else elim ((ensure_wired host).hooks (lit "llm_classify")) [
        | none ↦ none
        | some hook ↦ poll (classify_reply hook (prompt text) context) (models_of host models)
      ]
