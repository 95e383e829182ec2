-- ===== src/LockClassify/Scrub.antt =====
-- lock_classify.py: `_lock_string`, `_doc_token_fn`, and the loops that scrub facets and triples.
-- The message of an exception is left out of a reason.
pub mod Laws
use loomground_lock.Prelude.{
  ℕ, suc, ◌+◌, Bool, true, false, not, Option, none, some, List, [], ◌∷◌, ◌++◌, length,
  if◌then◌else◌,
}
use loomground_lock.Text.{Text, lit, is_blank}
use loomground_lock.Text.Unicode.{Unicode}
use loomground_lock.Value.{Value, Fields, str, num, null, bool, arr, obj, end, entry}
use loomground_lock.TierM.{ModerationEnv, truthy}
use loomground_lock.HostDeps.{HostState, Callable, Reply, returned, raised, doc_token, ensure_wired}
use loomground_lock.Core.Data.{TextDecision, TextAction, standard}
use loomground_lock.Core.TextLock.{lock_text}

-- The dict that `_lock_string` gives; `reason` is there where it refuses.
pub record Scrub : Type 0 where
  pub action : TextAction
  pub text : Text
  pub findings : ℕ
  pub reason : Option Text

unfoldable pub text_or_empty : Option Text → Text
text_or_empty none = []
text_or_empty (some t) = t

unfoldable pub scrub_as : TextAction → Text → TextDecision → Scrub
unfolding text_or_empty
scrub_as TextAction.allow text d = record {
  action = TextAction.allow;
  text = text;
  findings = length d.findings;
  reason = none;
}
scrub_as TextAction.minimise text d = record {
  action = TextAction.minimise;
  text = text_or_empty d.redacted_text;
  findings = length d.findings;
  reason = none;
}
scrub_as TextAction.refuse text d = record {
  action = TextAction.refuse;
  text = lit "[LOCK-REFUSED]";
  findings = length d.findings;
  reason = some d.reason;
}

unfoldable pub unavailable : Text → Scrub
unavailable name = record {
  action = TextAction.refuse;
  text = lit "[LOCK-UNAVAILABLE]";
  findings = 0;
  reason = some (lit "lock_text unavailable: " ++ name);
}

unfoldable pub scrub_of : Text → Reply TextDecision → Scrub
unfolding scrub_as unavailable
scrub_of text (returned d) = scrub_as d.action text d
scrub_of text (raised name) = unavailable name

unfoldable pub nothing_to_lock : Scrub
nothing_to_lock = record { action = TextAction.allow; text = []; findings = 0; reason = none }

-- The lock of a text, as `_lock_string` calls it: what it decides, or the exception it raises.
unfoldable pub triple_lock : Unicode → HostState → ModerationEnv → Text → Text → Reply TextDecision
unfolding lock_text
triple_lock u host env context text =
    returned (lock_text u host env text context standard (lit "triple") none).0

unfoldable pub doc_token_reply : Callable → Text → Text → Reply Text
doc_token_reply (doc_token f) source folder = f source folder
doc_token_reply _ source folder = raised (lit "TypeError")

unfoldable pub token_or_unknown : Reply Text → Text
token_or_unknown (returned t) = t
token_or_unknown (raised name) = lit "<DOC_unknown>"

-- `_doc_token_fn(folder_path)(src)`; a source that is no text is taken to make the hook raise.
unfoldable pub doc_token_of : HostState → Text → Value → Text
unfolding ensure_wired truthy doc_token_reply token_or_unknown
doc_token_of host folder src =
    if not (truthy src)
    then lit "<DOC_NONE>"
    else elim ((ensure_wired host).hooks (lit "opaque_doc_token")) [
      | none ↦ lit "<DOC_unknown>"
      | some hook ↦ elim src [
        | str s ↦ token_or_unknown (doc_token_reply hook s folder)
        | _ ↦ lit "<DOC_unknown>"
      ]
    ]

-- A predicate and an object; all triples of a pair have its id as subject.
abbrev pub Triples : Type 0
Triples = List (Text × Value)

-- What the loop over the triples leaves.
pub record Cleaned : Type 0 where
  pub triples : Triples
  pub dropped : ℕ
  pub audit : List Value
  pub findings : ℕ

module _ (lock : Text → Reply TextDecision) where
  -- `_lock_string(text, context)`
  unfoldable pub lock_string : Text → Scrub
  unfolding scrub_of nothing_to_lock
  lock_string text = if is_blank text then nothing_to_lock else scrub_of text (lock text)

  -- `_lock_string` of a value that may be no text: the lock raises then.
  unfoldable pub lock_value : Value → Scrub
  unfolding lock_string unavailable truthy nothing_to_lock
  lock_value (str s) = lock_string s
  lock_value (num n) = if truthy (num n) then unavailable (lit "TypeError") else nothing_to_lock
  lock_value (bool b) = if b then unavailable (lit "TypeError") else nothing_to_lock
  lock_value null = nothing_to_lock
  lock_value (arr xs) = if truthy (arr xs) then unavailable (lit "TypeError") else nothing_to_lock
  lock_value (obj d) = if truthy (obj d) then unavailable (lit "TypeError") else nothing_to_lock

  unfoldable pub refused_audit : Text → Scrub → Value
  unfolding text_or_empty
  refused_audit p r = obj (
      entry (lit "predicate") (str p) (
        entry (lit "action") (str (lit "refuse"))
          (entry (lit "reason") (str (text_or_empty r.reason)) end)))

  unfoldable pub minimised_audit : Text → Scrub → Value
  minimised_audit p r = obj (
      entry (lit "predicate") (str p)
        (entry (lit "action") (str (lit "minimise")) (entry (lit "findings") (num r.findings) end)))

  -- A scrubbed triple before the rest of the loop.
  unfoldable pub add_scrubbed : TextAction → Text → Scrub → Cleaned → Cleaned
  unfolding refused_audit minimised_audit
  add_scrubbed TextAction.refuse p r rest = record rest {
    dropped = suc rest.dropped;
    audit = refused_audit p r ∷ rest.audit;
    findings = r.findings + rest.findings;
  }
  add_scrubbed TextAction.minimise p r rest = record rest {
    triples = (p, str r.text) ∷ rest.triples;
    audit = minimised_audit p r ∷ rest.audit;
    findings = r.findings + rest.findings;
  }
  add_scrubbed TextAction.allow p r rest = record rest {
    triples = (p, str r.text) ∷ rest.triples;
    findings = r.findings + rest.findings;
  }

  unfoldable pub add_triple : Text → Value → Cleaned → Cleaned
  unfolding lock_string add_scrubbed
  add_triple p (str []) rest = record rest { triples = (p, str []) ∷ rest.triples }
  add_triple p (str (c ∷ s)) rest =
      add_scrubbed (lock_string (c ∷ s)).action p (lock_string (c ∷ s)) rest
  add_triple p (num n) rest = record rest { triples = (p, num n) ∷ rest.triples }
  add_triple p (bool b) rest = record rest { triples = (p, bool b) ∷ rest.triples }
  add_triple p null rest = record rest { triples = (p, null) ∷ rest.triples }
  add_triple p (arr xs) rest = record rest { triples = (p, arr xs) ∷ rest.triples }
  add_triple p (obj d) rest = record rest { triples = (p, obj d) ∷ rest.triples }

  -- `for s, p, o in raw_triples`
  unfoldable pub clean_triples : Triples → Cleaned
  unfolding add_triple
  clean_triples [] = record { triples = []; dropped = 0; audit = []; findings = 0 }
  clean_triples ((p, o) ∷ rest) = add_triple p o (clean_triples rest)

  -- The loop over the facets: the clean ones, and how many are dropped.
  unfoldable pub add_facet : Text → Value → Fields × ℕ → Fields × ℕ
  unfolding lock_string
  add_facet k (str (c ∷ s)) (facets, dropped) =
      let r = lock_string (c ∷ s) in
      elim r.action [
        | TextAction.refuse ↦ (facets, suc dropped)
        | TextAction.allow ↦ (entry k (str r.text) facets, dropped)
        | TextAction.minimise ↦ (entry k (str r.text) facets, dropped)
      ]
  add_facet k v (facets, dropped) = (entry k v facets, dropped)

  unfoldable pub clean_facets : Fields → Fields × ℕ
  unfolding add_facet
  clean_facets end = (end, 0)
  clean_facets (entry k v facets) = add_facet k v (clean_facets facets)
