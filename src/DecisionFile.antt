-- ===== src/DecisionFile.antt =====
-- decisions.py: a stored decision, its JSON object, and the lines of the file. The writing of a line
-- by `json.dumps` and its reading by `splitlines()`, `strip()` and `json.loads` are parameters, as
-- are `str` of a value that is no text and `float` of one that is no number. Times are whole numbers.
pub mod Laws
use loomground_lock.Prelude.{ℕ, Option, none, some, List}
use loomground_lock.Text.{Text, lit}
use loomground_lock.Value.{Value, Fields, str, num, bool, null, arr, obj, end, entry, lookup}

pub record StoredDecision : Type 0 where
  pub ts : ℕ
  pub pattern_hash : Text
  pub pattern_preview : Text
  pub decision : Text
  pub scope : Text
  pub reason : Text
  pub session_id : Text
  pub actor : Text

-- A line that `splitlines()` gives: what `json.loads` makes of it, or that it is blank or no JSON.
pub data Line : Type 0 where
  json : Value → Line
  blank_line : Line
  not_json : Text → Line

pub record Json : Type 0 where
  -- what a reader finds where `json.dumps(obj, ensure_ascii=False)` and a newline were written
  pub lines_written : Fields → List Line
  -- `str` of a value that is no text
  pub str_of : Value → Text
  -- `float` of a value that is no number, `none` where it raises
  pub float_of : Value → Option ℕ

-- The object of `to_jsonl()`.
unfoldable pub to_jsonl : StoredDecision → Fields
to_jsonl d = entry (lit "ts") (num d.ts) (
    entry (lit "pattern_hash") (str d.pattern_hash) (
      entry (lit "pattern_preview") (str d.pattern_preview) (
        entry (lit "decision") (str d.decision) (
          entry (lit "scope") (str d.scope) (
            entry (lit "reason") (str d.reason) (
              entry (lit "session_id") (str d.session_id)
                (entry (lit "actor") (str d.actor) end)))))))

module _ (j : Json) where
  -- `str(d.get(key, default))`
  unfoldable pub text_of : Text → Option Value → Text
  text_of default none = default
  text_of default (some (str s)) = s
  text_of default (some v) = j.str_of v

  -- `float(d.get("ts", 0.0))`
  unfoldable pub time_of : Option Value → Option ℕ
  time_of none = some 0
  time_of (some (num n)) = some n
  time_of (some v) = j.float_of v

  -- `StoredDecision.from_dict(d)`; `none` for the exception, of `float` or for what has no `get`
  unfoldable pub from_dict : Value → Option StoredDecision
  unfolding text_of time_of
  from_dict (obj d) = elim (time_of (lookup (lit "ts") d)) [
    | none ↦ none
    | some ts ↦ some (record {
      ts = ts;
      pattern_hash = text_of (lit "") (lookup (lit "pattern_hash") d);
      pattern_preview = text_of (lit "") (lookup (lit "pattern_preview") d);
      decision = text_of (lit "block") (lookup (lit "decision") d);
      scope = text_of (lit "once") (lookup (lit "scope") d);
      reason = text_of (lit "") (lookup (lit "reason") d);
      session_id = text_of (lit "") (lookup (lit "session_id") d);
      actor = text_of (lit "") (lookup (lit "actor") d);
    })
  ]
  from_dict (str s) = none
  from_dict (num n) = none
  from_dict (bool b) = none
  from_dict null = none
  from_dict (arr xs) = none
