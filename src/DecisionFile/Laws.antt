-- ===== src/DecisionFile/Laws.antt =====
-- decisions.py: the round trip of a decision through its line.
use loomground_lock.Prelude.{
  ℕ, any, ◌||◌, ◌==◌ as eqb, ◌≡◌, refl, Bool, true, false, not, [], ◌∷◌, some, arith,
}
use loomground_lock.Text.{lit, ◌==◌}
use loomground_lock.Value.{
  Value, Items, Fields, str, num, bool, null, arr, obj, nil, cons, end, entry, lookup, assign,
}
use loomground_lock.DecisionFile.{StoredDecision, Json, json, to_jsonl, from_dict}

-- `json.dumps(..., ensure_ascii=False)` writes these as they are, and `splitlines()` splits at them.
unfoldable pub breaks_line : ℕ → Bool
breaks_line c = eqb c 0x85 || (eqb c 0x2028 || eqb c 0x2029)

-- Whether some text in a value holds one of them.
unfoldable mutual
  unfolding breaks_line

  pub breaks_value : Value → Bool
  breaks_value (str s) = any breaks_line s
  breaks_value (num n) = false
  breaks_value (bool b) = false
  breaks_value null = false
  breaks_value (arr xs) = breaks_items xs
  breaks_value (obj d) = breaks_fields d

  pub breaks_items : Items → Bool
  breaks_items nil = false
  breaks_items (cons v xs) = breaks_value v || breaks_items xs

  pub breaks_fields : Fields → Bool
  breaks_fields end = false
  breaks_fields (entry k v d) = any breaks_line k || (breaks_value v || breaks_fields d)

-- What the package relies on of `json.dumps`, `splitlines()` and `json.loads`: an object that holds
-- no separator of lines is written as one line, which is read as the object.
abbrev pub ReadsBack : Json → Type 0
ReadsBack j = (o : Fields) → breaks_fields o ≡ false → j.lines_written o ≡ json (obj o) ∷ []

abbrev pub is_one_line : StoredDecision → Bool
is_one_line d = not (breaks_fields (to_jsonl d))

pub from_dict-to_jsonl : (j : Json) (d : StoredDecision) → from_dict j (obj (to_jsonl d)) ≡ some d
unfolding from_dict to_jsonl lookup lit ◌==◌
from_dict-to_jsonl j d = refl

abbrev pub without_preview : StoredDecision → StoredDecision
without_preview d = record d { pattern_preview = [] }

pub assign-to_jsonl :
    (d : StoredDecision)
    → assign (lit "pattern_preview") (str []) (to_jsonl d) ≡ to_jsonl (without_preview d)
unfolding to_jsonl assign lit ◌==◌
assign-to_jsonl d = refl

pub without_preview-one_line :
    (d : StoredDecision) → is_one_line d ≡ true → is_one_line (without_preview d) ≡ true
unfolding to_jsonl breaks_fields breaks_value breaks_line lit
without_preview-one_line d h = ground arith
