-- ===== src/Core/TierA.antt =====
-- core.py, Tier A: fields that the task has not declared. A set of texts is the list of its
-- members, and `sorted` of a set is `sorted_set`.
use loomground_lock.Prelude.{not, some, List, [], ◌∷◌, ◌++◌, filter, map, if◌then◌else◌}
use loomground_lock.Text.{Text, lit, member, is_blank}
use loomground_lock.Text.Sets.{sorted_set}
use loomground_lock.Value.{Value, Fields, str, num, bool, null, arr, obj, end, entry, keys}
use loomground_lock.Core.Data.{Finding, medium}

-- `f"{prefix}{k}" if not prefix else f"{prefix}.{k}"`
unfoldable pub field_path : Text → Text → Text
field_path prefix k = if is_blank prefix then prefix ++ k else prefix ++ (lit "." ++ k)

-- `_flatten_argument_fields(arguments, prefix)`
unfoldable mutual
  unfolding field_path

  pub flatten : Fields → Text → List Text
  flatten end prefix = []
  flatten (entry k v d) prefix =
      field_path prefix k ∷ (flatten_value v (field_path prefix k) ++ flatten d prefix)

  pub flatten_value : Value → Text → List Text
  flatten_value (obj d) path = flatten d path
  flatten_value (str s) path = []
  flatten_value (num n) path = []
  flatten_value (bool b) path = []
  flatten_value null path = []
  flatten_value (arr xs) path = []

-- `a - b`
unfoldable pub difference : List Text → List Text → List Text
unfolding member
difference a b = filter (λ f. not (member f b)) a

unfoldable pub over_collection : Text → Text → Text → Finding
over_collection before after f = record {
  tier = lit "A";
  type = lit "over_collection";
  severity = medium;
  field = some f;
  detail = before ++ (f ++ after);
  confidence = 100;
  remediation_actions = [];
}

unfoldable pub tier_a_check_arguments : Fields → List Text → List Finding
tier_a_check_arguments arguments task_scope =
    map (over_collection (lit "argument requests field '") (lit "' not in declared task scope"))
      (sorted_set (difference (flatten arguments []) task_scope))

unfoldable pub tier_a_check_response : Fields → List Text → List Finding
tier_a_check_response payload task_scope =
    map (over_collection (lit "response field '") (lit "' not in declared task scope"))
      (sorted_set (difference (keys payload) task_scope))
