-- ===== src/Value.antt =====
-- The JSON-like values that tool calls and responses carry: Python's `dict`, `list` and `str`, and
-- the scalars that the package passes through. A dict is its entries in insertion order.
pub mod Laws
use loomground_lock.Prelude.{ℕ, Bool, not, Option, none, some, List, [], ◌∷◌, if◌then◌else◌}
use loomground_lock.Text.{Text, ◌==◌}

mutual
  pub data Value : Type 0 where
    str : Text → Value
    num : ℕ → Value
    bool : Bool → Value
    null : Value
    arr : Items → Value
    obj : Fields → Value

  pub data Items : Type 0 where
    nil : Items
    cons : Value → Items → Items

  pub data Fields : Type 0 where
    end : Fields
    entry : Text → Value → Fields → Fields

-- `d.get(k)`
unfoldable pub lookup : Text → Fields → Option Value
lookup k end = none
lookup k (entry j v d) = if k == j then some v else lookup k d

-- `d.keys()`
unfoldable pub keys : Fields → List Text
keys end = []
keys (entry k v d) = k ∷ keys d

-- `{k: v for k, v in d.items() if keep(k)}`
unfoldable pub keep_keys : (Text → Bool) → Fields → Fields
keep_keys keep end = end
keep_keys keep (entry k v d) =
    let rest = keep_keys keep d in if keep k then entry k v rest else rest

-- `d[k] = v`: in its place where the key is there, and last where it is new
unfoldable pub assign : Text → Value → Fields → Fields
assign k v end = entry k v end
assign k v (entry j w d) = if k == j then entry j v d else entry j w (assign k v d)
