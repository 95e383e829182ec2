-- ===== src/Value/Laws.antt =====
-- The laws of the dict operations.
use loomground_lock.Prelude.{◌≡◌, refl, Bool, none, some, arith, is_some, if◌then◌else◌}
use loomground_lock.Text.{Text, ◌==◌, member}
use loomground_lock.Text.Equality.{==_iff}
use loomground_lock.Value.{Value, Fields, end, entry, lookup, keys, keep_keys, assign}

pub lookup-keep_keys :
    (k : Text) (keep : Text → Bool) (d : Fields)
    → lookup k (keep_keys keep d) ≡ (if keep k then lookup k d else none)
unfolding lookup keep_keys
lookup-keep_keys k keep end = ground arith
lookup-keep_keys k keep (entry j v d) = ground (arith, ==_iff k j, lookup-keep_keys k keep d)

pub lookup-assign :
    (k j : Text) (v : Value) (d : Fields)
    → lookup k (assign j v d) ≡ (if k == j then some v else lookup k d)
unfolding lookup assign
lookup-assign k j v end = refl
lookup-assign k j v (entry i w d) =
    ground (arith, ==_iff k j, ==_iff j i, ==_iff k i, lookup-assign k j v d)

-- A key is in `d.keys()` just when it can be looked up.
pub member-keys : (k : Text) (d : Fields) → member k (keys d) ≡ is_some (lookup k d)
unfolding member keys lookup
member-keys k end = refl
member-keys k (entry j v d) = ground (arith, member-keys k d)
