-- ===== src/Core/TierB/Severity.antt =====
-- core.py: severity and field of the findings of `tier_b_scan_text` and `tier_b_scan_dict`.
use loomground_lock.Prelude.{
  ◌≡◌, refl, Bool, true, false, not, ◌||◌, some, List, [], ◌∷◌, ◌++◌, map, arith, any, all,
  is_empty, is_some, Bool-cases, inl, inr,
}
use loomground_lock.Text.{Text, ◌==◌, member}
use loomground_lock.Text.Equality.{==_refl, ==-eq, member-append}
use loomground_lock.Text.Unicode.{Unicode}
use loomground_lock.Value.{
  Value, Items, Fields, str, num, bool, null, arr, obj, nil, cons, end, entry, lookup,
}
use loomground_lock.HostDeps.{HostState}
use loomground_lock.Core.Data.{Finding, is_high, has_high}
use loomground_lock.Core.Patterns.{Pattern, hit, tier_b_patterns}
use loomground_lock.Core.TierB.{
  with_field, pattern_finding, scan_patterns, tier_b_scan_text, scan_dict, scan_value, scan_items,
  scan_item, tier_b_scan_dict,
}
use loomground_lock.Core.Egress.{fields_of}

all-append :
    (q : Finding → Bool) (xs ys : List Finding)
    → all q xs ≡ true
    → all q ys ≡ true
    → all q (xs ++ ys) ≡ true
all-append q [] ys h k = k
all-append q (x ∷ xs) ys h k = ground (arith, all-append q xs ys)

-- What holds of the findings of a text under its key holds of the findings of a dict.
module _ (scan : Text → List Finding) (q : Finding → Bool)
    (text : (k s : Text) → all q (map (with_field k) (scan s)) ≡ true) where
  mutual
    unfolding scan_dict scan_value scan_items scan_item

    dict_all : (d : Fields) → all q (scan_dict scan d) ≡ true
    dict_all end = refl
    dict_all (entry k v d) = all-append q _ _ (value_all v k) (dict_all d)

    value_all : (v : Value) (k : Text) → all q (scan_value scan k v) ≡ true
    value_all (str s) k = text k s
    value_all (obj d) k = dict_all d
    value_all (arr xs) k = items_all xs k
    value_all (num n) k = refl
    value_all (bool b) k = refl
    value_all null k = refl

    items_all : (xs : Items) (k : Text) → all q (scan_items scan k xs) ≡ true
    items_all nil k = refl
    items_all (cons x xs) k = all-append q _ _ (item_all x k) (items_all xs k)

    item_all : (x : Value) (k : Text) → all q (scan_item scan k x) ≡ true
    item_all (str s) k = text k s
    item_all (obj d) k = dict_all d
    item_all (arr xs) k = refl
    item_all (num n) k = refl
    item_all (bool b) k = refl
    item_all null k = refl

  pub scan_dict-all : (d : Fields) → all q (scan_dict scan d) ≡ true
  scan_dict-all d = dict_all d

abbrev pub has_field : Finding → Bool
has_field f = is_some f.field

with_field-all : (k : Text) (fs : List Finding) → all has_field (map (with_field k) fs) ≡ true
unfolding with_field
with_field-all k [] = refl
with_field-all k (f ∷ fs) = with_field-all k fs

with_field_high :
    (k : Text) (fs : List Finding)
    → all is_high fs ≡ true
    → all is_high (map (with_field k) fs) ≡ true
unfolding with_field
with_field_high k [] h = refl
with_field_high k (f ∷ fs) h = ground (arith, with_field_high k fs)

scan_patterns_high :
    (u : Unicode) (host : HostState) (ps : List Pattern) (s : Text)
    → all is_high (scan_patterns u host ps s) ≡ true
unfolding scan_patterns pattern_finding
scan_patterns_high u host [] s = refl
scan_patterns_high u host (p ∷ ps) s = ground (arith, scan_patterns_high u host ps s)

pub tier_b_scan_text_high :
    (u : Unicode) (host : HostState) (s : Text) → all is_high (tier_b_scan_text u host s) ≡ true
unfolding tier_b_scan_text
tier_b_scan_text_high u host s = scan_patterns_high u host (tier_b_patterns u) s

-- A text is clean exactly when no pattern of the list hits it.
pub scan_patterns_iff :
    (u : Unicode) (host : HostState) (ps : List Pattern) (s : Text)
    → is_empty (scan_patterns u host ps s) ≡ not (any (λ p. is_some (hit u p.matcher s)) ps)
unfolding scan_patterns
scan_patterns_iff u host [] s = refl
scan_patterns_iff u host (p ∷ ps) s = ground (arith, scan_patterns_iff u host ps s)

pub has_high-of_all : (fs : List Finding) → all is_high fs ≡ true → has_high fs ≡ not (is_empty fs)
has_high-of_all [] h = refl
has_high-of_all (f ∷ fs) h = ground arith

module _ (u : Unicode) (host : HostState) where
  pub tier_b_scan_dict_high : (d : Fields) → all is_high (tier_b_scan_dict u host d) ≡ true
  unfolding tier_b_scan_dict
  tier_b_scan_dict_high =
      scan_dict-all (tier_b_scan_text u host) is_high
        (λ k s. with_field_high k (tier_b_scan_text u host s) (tier_b_scan_text_high u host s))

  pub tier_b_scan_dict_field : (d : Fields) → all has_field (tier_b_scan_dict u host d) ≡ true
  unfolding tier_b_scan_dict
  tier_b_scan_dict_field =
      scan_dict-all (tier_b_scan_text u host) has_field
        (λ k s. with_field-all k (tier_b_scan_text u host s))

pub fields_of-append : (xs ys : List Finding) → fields_of (xs ++ ys) ≡ fields_of xs ++ fields_of ys
unfolding fields_of
fields_of-append [] ys = refl
fields_of-append (x ∷ xs) ys = ground (arith, fields_of-append xs ys)

member-with_field :
    (k : Text) (fs : List Finding)
    → is_empty fs ≡ false
    → member k (fields_of (map (with_field k) fs)) ≡ true
unfolding fields_of with_field member
member-with_field k [] h = cc
member-with_field k (f ∷ fs) h = ground (arith, ==_refl k)

or_right : (a : Bool) {b : Bool} → b ≡ true → (a || b) ≡ true
or_right true h = refl
or_right false h = h

value_first :
    (scan : Text → List Finding) (k s j : Text) (v : Value) (d : Fields)
    → k ≡ j
    → some v ≡ some (str s)
    → is_empty (scan s) ≡ false
    → (member k (fields_of (scan_value scan j v)) || member k (fields_of (scan_dict scan d))) ≡ true
unfolding scan_value
value_first scan k s j (str t) d e h hits = ground (arith, member-with_field j (scan s) hits)
value_first scan k s j _ d e h hits = cc

-- A text that stands under a key of the dict and has a hit puts that key among the fields.
pub member-scan_dict :
    (scan : Text → List Finding) (k s : Text) (d : Fields)
    → lookup k d ≡ some (str s)
    → is_empty (scan s) ≡ false
    → member k (fields_of (scan_dict scan d)) ≡ true
unfolding lookup scan_dict
member-scan_dict scan k s end h hits = cc
member-scan_dict scan k s (entry j v d) h hits =
    rw (fields_of-append (scan_value scan j v) (scan_dict scan d), member-append k)
      (elim (Bool-cases (k == j)) [
        | inl same ↦ value_first scan k s j v d (==-eq k j same) (rw same at h) hits
        | inr other ↦
            or_right (member k (fields_of (scan_value scan j v)))
              (member-scan_dict scan k s d (rw other at h) hits)
      ])
