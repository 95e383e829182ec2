-- ===== src/Text/Sets.antt =====
-- `sorted(...)` of a set of texts: the strictly increasing list of its members.
use loomground_lock.Prelude.{
  ◌≡◌, refl, Bool, true, false, ◌||◌, List, [], ◌∷◌, arith, all, ltb, ◌==◌ as eqb, if◌then◌else◌,
}
use loomground_lock.Text.{Text, ◌==◌, member}
use loomground_lock.Text.Equality.{==_iff}

-- Python's `<` on texts: by code points, a proper prefix first.
unfoldable pub text_lt : Text → Text → Bool
text_lt [] [] = false
text_lt [] (y ∷ t) = true
text_lt (x ∷ s) [] = false
text_lt (x ∷ s) (y ∷ t) = let rest = text_lt s t in if eqb x y then rest else ltb x y

unfoldable pub insert_sorted : Text → List Text → List Text
insert_sorted x [] = x ∷ []
insert_sorted x (y ∷ ys) =
    let later = y ∷ insert_sorted x ys in
    if x == y then y ∷ ys else if text_lt x y then x ∷ y ∷ ys else later

-- `sorted(set(xs))`
unfoldable pub sorted_set : List Text → List Text
unfolding insert_sorted
sorted_set [] = []
sorted_set (x ∷ xs) = insert_sorted x (sorted_set xs)

member-insert_sorted :
    (a x : Text) (xs : List Text) → member a (insert_sorted x xs) ≡ (a == x || member a xs)
unfolding member insert_sorted
member-insert_sorted a x [] = ground arith
member-insert_sorted a x (y ∷ ys) =
    ground (arith, ==_iff x y, ==_iff a x, ==_iff a y, member-insert_sorted a x ys)

pub member-sorted_set : (a : Text) (xs : List Text) → member a (sorted_set xs) ≡ member a xs
unfolding member sorted_set
member-sorted_set a [] = refl
member-sorted_set a (x ∷ xs) =
    ground (arith, member-insert_sorted a x (sorted_set xs), member-sorted_set a xs)

text_lt_trans : (a b c : Text) → text_lt a b ≡ true → text_lt b c ≡ true → text_lt a c ≡ true
unfolding text_lt
text_lt_trans [] [] c h k = cc
text_lt_trans [] (y ∷ b) [] h k = cc
text_lt_trans [] (y ∷ b) (z ∷ c) h k = refl
text_lt_trans (x ∷ a) [] c h k = cc
text_lt_trans (x ∷ a) (y ∷ b) [] h k = cc
text_lt_trans (x ∷ a) (y ∷ b) (z ∷ c) h k = ground (arith, text_lt_trans a b c)

text_lt_total : (a b : Text) → (a == b) ≡ false → text_lt a b ≡ false → text_lt b a ≡ true
unfolding text_lt ◌==◌
text_lt_total [] [] h k = cc
text_lt_total [] (y ∷ b) h k = cc
text_lt_total (x ∷ a) [] h k = refl
text_lt_total (x ∷ a) (y ∷ b) h k = ground (arith, text_lt_total a b)

-- Strictly increasing, so that no text is there twice.
abbrev pub IsIncreasing : List Text → Type 0
IsIncreasing [] = Unit
IsIncreasing (x ∷ xs) = (all (text_lt x) xs ≡ true) × IsIncreasing xs

all-text_lt-insert :
    (a x : Text) (xs : List Text)
    → text_lt a x ≡ true
    → all (text_lt a) xs ≡ true
    → all (text_lt a) (insert_sorted x xs) ≡ true
unfolding insert_sorted
all-text_lt-insert a x [] h k = ground arith
all-text_lt-insert a x (y ∷ ys) h k = ground (arith, all-text_lt-insert a x ys)

all-text_lt_trans :
    (x y : Text) (ys : List Text)
    → text_lt x y ≡ true
    → all (text_lt y) ys ≡ true
    → all (text_lt x) ys ≡ true
all-text_lt_trans x y [] h k = refl
all-text_lt_trans x y (z ∷ zs) h k = ground (arith, text_lt_trans x y z, all-text_lt_trans x y zs)

insert_sorted-IsIncreasing :
    (x : Text) (xs : List Text) → IsIncreasing xs → IsIncreasing (insert_sorted x xs)
unfolding insert_sorted
insert_sorted-IsIncreasing x [] h = (refl, tt)
insert_sorted-IsIncreasing x (y ∷ ys) h = ground (
  arith,
  text_lt_total x y,
  all-text_lt-insert y x ys,
  all-text_lt_trans x y ys,
  insert_sorted-IsIncreasing x ys h.1,
)

pub sorted_set-IsIncreasing : (xs : List Text) → IsIncreasing (sorted_set xs)
unfolding sorted_set
sorted_set-IsIncreasing [] = tt
sorted_set-IsIncreasing (x ∷ xs) =
    insert_sorted-IsIncreasing x (sorted_set xs) (sorted_set-IsIncreasing xs)
