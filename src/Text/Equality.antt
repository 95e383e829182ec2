-- ===== src/Text/Equality.antt =====
-- The test `==` on texts decides equality, and `member` membership.
use loomground_lock.Prelude.{
  ◌≡◌, refl, ◌↔◌, ◌≢◌, true, false, [], ◌∷◌, List, Bool, arith, Bool-cases, inl, inr, all, filter,
  ◌&&◌, ◌||◌, ◌++◌,
}
use loomground_lock.Text.{Text, ◌==◌, member}

pub ==-eq : (s t : Text) → (s == t) ≡ true → s ≡ t
unfolding ◌==◌
==-eq [] [] h = refl
==-eq [] (y ∷ t) h = cc
==-eq (x ∷ s) [] h = cc
==-eq (x ∷ s) (y ∷ t) h = ground (arith, ==-eq s t)

pub ==_refl : (s : Text) → (s == s) ≡ true
unfolding ◌==◌
==_refl [] = refl
==_refl (x ∷ s) = ground (arith, ==_refl s)

pub ==_iff : (s t : Text) → ((s == t) ≡ true) ↔ (s ≡ t)
==_iff s t = (==-eq s t, λ e. rw e (==_refl t))

pub ==_ne : (s t : Text) → s ≢ t → (s == t) ≡ false
==_ne s t h = elim (Bool-cases (s == t)) [ inl e ↦ absurd (h (==-eq s t e)) | inr e ↦ e ]

-- `member` respects equality in both places.
pub all-member :
    (f : Text → Bool) (x : Text) (xs : List Text)
    → all f xs ≡ true
    → member x xs ≡ true
    → f x ≡ true
unfolding member
all-member f x [] h m = cc
all-member f x (y ∷ ys) h m = ground (arith, ==_iff x y, all-member f x ys)

-- Membership in a part of a list, and in two lists joined.
pub member-filter :
    (x : Text) (p : Text → Bool) (xs : List Text) → member x (filter p xs) ≡ (member x xs && p x)
unfolding member
member-filter x p [] = refl
member-filter x p (y ∷ ys) = ground (arith, ==_iff x y, member-filter x p ys)

pub member-append :
    (x : Text) (xs ys : List Text) → member x (xs ++ ys) ≡ (member x xs || member x ys)
unfolding member
member-append x [] ys = refl
member-append x (y ∷ xs) ys = ground (arith, member-append x xs ys)

-- A list without members is empty.
pub nil_of-not-member : (xs : List Text) → ((x : Text) → member x xs ≡ false) → xs ≡ []
unfolding member
nil_of-not-member [] h = refl
nil_of-not-member (y ∷ ys) h = ground (arith, h y, ==_refl y)
