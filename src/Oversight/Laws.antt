-- ===== src/Oversight/Laws.antt =====
-- oversight.py: `effective_level`.
use loomground_lock.Prelude.{◌≤◌, ◌≡◌, refl, ◌⊎◌, inl, ◌++◌, Option, none, some, arith}
use loomground_lock.Text.{Text}
use loomground_lock.Oversight.{
  OversightLevel, rank, stricter, strictest, given, class_level, effective_level,
}

stricter_bounds :
    (a b : OversightLevel)
    → (rank a ≤ rank (stricter a b))
      × (rank b ≤ rank (stricter a b))
      × ((stricter a b ≡ a) ⊎ (stricter a b ≡ b))
unfolding stricter
stricter_bounds a b = ground arith

by_cases :
    (user : OversightLevel) (floor privacy : Option OversightLevel)
    → let e = strictest user (given floor ++ given privacy) in
      (rank user ≤ rank e)
      × ((f : OversightLevel) → floor ≡ some f → rank f ≤ rank e)
      × ((c : OversightLevel) → privacy ≡ some c → rank c ≤ rank e)
      × ((e ≡ user) ⊎ ((floor ≡ some e) ⊎ (privacy ≡ some e)))
unfolding strictest given
by_cases user none none = (omega arith, λ f e. cc, λ c e. cc, inl refl)
by_cases user (some a) none =
    let b = stricter_bounds user a in (b.0, λ f e. ground arith, λ c e. cc, ground arith)
by_cases user none (some a) =
    let b = stricter_bounds user a in (b.0, λ f e. cc, λ c e. ground arith, ground arith)
by_cases user (some a) (some d) =
    let b = stricter_bounds user a in
    let g = stricter_bounds (stricter user a) d in
    (omega arith, λ f e. ground arith, λ c e. ground arith, ground arith)

-- The level in force is no laxer than the user's default, the floor of the operation and the
-- default of the privacy class, and it is one of them.
pub effective_level_strictest :
    (user : OversightLevel) (floor : Option OversightLevel) (privacy : Option Text)
    → let e = effective_level user floor privacy in
      (rank user ≤ rank e)
      × ((f : OversightLevel) → floor ≡ some f → rank f ≤ rank e)
      × ((c : OversightLevel) → class_level privacy ≡ some c → rank c ≤ rank e)
      × ((e ≡ user) ⊎ ((floor ≡ some e) ⊎ (class_level privacy ≡ some e)))
unfolding effective_level
effective_level_strictest user floor privacy = by_cases user floor (class_level privacy)
