-- ===== src/Seal/Outcome.antt =====
-- seal.py: computations that may end in an exception, step after step.
use loomground_lock.Prelude.{◌≡◌, refl}
use loomground_lock.Seal.Envelope.{Outcome, ok, seal_error, crashed, ◌>>=◌}

-- Two computations that go on from the same one.
pub bind_same :
    {A B C : Type 0} (o : Outcome A) (f : A → Outcome B) (g : A → Outcome C) (x : B) (y : C)
    → ((a : A) → f a ≡ ok x → g a ≡ ok y)
    → (o >>= f) ≡ ok x
    → (o >>= g) ≡ ok y
bind_same (ok a) f g x y k h = k a h
bind_same (seal_error m) f g x y k h = cc
bind_same (crashed c) f g x y k h = cc

pub ok_inj : {A : Type 0} {a b : A} → ok a ≡ ok b → a ≡ b
ok_inj h = cc

-- A computation that ends well has ended well at its first step.
pub bind_inv :
    {A B : Type 0} (o : Outcome A) (f : A → Outcome B) (x : B)
    → (o >>= f) ≡ ok x
    → (a : A) × (o ≡ ok a) × (f a ≡ ok x)
bind_inv (ok a) f x h = (a, refl, h)
bind_inv (seal_error m) f x h = cc
bind_inv (crashed c) f x h = cc
