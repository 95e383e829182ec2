-- ===== src/Verdicts.antt =====
-- verdicts.py: the lock's decisions in the alphabet of the governance package, whose vocabulary is
-- a parameter.
pub mod Laws
use loomground_lock.Prelude.{
  Bool, true, false, not, ◌||◌, Option, none, some, List, [], ◌∷◌, if◌then◌else◌,
}
use loomground_lock.Text.{Text, lit, ◌==◌, member, strip}
use loomground_lock.Text.Unicode.{Unicode}
use loomground_lock.Core.Data.{EgressAction, IngressAction, TextAction}
use loomground_lock.Oversight.{
  OversightLevel, autonomous, notify, review, approve, supervised, manual,
}

-- `vocabulary("verdicts")`: the alphabet, and the members of `releases_at_master` with whether
-- their value is `True`
pub record Vocabulary : Type 0 where
  pub alphabet : List Text
  pub releases_at_master : List (Text × Bool)

pub data Looked (A : Type 0) : Type 0 where
  found : A → Looked A
  lookup_error : Looked A

infixl 5 ◌>>=◌
abbrev pub ◌>>=◌ : {A B : Type 0} → Looked A → (A → Looked B) → Looked B
found a >>= f = f a
lookup_error >>= f = lookup_error

unfoldable pub true_members : List (Text × Bool) → List Text
true_members [] = []
true_members ((k, true) ∷ rest) = k ∷ true_members rest
true_members ((k, false) ∷ rest) = true_members rest

module _ (v : Vocabulary) where
  unfoldable pub single_member : List Text → Looked Text
  single_member (m ∷ []) = if member m v.alphabet then found m else lookup_error
  single_member _ = lookup_error

  -- `_releasing()`
  unfoldable pub releasing : Looked Text
  releasing = single_member (true_members v.releases_at_master)

  -- `_member(name)`
  unfoldable pub member_verdict : Text → Looked Text
  member_verdict name = if member name v.alphabet then found name else lookup_error

-- The verdicts that `action_verdicts` and `oversight_verdicts` use.
pub record Verdicts : Type 0 where
  pub auto : Text
  pub human : Text
  pub refused : Text

-- The dict of `action_verdicts`, with the default of `get`.
unfoldable pub action_verdict : Verdicts → Text → Text
action_verdict m a =
    if a == lit "allow" || (a == lit "minimise" || (a == lit "strip" || a == lit "redact"))
    then m.auto
    else if a == lit "ask_user"
    then m.human
    else if a == lit "refuse"
    then m.refused
    else m.human

-- The dict of `oversight_verdicts`.
unfoldable pub oversight_verdict : Text → Text → OversightLevel → Text
oversight_verdict auto human autonomous = auto
oversight_verdict auto human notify = auto
oversight_verdict auto human review = human
oversight_verdict auto human approve = human
oversight_verdict auto human supervised = human
oversight_verdict auto human manual = human

-- `(action or "")`
unfoldable pub action_text : Option Text → Text
action_text none = []
action_text (some a) = a

module _ (u : Unicode) (v : Vocabulary) where
  -- `verdict_for_action(action)`
  unfoldable pub verdict_for_action : Option Text → Looked Text
  verdict_for_action action = do
    auto ← releasing v
    human ← member_verdict v (lit "human")
    refused ← member_verdict v (lit "refused")
    found (
        action_verdict (record { auto = auto; human = human; refused = refused })
          (u.lower (strip (action_text action))))

  -- `verdict_for_oversight(level)`
  unfoldable pub verdict_for_oversight : OversightLevel → Looked Text
  verdict_for_oversight level = do
    auto ← releasing v
    human ← member_verdict v (lit "human")
    found (oversight_verdict auto human level)
