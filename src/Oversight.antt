-- ===== src/Oversight.antt =====
-- oversight.py: the six levels of the dial, and the level in force.
pub mod Laws
use loomground_lock.Prelude.{
  ℕ, Bool, true, false, Option, none, some, List, [], ◌∷◌, ◌++◌, leb, if◌then◌else◌,
}
use loomground_lock.Text.{Text, lit, ◌==◌}

pub data OversightLevel : Type 0 where
  autonomous notify review approve supervised manual : OversightLevel

-- The value of the `IntEnum`.
unfoldable pub rank : OversightLevel → ℕ
rank autonomous = 1
rank notify = 2
rank review = 3
rank approve = 4
rank supervised = 5
rank manual = 6

unfoldable pub label : OversightLevel → Text
label autonomous = lit "autonomous"
label notify = lit "notify"
label review = lit "review"
label approve = lit "approve"
label supervised = lit "supervised"
label manual = lit "manual"

-- `_DESCRIPTIONS`
unfoldable pub description : OversightLevel → Text
description autonomous = lit "Plans + executes silently; user sees result only"
description notify = lit "Executes; surfaces a notification with summary"
description review = lit "Executes; waits before result is final until user reviews"
description approve = lit "Halts before any side-effect op; resumes on approval"
description supervised = lit "Step-by-step; user confirms at every finding/decision"
description manual = lit "Suggests, user executes manually; the agent does not execute"

-- One decision of a person on one finding.
pub record OversightDecision : Type 0 where
  pub finding_id : Text
  pub user_action : Text
  pub reason : Text
  pub elapsed_ms : ℕ

-- `PRIVACY_CLASS_DEFAULTS.get(c)`
unfoldable pub privacy_class_default : Text → Option OversightLevel
privacy_class_default c =
    if c == lit "public"
    then some notify
    else if c == lit "pseudonymous"
    then some review
    else if c == lit "sensitive"
    then some approve
    else if c == lit "regulated"
    then some supervised
    else none

-- `MODE_TO_OVERSIGHT.get(m)`
unfoldable pub mode_to_oversight : Text → Option OversightLevel
mode_to_oversight m =
    if m == lit "audit_only"
    then some notify
    else if m == lit "permissive"
    then some notify
    else if m == lit "standard"
    then some approve
    else if m == lit "strict"
    then some supervised
    else none

-- `max` of two levels, of which the first stays where they are equal
unfoldable pub stricter : OversightLevel → OversightLevel → OversightLevel
unfolding rank
stricter a b = if leb (rank b) (rank a) then a else b

-- `max(candidates)`
unfoldable pub strictest : OversightLevel → List OversightLevel → OversightLevel
unfolding stricter
strictest a [] = a
strictest a (b ∷ ls) = strictest (stricter a b) ls

unfoldable pub given : Option OversightLevel → List OversightLevel
given none = []
given (some l) = l ∷ []

-- The default of the privacy class, where one is given and known.
unfoldable pub class_level : Option Text → Option OversightLevel
class_level none = none
class_level (some c) = privacy_class_default c

-- `effective_level(user_default=..., op_floor=..., privacy_class=...)`
unfoldable pub effective_level :
    OversightLevel → Option OversightLevel → Option Text → OversightLevel
unfolding strictest given
effective_level user_default op_floor privacy_class =
    strictest user_default (given op_floor ++ given (class_level privacy_class))

unfoldable pub asks_user_per_finding : OversightLevel → Bool
asks_user_per_finding supervised = true
asks_user_per_finding manual = true
asks_user_per_finding _ = false

unfoldable pub asks_user_per_plan : OversightLevel → Bool
asks_user_per_plan approve = true
asks_user_per_plan supervised = true
asks_user_per_plan manual = true
asks_user_per_plan _ = false

unfoldable pub waits_for_review_after_execution : OversightLevel → Bool
waits_for_review_after_execution review = true
waits_for_review_after_execution _ = false

unfoldable pub notifies_user_post_execution : OversightLevel → Bool
notifies_user_post_execution notify = true
notifies_user_post_execution _ = false
