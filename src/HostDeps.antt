-- ===== src/HostDeps.antt =====
-- host_deps.py: the registry of the host's hooks, and the wiring provider that fills it on first
-- use. What the host registers is a parameter: a callable is known by what its call returns or
-- raises.
pub mod Laws
use loomground_lock.Prelude.{
  ℕ, Bool, true, false, not, Option, none, some, List, [], ◌∷◌, filter, is_some, if◌then◌else◌,
}
use loomground_lock.Text.{Text, lit, member, ◌==◌}
use loomground_lock.Text.Sets.{sorted_set}
use loomground_lock.Value.{Fields}
use loomground_lock.Core.Data.{Finding}

-- What a call of host code does: it returns, or raises an exception of the named class.
pub data Reply (A : Type 0) : Type 0 where
  returned : A → Reply A
  raised : Text → Reply A

-- The callables, by the shape that their call site expects; `none` in a reply is a value of
-- another type than the documented one.
pub data Callable : Type 0 where
  -- `tier_c_check_semantic(text, context=...)`
  semantic : (Text → Text → Reply (Option (List Finding))) → Callable
  -- `tier_c_requires_real_backend()`
  predicate : Reply Bool → Callable
  -- `disable_lock_remediation()`
  payload : Reply (Option Fields) → Callable
  -- `models_for_role(role)`
  roles : (Text → Reply (List Text)) → Callable
  -- `llm_classify(text=, categories=, folder_context=, model=)`, of the text, the context and the
  -- model
  classifies : (Text → Text → Text → Reply (Option Fields)) → Callable
  -- `key_root_dir()`
  key_root : Reply (Option Text) → Callable
  -- `opaque_doc_token(source, folder_path)`
  doc_token : (Text → Text → Reply Text) → Callable
  other : Callable

abbrev pub HookTable : Type 0
HookTable = Text → Option Callable

-- The provider fills the table; it may raise after it has filled a part.
abbrev pub Provider : Type 0
Provider = HookTable → HookTable × Option Text

pub record HostState : Type 0 where
  pub hooks : HookTable
  pub provider : Option Provider
  pub wired : Bool
  pub error : Option Text

unfoldable pub hook_names : List Text
hook_names =
    lit "models_for_role"
    ∷ lit "llm_classify"
    ∷ lit "key_root_dir"
    ∷ lit "record_decision"
    ∷ lit "list_connectors"
    ∷ lit "l0_load_policy"
    ∷ lit "l0_capture_llm"
    ∷ lit "l0_capture_web"
    ∷ lit "list_models"
    ∷ lit "registry_models_for_role"
    ∷ lit "capability_verifier_factory"
    ∷ lit "record_capability_refusal"
    ∷ lit "govern_egress"
    ∷ lit "verify_agent_identity"
    ∷ lit "record_audit_drop"
    ∷ lit "tier_c_check_semantic"
    ∷ lit "tier_c_requires_real_backend"
    ∷ lit "disable_lock_remediation"
    ∷ lit "opaque_doc_token"
    ∷ lit "workspace_memory"
    ∷ lit "pending_erase_verify"
    ∷ lit "pending_erase_apply"
    ∷ lit "events_from_bytes"
    ∷ lit "pair_from_event"
    ∷ lit "read_served_versum_records"
    ∷ lit "read_disk_versum_records"
    ∷ []

-- A keyword argument of `register`.
pub data Assignment : Type 0 where
  callable : Callable → Assignment
  cleared : Assignment
  not_callable : Assignment

pub data RegisterError : Type 0 where
  -- `ValueError`, with the sorted names
  unknown_hooks : List Text → RegisterError
  -- `TypeError`
  bad_hook : Text → RegisterError

unfoldable pub set_hook : Text → Option Callable → HookTable → HookTable
set_hook name fn table j = if name == j then fn else table j

unfoldable pub set_wiring_provider : Option Provider → HostState → HostState
set_wiring_provider p s = record s { provider = p; wired = false; error = none }

-- The loop of `register`: what stands before a bad hook stays assigned.
unfoldable pub assign_hooks :
    List (Text × Assignment) → HostState → HostState × Option RegisterError
unfolding set_hook
assign_hooks [] s = (s, none)
assign_hooks ((name, callable fn) ∷ rest) s =
    assign_hooks rest (record s { hooks = set_hook name (some fn) s.hooks })
assign_hooks ((name, cleared) ∷ rest) s =
    assign_hooks rest (record s { hooks = set_hook name none s.hooks })
assign_hooks ((name, not_callable) ∷ rest) s = (s, some (bad_hook name))

unfoldable pub names_of : List (Text × Assignment) → List Text
names_of [] = []
names_of ((name, a) ∷ rest) = name ∷ names_of rest

unfoldable pub register : List (Text × Assignment) → HostState → HostState × Option RegisterError
unfolding assign_hooks names_of hook_names
register args s = elim (sorted_set (filter (λ n. not (member n hook_names)) (names_of args))) [
  | [] ↦ assign_hooks args s
  | n ∷ ns ↦ (s, some (unknown_hooks (n ∷ ns)))
]

-- `clear()`: only the names of `HOOKS` are there to be cleared
unfoldable pub clear : HostState → HostState
clear s = record { hooks = λ name. none; provider = none; wired = false; error = none }

unfoldable pub run_provider : Option Provider → HostState → HostState
run_provider none s = s
run_provider (some p) s =
    let (table, failure) = p s.hooks in
    elim failure [
      | none ↦ record s { hooks = table }
      | some name ↦ record s { hooks = table; error = some name }
    ]

unfoldable pub ensure_wired : HostState → HostState
unfolding run_provider
ensure_wired s = if s.wired then s else run_provider s.provider (record s { wired = true })

-- `wired()`
unfoldable pub wired_hooks : List Text → HostState → List (Text × Bool)
wired_hooks [] s = []
wired_hooks (n ∷ ns) s = (n, is_some (s.hooks n)) ∷ wired_hooks ns s

-- A fresh import of the module.
abbrev pub unwired : HostState
unwired = record { hooks = λ name. none; provider = none; wired = false; error = none }
