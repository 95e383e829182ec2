-- ===== src/Credentials.antt =====
-- credential_resolver.py: the resolution of a credential's reference to its secret. The process
-- environment and the file system are parameters; `key_root` and `expanduser` give paths as texts.
pub mod Laws
use loomground_lock.Prelude.{
  ℕ, ◌%◌, Bool, true, false, not, ◌&&◌, ◌||◌, Option, none, some, List, [], ◌∷◌, ◌==◌ as eqb,
  is_some, if◌then◌else◌,
}
use loomground_lock.Text.{Text, lit, ◌==◌, member, strip, is_blank, split_once}
use loomground_lock.Text.Unicode.{Unicode}
use loomground_lock.HostDeps.{HostState, Callable, Reply, returned, raised, key_root, ensure_wired}

pub data Content : Type 0 where
  holds : Text → Content
  -- `OSError`
  unreadable : Content
  -- `UnicodeDecodeError`, which the code does not catch
  undecodable : Content

-- What stands at a resolved path.
pub record Target : Type 0 where
  pub inside_root : Bool
  pub is_file : Bool
  pub mode : ℕ
  pub content : Content

pub record System : Type 0 where
  -- `os.environ.get`
  pub environ : Text → Option Text
  pub expanduser : Text → Text
  -- `(root / locator).resolve()`, against the resolved root
  pub target : Text → Text → Target

unfoldable pub schemes : List Text
schemes = lit "env" ∷ lit "keydir" ∷ lit "oidc" ∷ lit "spiffe" ∷ []

unfoldable pub local_schemes : List Text
local_schemes = lit "env" ∷ lit "keydir" ∷ []

pub data ArmStatus : Type 0 where
  no_cable armed unplugged : ArmStatus

unfoldable pub key_root_reply : Callable → Reply (Option Text)
key_root_reply (key_root r) = r
key_root_reply _ = raised (lit "TypeError")

-- `val if val else None`
unfoldable pub nonempty : Option Text → Option Text
nonempty none = none
nonempty (some []) = none
nonempty (some (c ∷ s)) = some (c ∷ s)

-- `mode & 0o077`
unfoldable pub is_open_to_others : ℕ → Bool
is_open_to_others mode = not (eqb (mode % 64) 0)

module _ (u : Unicode) where
  unfoldable pub check_parts : Text → Text → Option (Text × Text)
  check_parts scheme locator =
      if not (member scheme schemes) || is_blank locator then none else some (scheme, locator)

  -- `parse_ref(ref)`
  unfoldable pub parse_ref : Option Text → Option (Text × Text)
  unfolding check_parts
  parse_ref none = none
  parse_ref (some ref) = elim (split_once (lit ":") (strip ref)) [
    | none ↦ none
    | some (scheme, locator) ↦ check_parts (u.lower (strip scheme)) (strip locator)
  ]

unfoldable pub status_of : Reply (Option Text) → Reply ArmStatus
status_of (returned (some secret)) = returned armed
status_of (returned none) = returned unplugged
status_of (raised e) = raised e

abbrev pub ref_text : Option Text → Text
ref_text none = []
ref_text (some r) = r

-- The dict of `describe`; it raises where the status does.
pub record Description : Type 0 where
  pub credential_ref : Option Text
  pub scheme : Option Text
  pub status : Reply ArmStatus
  pub enforceable : Bool

unfoldable pub scheme_of : Option (Text × Text) → Option Text
scheme_of none = none
scheme_of (some (scheme, locator)) = some scheme

unfoldable pub is_local : Option (Text × Text) → Bool
is_local none = false
is_local (some (scheme, locator)) = member scheme local_schemes

module _ (u : Unicode) (host : HostState) (sys : System) where
  -- The `except` of `_key_root`: WORKSPACE_KEY_DIR, where it is set
  unfoldable pub key_root_override : Option Text
  key_root_override = elim (nonempty (sys.environ (lit "WORKSPACE_KEY_DIR"))) [
    | none ↦ none
    | some dir ↦ some (sys.expanduser dir)
  ]

  -- `_key_root()`
  unfoldable pub find_key_root : Option Text
  find_key_root = elim ((ensure_wired host).hooks (lit "key_root_dir")) [
    | none ↦ key_root_override
    | some hook ↦ elim (key_root_reply hook) [ returned root ↦ root | raised e ↦ key_root_override ]
  ]

  unfoldable pub read_target : Target → Reply (Option Text)
  read_target t =
      if not t.inside_root
      then returned none
      else if not t.is_file
      then returned none
      else if is_open_to_others t.mode
      then returned none
      else elim t.content [
        | holds s ↦ returned (nonempty (some (strip s)))
        | unreadable ↦ returned none
        | undecodable ↦ raised (lit "UnicodeDecodeError")
      ]

  -- `_resolve_keydir(locator)`
  unfoldable pub resolve_keydir : Text → Reply (Option Text)
  resolve_keydir locator = elim find_key_root [
    | none ↦ returned none
    | some root ↦ read_target (sys.target root locator)
  ]

  unfoldable pub resolve_parsed : Option (Text × Text) → Reply (Option Text)
  resolve_parsed none = returned none
  resolve_parsed (some (scheme, locator)) =
      if scheme == lit "env"
      then returned (nonempty (sys.environ locator))
      else if scheme == lit "keydir"
      then resolve_keydir locator
      else returned none

  -- `resolve_secret(ref)`
  unfoldable pub resolve_secret : Option Text → Reply (Option Text)
  resolve_secret ref = resolve_parsed (parse_ref u ref)

  -- `arm_status(ref)`
  unfoldable pub arm_status : Option Text → Reply ArmStatus
  arm_status ref =
      if is_blank (strip (ref_text ref))
      then returned no_cable
      else if not (is_some (parse_ref u ref))
      then returned unplugged
      else status_of (resolve_secret ref)

  -- `describe(ref)`
  unfoldable pub describe : Option Text → Description
  describe ref = record {
    credential_ref = nonempty (some (strip (ref_text ref)));
    scheme = scheme_of (parse_ref u ref);
    status = arm_status ref;
    enforceable = is_local (parse_ref u ref);
  }
