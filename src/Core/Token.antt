-- ===== src/Core/Token.antt =====
-- core.py: validation of capability tokens. The environment, the clock, the trust store's file,
-- `json.dumps` of the claims and the package `cryptography` are parameters.
pub mod Laws
use loomground_lock.Prelude.{
  ℕ, Bool, true, false, not, ◌&&◌, Option, none, some, List, [], ◌∷◌, ◌++◌, leb, if◌then◌else◌,
}
use loomground_lock.Text.{Text, lit, ◌==◌, is_blank}
use loomground_lock.Text.Number.{show}
use loomground_lock.Core.Data.{Finding, Severity, low, high, CapabilityToken, ToolCall}

-- An issuer's entry in the trust store.
pub data StoredKey : Type 0 where
  pem : Text → StoredKey
  not_text : StoredKey

-- What comes of reading and parsing the trust store.
pub data StoreFile : Type 0 where
  -- `FileNotFoundError`
  absent : StoreFile
  -- the file cannot be read, decoded or parsed, or is not a dict
  malformed : StoreFile
  issuers : List (Text × StoredKey) → StoreFile

-- What `load_pem_public_key` gives.
pub data LoadedKey : Type 0 where
  ed25519 : Text → LoadedKey
  other_key : LoadedKey
  bad_pem : LoadedKey

pub record TokenEnv : Type 0 where
  -- the variables LOCK_BETA_STRICT_TOKEN_SIG and LOCK_CAPABILITY_TRUST_STORE
  pub strict_sig : Option Text
  pub trust_store : Option Text
  pub read_store : Text → StoreFile
  pub load_pem : Text → LoadedKey
  -- `bytes.fromhex`, `none` for `ValueError`
  pub from_hex : Text → Option Text
  pub signed_bytes : CapabilityToken → Text
  -- `verify(signature, payload)` returns rather than raises `InvalidSignature`
  pub verifies : Text → Text → Text → Bool
  -- `int(time.time())`
  pub now : ℕ

pub record TokenValidation : Type 0 where
  pub valid : Bool
  pub findings : List Finding

unfoldable pub issuer_key : Text → List (Text × StoredKey) → Option StoredKey
issuer_key iss [] = none
issuer_key iss ((j, k) ∷ rest) = if iss == j then some k else issuer_key iss rest

unfoldable pub token_finding : Severity → Text → Finding
token_finding severity detail = record {
  tier = lit "A";
  type = lit "token_invalid";
  severity = severity;
  field = none;
  detail = detail;
  confidence = 100;
  remediation_actions = [];
}

abbrev pub is_set : Option Text → Bool
is_set none = false
is_set (some s) = not (is_blank s)

-- `os.environ.get(ENV_STRICT_TOKEN_SIG) == "1"`
unfoldable pub is_strict : Option Text → Bool
is_strict none = false
is_strict (some v) = v == lit "1"

module _ (env : TokenEnv) where
  -- The arms of the `try`, by the entry of the issuer.
  unfoldable pub check_signature : CapabilityToken → StoredKey → Bool × Text
  check_signature token not_text = (false, lit "capability trust store or signature is malformed")
  check_signature token (pem p) = elim (env.load_pem p) [
    | bad_pem ↦ (false, lit "capability trust store or signature is malformed")
    | other_key ↦ (false, lit "trusted key for issuer '" ++ (token.iss ++ lit "' is not Ed25519"))
    | ed25519 key ↦ elim (env.from_hex token.signature) [
      | none ↦ (false, lit "capability trust store or signature is malformed")
      | some signature ↦
          if env.verifies key signature (env.signed_bytes token)
          then (true, [])
          else (false, lit "capability signature is invalid")
    ]
  ]

  unfoldable pub check_store : CapabilityToken → StoreFile → Bool × Text
  unfolding issuer_key check_signature
  check_store token absent = (false, lit "capability trust store does not exist")
  check_store token malformed = (false, lit "capability trust store or signature is malformed")
  check_store token (issuers keys) = elim (issuer_key token.iss keys) [
    | none ↦ (false, lit "issuer '" ++ (token.iss ++ lit "' is not trusted"))
    | some k ↦ check_signature token k
  ]

  -- `_verify_capability_signature(token)`; an empty variable counts as none
  unfoldable pub verify_capability_signature : CapabilityToken → Bool × Text
  unfolding check_store
  verify_capability_signature token = elim env.trust_store [
    | none ↦ (false, lit "LOCK_CAPABILITY_TRUST_STORE is not configured")
    | some path ↦
        if is_blank path
        then (false, lit "LOCK_CAPABILITY_TRUST_STORE is not configured")
        else check_store token (env.read_store path)
  ]

  unfoldable pub invalid : Severity → Text → TokenValidation
  unfolding token_finding
  invalid severity detail = record { valid = false; findings = token_finding severity detail ∷ [] }

  -- The claims of a token whose signature has passed or is not asked for.
  unfoldable pub validate_claims : CapabilityToken → ToolCall → TokenValidation
  unfolding invalid
  validate_claims token call =
      if leb token.exp env.now
      then invalid high
          (lit "token expired at " ++ (show token.exp ++ (lit "; now " ++ show env.now)))
      else if not (token.aud == call.tool)
      then invalid high (
          lit "token audience '"
          ++ (token.aud ++ (lit "' does not match tool '" ++ (call.tool ++ lit "'"))))
      else record { valid = true; findings = [] }

  -- `validate_token(token, call)`
  unfoldable pub validate_token : Option CapabilityToken → ToolCall → TokenValidation
  unfolding is_strict verify_capability_signature invalid validate_claims
  validate_token none call =
      invalid low (lit "no capability token attached; falling back to inferred scope")
  validate_token (some token) call =
      let (verified, reason) = verify_capability_signature token in
      if is_strict env.strict_sig && not verified
      then invalid high (lit "strict-token-sig mode: " ++ reason)
      else validate_claims token call
