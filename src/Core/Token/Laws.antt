-- ===== src/Core/Token/Laws.antt =====
-- core.py: when `validate_token` finds a token valid.
use loomground_lock.Prelude.{
  ◌≡◌, refl, ◌↔◌, ◌⊎◌, inl, inr, ◌<◌, List, true, false, none, some, Option, arith, is_empty,
  Bool-cases, Option-cases,
}
use loomground_lock.Text.{Text, is_blank}
use loomground_lock.Text.Equality.{==_iff}
use loomground_lock.Core.Data.{CapabilityToken, ToolCall, has_high}
use loomground_lock.Core.Token.{
  TokenEnv, StoredKey, StoreFile, LoadedKey, pem, not_text, absent, malformed, issuers, ed25519,
  other_key, bad_pem, issuer_key, token_finding, is_strict, check_signature, check_store,
  verify_capability_signature, invalid, validate_claims, validate_token,
}

module _ (env : TokenEnv) where
  -- What the strict mode asks of a token: the trust store is configured and holds a key for the
  -- issuer, the key is an Ed25519 key, and the signature is hexadecimal and verifies.
  pub record IsSigned (token : CapabilityToken) : Type 0 where
    pub path : Text
    pub keys : List (Text × StoredKey)
    pub key_text : Text
    pub key : Text
    pub signature : Text
    pub configured : env.trust_store ≡ some path
    pub nonblank : is_blank path ≡ false
    pub stored : env.read_store path ≡ issuers keys
    pub trusted : issuer_key token.iss keys ≡ some (pem key_text)
    pub loaded : env.load_pem key_text ≡ ed25519 key
    pub decoded : env.from_hex token.signature ≡ some signature
    pub verified : env.verifies key signature (env.signed_bytes token) ≡ true

  LoadedKey-cases :
      (l : LoadedKey) → (l ≡ other_key) ⊎ (l ≡ bad_pem) ⊎ ((k : Text) × (l ≡ ed25519 k))
  LoadedKey-cases (ed25519 k) = inr (inr (k, refl))
  LoadedKey-cases other_key = inl refl
  LoadedKey-cases bad_pem = inr (inl refl)

  IsSigned-of-ed25519 :
      (token : CapabilityToken) (path : Text) (keys : List (Text × StoredKey)) (p key : Text)
      → env.trust_store ≡ some path
      → is_blank path ≡ false
      → env.read_store path ≡ issuers keys
      → issuer_key token.iss keys ≡ some (pem p)
      → env.load_pem p ≡ ed25519 key
      → (check_signature env token (pem p)).0 ≡ true
      → IsSigned token
  unfolding check_signature
  IsSigned-of-ed25519 token path keys p key a b c d e h =
      elim (Option-cases (env.from_hex token.signature)) [
        | inl bad ↦ absurd (ground arith)
        | inr (signature, decoded) ↦ record {
          path = path;
          keys = keys;
          key_text = p;
          key = key;
          signature = signature;
          configured = a;
          nonblank = b;
          stored = c;
          trusted = d;
          loaded = e;
          decoded = decoded;
          verified = ground arith;
        }
      ]

  IsSigned-of-issuer :
      (token : CapabilityToken) (path : Text) (keys : List (Text × StoredKey)) (k : StoredKey)
      → env.trust_store ≡ some path
      → is_blank path ≡ false
      → env.read_store path ≡ issuers keys
      → issuer_key token.iss keys ≡ some k
      → (check_signature env token k).0 ≡ true
      → IsSigned token
  unfolding check_signature
  IsSigned-of-issuer token path keys not_text a b c d h = cc
  IsSigned-of-issuer token path keys (pem p) a b c d h = elim (LoadedKey-cases (env.load_pem p)) [
    | inl other ↦ absurd (ground arith)
    | inr (inl bad) ↦ absurd (ground arith)
    | inr (inr (key, loaded)) ↦ IsSigned-of-ed25519 token path keys p key a b c d loaded h
  ]

  IsSigned-of-store :
      (token : CapabilityToken) (path : Text) (file : StoreFile)
      → env.trust_store ≡ some path
      → is_blank path ≡ false
      → env.read_store path ≡ file
      → (check_store env token file).0 ≡ true
      → IsSigned token
  unfolding check_store
  IsSigned-of-store token path absent a b c h = cc
  IsSigned-of-store token path malformed a b c h = cc
  IsSigned-of-store token path (issuers keys) a b c h =
      elim (Option-cases (issuer_key token.iss keys)) [
        | inl unknown ↦ absurd (ground arith)
        | inr (k, found) ↦ IsSigned-of-issuer token path keys k a b c found (ground arith)
      ]

  IsSigned-of-verify :
      (token : CapabilityToken) → (verify_capability_signature env token).0 ≡ true → IsSigned token
  unfolding verify_capability_signature
  IsSigned-of-verify token h = elim (Option-cases env.trust_store) [
    | inl unset ↦ absurd (ground arith)
    | inr (path, set) ↦
        IsSigned-of-store token path (env.read_store path) set (ground arith) refl (ground arith)
  ]

  verify_of-signed :
      (token : CapabilityToken) → IsSigned token → (verify_capability_signature env token).0 ≡ true
  unfolding verify_capability_signature check_store check_signature
  verify_of-signed token s = ground arith

  verified_of-valid :
      (token : CapabilityToken) (call : ToolCall)
      → is_strict env.strict_sig ≡ true
      → (validate_token env (some token) call).valid ≡ true
      → (verify_capability_signature env token).0 ≡ true
  unfolding validate_token invalid
  verified_of-valid token call e h = elim (Bool-cases (verify_capability_signature env token).0) [
    | inl v ↦ v
    | inr v ↦ absurd (ground arith)
  ]

  missing_is_invalid : (call : ToolCall) → (validate_token env none call).valid ≡ true → ⊥
  unfolding validate_token invalid
  missing_is_invalid call h = cc

  validate_some_iff :
      (token : CapabilityToken) (call : ToolCall)
      → ((validate_token env (some token) call).valid ≡ true) ↔ (
          (is_strict env.strict_sig ≡ true → IsSigned token)
          × (env.now < token.exp)
          × (token.aud ≡ call.tool))
  unfolding validate_token validate_claims invalid
  validate_some_iff token call = (
    λ h. (
      λ e. IsSigned-of-verify token (verified_of-valid token call e h),
      ground arith,
      ground (arith, ==_iff token.aud call.tool),
    ),
    λ h. elim (Bool-cases (is_strict env.strict_sig)) [
      | inl asked ↦
          let s = verify_of-signed token (h.0 asked) in ground (arith, ==_iff token.aud call.tool)
      | inr lax ↦ ground (arith, ==_iff token.aud call.tool)
    ],
  )

  -- The validation of a call succeeds exactly when a token is attached that is signed if the strict
  -- mode is on, has not expired, and names the tool that is called as its audience.
  pub validate_token_iff :
      (token : Option CapabilityToken) (call : ToolCall)
      → ((validate_token env token call).valid ≡ true) ↔ (
          (t : CapabilityToken) × (token ≡ some t)
          × (is_strict env.strict_sig ≡ true → IsSigned t)
          × (env.now < t.exp)
          × (t.aud ≡ call.tool))
  validate_token_iff none call = (λ h. absurd (missing_is_invalid call h), λ h. cc)
  validate_token_iff (some token) call = (
    λ h.
        let (signed, fresh, named) = (validate_some_iff token call).0 h in
        (token, refl, signed, fresh, named),
    λ h. rw h.1 ((validate_some_iff h.0 call).1 (h.2, h.3, h.4)),
  )

  -- A token is valid exactly when its validation has no finding; a missing token is never valid,
  -- and is the one case whose finding is not of high severity.
  pub validate_token_findings :
      (token : Option CapabilityToken) (call : ToolCall)
      → let v = validate_token env token call in
        (v.valid ≡ is_empty v.findings)
        × ((has_high v.findings ≡ false) ↔ ((token ≡ none) ⊎ (v.valid ≡ true)))
  unfolding validate_token validate_claims invalid token_finding
  validate_token_findings none call = ground arith
  validate_token_findings (some token) call = ground arith
