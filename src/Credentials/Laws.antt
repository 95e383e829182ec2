-- ===== src/Credentials/Laws.antt =====
-- credential_resolver.py: `resolve_secret` and `arm_status`.
use loomground_lock.Prelude.{
  ◌%◌, ◌≡◌, refl, ◌↔◌, ◌⊎◌, inl, inr, true, Option, none, some, [], ◌∷◌, arith, Bool-cases,
  Option-cases,
}
use loomground_lock.Text.{Text, lit, ◌==◌, strip, is_blank, split_once, has_prefix}
use loomground_lock.Text.Equality.{==-eq}
use loomground_lock.Text.Unicode.{Unicode}
use loomground_lock.HostDeps.{HostState, Reply, returned, raised}
use loomground_lock.Credentials.{
  System, Target, Content, holds, unreadable, undecodable, armed, nonempty, is_open_to_others,
  parse_ref, find_key_root, read_target, resolve_keydir, resolve_parsed, resolve_secret, status_of,
  ref_text, arm_status,
}

-- A blank text has no colon, so that a blank reference does not parse.
blank_is_nil : (s : Text) → is_blank s ≡ true → s ≡ []
blank_is_nil [] h = refl
blank_is_nil (c ∷ s) h = cc

no_colon_in_nil : split_once (lit ":") [] ≡ none
unfolding split_once lit has_prefix
no_colon_in_nil = refl

no_ref_in_blank :
    (u : Unicode) (ref : Option Text)
    → is_blank (strip (ref_text ref)) ≡ true
    → parse_ref u ref ≡ none
unfolding parse_ref
no_ref_in_blank u none h = refl
no_ref_in_blank u (some r) h = rw (blank_is_nil (strip r) h, parse_ref) (rw no_colon_in_nil)

status-armed :
    (r : Reply (Option Text)) → status_of r ≡ returned armed → (s : Text) × (r ≡ returned (some s))
unfolding status_of
status-armed (returned (some s)) h = (s, refl)
status-armed (returned none) h = cc
status-armed (raised e) h = cc

nonempty-some : (o : Option Text) (s : Text) → nonempty o ≡ some s → o ≡ some s
unfolding nonempty
nonempty-some none s h = cc
nonempty-some (some []) s h = cc
nonempty-some (some (c ∷ t)) s h = h

some-injective : {s t : Text} → some s ≡ some t → s ≡ t
some-injective h = cc

Content-cases :
    (x : Content) → ((c : Text) × (x ≡ holds c)) ⊎ ((x ≡ unreadable) ⊎ (x ≡ undecodable))
Content-cases (holds c) = inl (c, refl)
Content-cases unreadable = inr (inl refl)
Content-cases undecodable = inr (inr refl)

module _ (u : Unicode) (host : HostState) (sys : System) where
  resolved_is_armed :
      (ref : Option Text) (s : Text)
      → resolve_secret u host sys ref ≡ returned (some s)
      → arm_status u host sys ref ≡ returned armed
  unfolding arm_status resolve_secret resolve_parsed status_of
  resolved_is_armed ref s h = elim (Bool-cases (is_blank (strip (ref_text ref)))) [
    | inl blank ↦ absurd (ground (arith, no_ref_in_blank u ref blank))
    | inr present ↦ elim (Option-cases (parse_ref u ref)) [
      | inl bad ↦ absurd (ground arith)
      | inr (p, e) ↦ ground arith
    ]
  ]

  armed_is_resolved :
      (ref : Option Text)
      → arm_status u host sys ref ≡ returned armed
      → (s : Text) × (resolve_secret u host sys ref ≡ returned (some s))
  unfolding arm_status
  armed_is_resolved ref h = status-armed (resolve_secret u host sys ref) (ground arith)

  -- A reference is armed exactly when it resolves to a secret.
  pub armed_iff :
      (ref : Option Text)
      → (arm_status u host sys ref ≡ returned armed)
        ↔ ((s : Text) × (resolve_secret u host sys ref ≡ returned (some s)))
  armed_iff ref = (armed_is_resolved ref, λ (s, h). resolved_is_armed ref s h)

  read_target-some :
      (t : Target) (s : Text)
      → read_target u host sys t ≡ returned (some s)
      → (t.inside_root ≡ true)
        × (t.is_file ≡ true)
        × (t.mode % 64 ≡ 0)
        × (c : Text) × (t.content ≡ holds c)
        × (strip c ≡ s)
  unfolding read_target is_open_to_others
  read_target-some t s h = elim (Content-cases t.content) [
    | inl (c, e) ↦ (
      ground arith,
      ground arith,
      ground arith,
      c,
      e,
      some-injective (nonempty-some (some (strip c)) s (ground arith)),
    )
    | inr (inl e) ↦ absurd (ground arith)
    | inr (inr e) ↦ absurd (ground arith)
  ]

  -- Where a secret comes from: a variable of the environment, or a file below the key root.
  pub data Source (s scheme locator : Text) : Type 0 where
    from_environ : scheme ≡ lit "env" → sys.environ locator ≡ some s → Source s scheme locator
    from_file :
        (root : Text)
        → scheme ≡ lit "keydir"
        → find_key_root u host sys ≡ some root
        → (sys.target root locator).inside_root ≡ true
        → (sys.target root locator).is_file ≡ true
        → (sys.target root locator).mode % 64 ≡ 0
        → (content : Text) → (sys.target root locator).content ≡ holds content
        → strip content ≡ s
        → Source s scheme locator

  resolve_keydir-Source :
      (s scheme locator : Text)
      → scheme ≡ lit "keydir"
      → resolve_keydir u host sys locator ≡ returned (some s)
      → Source s scheme locator
  unfolding resolve_keydir
  resolve_keydir-Source s scheme locator e h = elim (Option-cases (find_key_root u host sys)) [
    | inl missing ↦ absurd (ground arith)
    | inr (root, r) ↦
        let t = read_target-some (sys.target root locator) s (ground arith) in
        from_file root e r t.0 t.1 t.2 t.3 t.4 t.5
  ]

  resolve_parsed-Source :
      (s scheme locator : Text)
      → resolve_parsed u host sys (some (scheme, locator)) ≡ returned (some s)
      → Source s scheme locator
  unfolding resolve_parsed
  resolve_parsed-Source s scheme locator h = elim (Bool-cases (scheme == lit "env")) [
    | inl env ↦
        from_environ (==-eq scheme (lit "env") env)
          (nonempty-some (sys.environ locator) s (ground arith))
    | inr not_env ↦ elim (Bool-cases (scheme == lit "keydir")) [
      | inl keydir ↦
          resolve_keydir-Source s scheme locator (==-eq scheme (lit "keydir") keydir) (ground arith)
      | inr unknown ↦ absurd (ground arith)
    ]
  ]

  -- A secret that a reference resolves to is the value of the environment variable that it names, or
  -- the stripped content of a regular file below the key root that neither the group nor others may
  -- read, write or run.
  pub resolve_secret-Source :
      (ref : Option Text) (s : Text)
      → resolve_secret u host sys ref ≡ returned (some s)
      → (scheme : Text) × (locator : Text) × (parse_ref u ref ≡ some (scheme, locator))
        × Source s scheme locator
  unfolding resolve_secret
  resolve_secret-Source ref s h = elim (Option-cases (parse_ref u ref)) [
    | inl bad ↦ absurd (unfold resolve_parsed in ground arith)
    | inr ((scheme, locator), e) ↦
        (scheme, locator, e, resolve_parsed-Source s scheme locator (rw e at h))
  ]
