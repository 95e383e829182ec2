-- ===== src/Tests/Codec.antt =====
-- A text format for the JSON-like values, and a vault of primitives made of it.
use loomground_lock.Prelude.{
  ◌≡◌, refl, sym, ◌∙◌, ℕ, zero, suc, ◌+◌, ◌≤◌, true, false, ◌&&◌, Option, none, some, [], ◌∷◌, ◌++◌,
  arith, if◌then◌else◌,
}
use loomground_lock.Text.{Text, lit, ◌==◌}
use loomground_lock.Text.Equality.{==_refl, ==-eq}
use loomground_lock.Value.{
  Value, Items, Fields, str, num, bool, null, arr, obj, nil, cons, end, entry,
}
use loomground_lock.Seal.Envelope.{Primitives}
use loomground_lock.Seal.Reliable.{Reliable, Authentic}

-- A text, each character behind a 1, and a 0 behind the last.
put_text : Text → Text → Text
put_text [] rest = 0 ∷ rest
put_text (c ∷ s) rest = 1 ∷ c ∷ put_text s rest

get_text : Text → Option (Text × Text)
get_text [] = none
get_text (zero ∷ rest) = some ([], rest)
get_text (suc n ∷ []) = none
get_text (suc n ∷ c ∷ t) = elim (get_text t) [ none ↦ none | some (s, rest) ↦ some (c ∷ s, rest) ]

get_text-put_text : (s rest : Text) → get_text (put_text s rest) ≡ some (s, rest)
unfolding get_text put_text
get_text-put_text [] rest = refl
get_text-put_text (c ∷ s) rest = rw (get_text-put_text s rest) refl

mutual
  put : Value → Text → Text
  put (str s) rest = 0 ∷ put_text s rest
  put (num n) rest = 1 ∷ n ∷ rest
  put (bool true) rest = 2 ∷ rest
  put (bool false) rest = 3 ∷ rest
  put null rest = 4 ∷ rest
  put (arr xs) rest = 5 ∷ put_items xs rest
  put (obj d) rest = 6 ∷ put_fields d rest

  put_items : Items → Text → Text
  put_items nil rest = 0 ∷ rest
  put_items (cons x xs) rest = 1 ∷ put x (put_items xs rest)

  put_fields : Fields → Text → Text
  put_fields end rest = 0 ∷ rest
  put_fields (entry k v d) rest = 1 ∷ put_text k (put v (put_fields d rest))

mutual
  size : Value → ℕ
  size (arr xs) = suc (size_items xs)
  size (obj d) = suc (size_fields d)
  size (str s) = 1
  size (num n) = 1
  size (bool b) = 1
  size null = 1

  size_items : Items → ℕ
  size_items nil = 1
  size_items (cons x xs) = suc (size x + size_items xs)

  size_fields : Fields → ℕ
  size_fields end = 1
  size_fields (entry k v d) = suc (size v + size_fields d)

mutual
  get : ℕ → Text → Option (Value × Text)
  get (suc f) (zero ∷ t) = elim (get_text t) [ none ↦ none | some (s, rest) ↦ some (str s, rest) ]
  get (suc f) (suc zero ∷ n ∷ t) = some (num n, t)
  get (suc f) (suc (suc zero) ∷ t) = some (bool true, t)
  get (suc f) (suc (suc (suc zero)) ∷ t) = some (bool false, t)
  get (suc f) (suc (suc (suc (suc zero))) ∷ t) = some (null, t)
  get (suc f) (suc (suc (suc (suc (suc zero)))) ∷ t) = elim (get_items f t) [
    | none ↦ none
    | some (xs, rest) ↦ some (arr xs, rest)
  ]
  get (suc f) (suc (suc (suc (suc (suc (suc zero))))) ∷ t) = elim (get_fields f t) [
    | none ↦ none
    | some (d, rest) ↦ some (obj d, rest)
  ]
  get _ _ = none

  get_items : ℕ → Text → Option (Items × Text)
  get_items (suc f) (zero ∷ t) = some (nil, t)
  get_items (suc f) (suc zero ∷ t) = elim (get f t) [
    | none ↦ none
    | some (x, t1) ↦ elim (get_items f t1) [
      | none ↦ none
      | some (xs, rest) ↦ some (cons x xs, rest)
    ]
  ]
  get_items _ _ = none

  get_fields : ℕ → Text → Option (Fields × Text)
  get_fields (suc f) (zero ∷ t) = some (end, t)
  get_fields (suc f) (suc zero ∷ t) = elim (get_text t) [
    | none ↦ none
    | some (k, t1) ↦ elim (get f t1) [
      | none ↦ none
      | some (v, t2) ↦ elim (get_fields f t2) [
        | none ↦ none
        | some (d, rest) ↦ some (entry k v d, rest)
      ]
    ]
  ]
  get_fields _ _ = none

not_suc : (n : ℕ) → suc n ≤ 0 → ⊥
not_suc n h = omega arith

none_small : (v : Value) → size v ≤ 0 → ⊥
unfolding size
none_small (str s) h = omega arith
none_small (num n) h = omega arith
none_small (bool b) h = omega arith
none_small null h = omega arith
none_small (arr xs) h = omega arith
none_small (obj d) h = omega arith

mutual
  unfolding get put size

  get-put : (v : Value) (rest : Text) (f : ℕ) → size v ≤ f → get f (put v rest) ≡ some (v, rest)
  get-put v rest zero h = absurd (none_small v h)
  get-put (str s) rest (suc f) h = rw (get, get_text-put_text s rest) refl
  get-put (num n) rest (suc f) h = refl
  get-put (bool true) rest (suc f) h = refl
  get-put (bool false) rest (suc f) h = refl
  get-put null rest (suc f) h = refl
  get-put (arr xs) rest (suc f) h = rw (get, get_items-put_items xs rest f (omega arith)) refl
  get-put (obj d) rest (suc f) h = rw (get, get_fields-put_fields d rest f (omega arith)) refl

  get_items-put_items :
      (xs : Items) (rest : Text) (f : ℕ)
      → size_items xs ≤ f
      → get_items f (put_items xs rest) ≡ some (xs, rest)
  get_items-put_items nil rest zero h = absurd (not_suc 0 h)
  get_items-put_items (cons x xs) rest zero h = absurd (not_suc (size x + size_items xs) h)
  get_items-put_items nil rest (suc f) h = refl
  get_items-put_items (cons x xs) rest (suc f) h =
      rw
        (
          get_items,
          get-put x (put_items xs rest) f (omega arith),
          get_items-put_items xs rest f (omega arith),
        )
        refl

  get_fields-put_fields :
      (d : Fields) (rest : Text) (f : ℕ)
      → size_fields d ≤ f
      → get_fields f (put_fields d rest) ≡ some (d, rest)
  get_fields-put_fields end rest zero h = absurd (not_suc 0 h)
  get_fields-put_fields (entry k v d) rest zero h = absurd (not_suc (size v + size_fields d) h)
  get_fields-put_fields end rest (suc f) h = refl
  get_fields-put_fields (entry k v d) rest (suc f) h =
      rw
        (
          get_fields,
          get_text-put_text k (put v (put_fields d rest)),
          get-put v (put_fields d rest) f (omega arith),
          get_fields-put_fields d rest f (omega arith),
        )
        refl

dumps : Value → Text
dumps v = size v ∷ put v []

loads : Text → Option Value
loads [] = none
loads (f ∷ t) = elim (get f t) [ none ↦ none | some (v, rest) ↦ some v ]

loads-dumps : (v : Value) → loads (dumps v) ≡ some v
unfolding loads dumps
loads-dumps v = rw (loads, get-put v [] (size v) (omega arith)) refl

encrypt : Text → Text → Text → Text → Text
encrypt key nonce plaintext aad = put_text key (put_text nonce (put_text aad plaintext))

decrypt : Text → Text → Text → Text → Option Text
decrypt key nonce ct aad = elim (get_text ct) [
  | none ↦ none
  | some (k, t) ↦ elim (get_text t) [
    | none ↦ none
    | some (n, u) ↦ elim (get_text u) [
      | none ↦ none
      | some (a, plaintext) ↦ if k == key && (n == nonce && a == aad) then some plaintext else none
    ]
  ]
]

decrypt-encrypt :
    (key nonce plaintext aad key' nonce' aad' : Text)
    → decrypt key' nonce' (encrypt key nonce plaintext aad) aad'
      ≡ (if key == key' && (nonce == nonce' && aad == aad') then some plaintext else none)
unfolding decrypt encrypt
decrypt-encrypt key nonce plaintext aad key' nonce' aad' =
    rw
      (
        decrypt,
        get_text-put_text key (put_text nonce (put_text aad plaintext)),
        get_text-put_text nonce (put_text aad plaintext),
        get_text-put_text aad plaintext,
      )
      refl

right_key :
    (key key' nonce nonce' aad aad' plaintext q : Text)
    → (if key == key' && (nonce == nonce' && aad == aad') then some plaintext else none) ≡ some q
    → (key ≡ key') × (aad ≡ aad')
right_key key key' nonce nonce' aad aad' plaintext q h =
    (==-eq key key' (ground arith), ==-eq aad aad' (ground arith))

unfoldable pub vault : Primitives
unfolding dumps loads encrypt decrypt put_text get_text size put get
vault = record {
  scrypt = λ pass salt n r q. some (pass ++ salt);
  encrypt = encrypt;
  decrypt = decrypt;
  b64encode = λ bytes. bytes;
  b64decode = λ text. some text;
  dumps = dumps;
  loads = loads;
  folder_hash = λ folder. lit "h-" ++ folder;
  legacy_folder_hash = λ folder. lit "l-" ++ folder;
}

pub vault-Reliable : Reliable vault
unfolding vault
vault-Reliable = record {
  decodes = λ bytes. refl;
  parses = λ v h. loads-dumps v;
  decrypts = λ key nonce plaintext aad.
      decrypt-encrypt key nonce plaintext aad key nonce aad
      ∙ rw (==_refl key, ==_refl nonce, ==_refl aad) refl;
}

pub vault-Authentic : Authentic vault
unfolding vault
vault-Authentic = record {
  authenticates = λ key nonce plaintext aad key' nonce' aad' q h.
      let same =
        right_key key key' nonce nonce' aad aad' plaintext q
          (sym (decrypt-encrypt key nonce plaintext aad key' nonce' aad') ∙ h) in
      same;
}
