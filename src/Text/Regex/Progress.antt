-- ===== src/Text/Regex/Progress.antt =====
-- The matches of the regex engine, as parts of the text.
use loomground_lock.Prelude.{
  ℕ, zero, suc, ◌-◌, ◌+◌, ◌≡◌, refl, ap, sym, ◌∙◌, Bool, Option, none, some, List, [], ◌∷◌, ◌++◌,
  length, arith, Option-cases, Bool-cases, inl, inr,
}
use loomground_lock.Text.{Text}
use loomground_lock.Text.Regex.{
  Regex, eps, chr, seq, alt, rep, boundary, behind, Place, Continuation, Matcher, one, times,
  at_most, more_times, at_boundary, follows, run, Match, take, search_from,
}

abbrev pub IsSuffixOf : Text → Text → Type 0
IsSuffixOf q s = (w : Text) × (s ≡ w ++ q)

IsSuffixOf-cons : (c : ℕ) (q s : Text) → IsSuffixOf q s → IsSuffixOf q (c ∷ s)
IsSuffixOf-cons c q s (w, e) = (c ∷ w, ap (λ t. c ∷ t) e)

-- Whatever it ends in stands at the end of what it begins with.
abbrev Advances : Continuation → Type 0
Advances k = (p q : Place) → k p ≡ some q → IsSuffixOf q.1 p.1

one-Advances : (test : ℕ → Bool) (k : Continuation) → Advances k → Advances (one test k)
unfolding one
one-Advances test k h (before, []) q e = cc
one-Advances test k h (before, c ∷ rest) q e = elim (Bool-cases (test c)) [
  | inl passes ↦ IsSuffixOf-cons c q.1 rest (h (c ∷ before, rest) q (rw passes at e))
  | inr fails ↦ absurd (ground arith)
]

abbrev IsAdvancing : Matcher → Type 0
IsAdvancing m = (k : Continuation) → Advances k → Advances (m k)

times-Advances : (n : ℕ) (m : Matcher) → IsAdvancing m → IsAdvancing (times n m)
unfolding times
times-Advances zero m a k h = h
times-Advances (suc n) m a k h = a (times n m k) (times-Advances n m a k h)

at_most-Advances : (n : ℕ) (m : Matcher) → IsAdvancing m → IsAdvancing (at_most n m)
unfolding at_most
at_most-Advances zero m a k h p q e = h p q e
at_most-Advances (suc n) m a k h p q e = elim (Option-cases (m (at_most n m k) p)) [
  | inl stuck ↦ h p q (rw (at_most, stuck) at e)
  | inr (r, went) ↦
      a (at_most n m k) (at_most-Advances n m a k h) p q (went ∙ (rw (at_most, went) at e))
]

more_times-Advances : (o : Option ℕ) (m : Matcher) → IsAdvancing m → IsAdvancing (more_times o m)
unfolding more_times
more_times-Advances (some n) m a k h p q e = at_most-Advances n m a k h p q e
more_times-Advances none m a k h p q e = at_most-Advances (length p.1) m a k h p q e

run-Advances : (r : Regex) → IsAdvancing (run r)
unfolding run
run-Advances eps k h p q e = h p q e
run-Advances (chr test) k h p q e = one-Advances test k h p q e
run-Advances (seq a b) k h p q e = run-Advances a (run b k) (run-Advances b k h) p q e
run-Advances (alt a b) k h p q e = elim (Option-cases (run a k p)) [
  | inl stuck ↦ run-Advances b k h p q (rw stuck at e)
  | inr (r, went) ↦ run-Advances a k h p q (went ∙ (rw went at e))
]
run-Advances (rep least more r) k h p q e =
    times-Advances least (run r) (run-Advances r) (more_times more (run r) k)
      (more_times-Advances more (run r) (run-Advances r) k h) p q e
run-Advances (boundary word) k h p q e = elim (Bool-cases (at_boundary word p)) [
  | inl there ↦ h p q (rw there at e)
  | inr not_there ↦ absurd (ground arith)
]
run-Advances (behind word reversed) k h p q e = elim (Bool-cases (follows word reversed p)) [
  | inl there ↦ h p q (rw there at e)
  | inr not_there ↦ absurd (ground arith)
]

pub length-append : {A : Type 0} (xs ys : List A) → length (xs ++ ys) ≡ length xs + length ys
length-append [] ys = omega arith
length-append (x ∷ xs) ys = rw (length-append xs ys) (omega arith)

take-length : (w q : Text) → take (length w) (w ++ q) ≡ w
take-length [] q = refl
take-length (c ∷ w) q = ap (λ t. c ∷ t) (take-length w q)

length-before : (s w q : Text) → s ≡ w ++ q → length s - length q ≡ length w
length-before s w q e = rw (e, length-append w q) (omega arith)

-- The characters of a text in front of its end.
take-suffix : (s w q : Text) → s ≡ w ++ q → take (length s - length q) s ++ q ≡ s
take-suffix s w q e = rw (length-before s w q e, e) (ap (λ t. t ++ q) (take-length w q))

nil_of-IsSuffixOf : (q : Text) → IsSuffixOf q [] → q ≡ []
nil_of-IsSuffixOf q ([], e) = sym e
nil_of-IsSuffixOf q (c ∷ w, e) = cc

some_inj : {A : Type 0} (a b : A) → some a ≡ some b → a ≡ b
some_inj a b e = ground arith

stops : Advances some
stops p q e = ([], ap (λ (r : Place). r.1) (some_inj p q e))

-- The text of a match, put together again.
abbrev pub whole : Match → Text
whole m = m.skipped ++ (m.group ++ m.place.1)

-- A match of a search, put together again, is the text that was searched.
pub search_from-whole :
    (r : Regex) (before s : Text) (m : Match) → search_from r before s ≡ some m → s ≡ whole m
unfolding search_from
search_from-whole r before [] m e = elim (Option-cases (run r some (before, []))) [
  | inl missed ↦ absurd (ground arith)
  | inr (p, hit) ↦
      let end = nil_of-IsSuffixOf p.1 (run-Advances r some stops (before, []) p hit) in
      sym end ∙ ap whole (some_inj _ m (rw (search_from, hit) at e))
]
search_from-whole r before (c ∷ rest) m e = elim (Option-cases (run r some (before, c ∷ rest))) [
  | inl missed ↦ elim (Option-cases (search_from r (c ∷ before) rest)) [
    | inl none_later ↦ absurd (ground arith)
    | inr (l, later) ↦
        ap (λ t. c ∷ t) (search_from-whole r (c ∷ before) rest l later)
        ∙ ap whole (some_inj _ m (rw (search_from, missed, later) at e))
  ]
  | inr (p, hit) ↦
      let (w, parts) = run-Advances r some stops (before, c ∷ rest) p hit in
      sym (take-suffix (c ∷ rest) w p.1 parts)
      ∙ ap whole (some_inj _ m (rw (search_from, hit) at e))
]
