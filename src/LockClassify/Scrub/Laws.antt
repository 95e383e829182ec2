-- ===== src/LockClassify/Scrub/Laws.antt =====
-- lock_classify.py: where the texts of the clean triples come from.
use loomground_lock.Prelude.{
  ◌≡◌, ◌≢◌, ◌⊎◌, inl, inr, refl, sym, ◌∙◌, true, false, none, List, [], ◌∷◌, is_empty, Bool-cases,
}
use loomground_lock.Text.{Text, lit}
use loomground_lock.Text.Unicode.{Unicode}
use loomground_lock.Value.{Value, str, num, bool, null, arr, obj}
use loomground_lock.TierM.{ModerationEnv}
use loomground_lock.HostDeps.{HostState, Reply, returned}
use loomground_lock.Core.Data.{Finding, TextDecision, TextAction, standard, has_high}
use loomground_lock.Core.Redact.{redact_text_with_regex}
use loomground_lock.Core.TextLock.{lock_text, lock_findings, decide_text, text_allow, text_refuse}
use loomground_lock.LockClassify.Scrub.{
  scrub_of, scrub_as, nothing_to_lock, triple_lock, lock_string, Triples, Cleaned, add_scrubbed,
  add_triple, clean_triples, text_or_empty,
}

-- A triple stands in a list.
unfoldable pub HasTriple : Text → Value → Triples → Type 0
HasTriple p o [] = ⊥
HasTriple p o ((q, v) ∷ rest) = ((p ≡ q) × (o ≡ v)) ⊎ HasTriple p o rest

module _ (lock : Text → Reply TextDecision) where
  -- A text that the lock has let out, of another one.
  unfoldable pub LetOut : Text → Text → Type 0
  LetOut s t = ((lock_string lock s).action ≢ TextAction.refuse) × (t ≡ (lock_string lock s).text)

  unfoldable pub ComesFrom : Text → Text → Triples → Type 0
  ComesFrom p t raw = (s : Text) × HasTriple p (str s) raw × LetOut s t

  later :
      (p q t : Text) (v : Value) (raw : Triples) → ComesFrom p t raw → ComesFrom p t ((q, v) ∷ raw)
  unfolding ComesFrom HasTriple
  later p q t v raw (s, has, out) = (s, inr has, out)

  not_refused_allow : TextAction.allow ≢ TextAction.refuse
  not_refused_allow h = cc

  not_refused_minimise : TextAction.minimise ≢ TextAction.refuse
  not_refused_minimise h = cc

  -- The case of a text that is scrubbed, by the action of the lock.
  scrubbed-ComesFrom :
      (a : TextAction) (p q s t : Text) (rest : Cleaned) (raw : Triples)
      → (lock_string lock s).action ≡ a
      → (HasTriple p (str t) rest.triples → ComesFrom p t raw)
      → HasTriple p (str t) ((add_scrubbed lock a q (lock_string lock s) rest).triples)
      → ComesFrom p t ((q, str s) ∷ raw)
  unfolding add_scrubbed HasTriple ComesFrom LetOut
  scrubbed-ComesFrom TextAction.refuse p q s t rest raw e h m = later p q t (str s) raw (h m)
  scrubbed-ComesFrom TextAction.allow p q s t rest raw e h (inr m) = later p q t (str s) raw (h m)
  scrubbed-ComesFrom TextAction.allow p q s t rest raw e h (inl (same, texts)) =
      (s, inl (same, refl), ((λ k. not_refused_allow (sym e ∙ k)), cc))
  scrubbed-ComesFrom TextAction.minimise p q s t rest raw e h (inr m) =
      later p q t (str s) raw (h m)
  scrubbed-ComesFrom TextAction.minimise p q s t rest raw e h (inl (same, texts)) =
      (s, inl (same, refl), ((λ k. not_refused_minimise (sym e ∙ k)), cc))

  other-ComesFrom :
      (p q t : Text) (v : Value) (rest raw : Triples)
      → ((str t ≡ v) → ⊥)
      → (HasTriple p (str t) rest → ComesFrom p t raw)
      → HasTriple p (str t) ((q, v) ∷ rest)
      → ComesFrom p t ((q, v) ∷ raw)
  unfolding HasTriple
  other-ComesFrom p q t v rest raw no_text h (inl (same, e)) = absurd (no_text e)
  other-ComesFrom p q t v rest raw no_text h (inr m) = later p q t v raw (h m)

  pub clean_triples-ComesFrom :
      (p t : Text) (raw : Triples)
      → HasTriple p (str t) (clean_triples lock raw).triples
      → ComesFrom p t raw
  unfolding clean_triples add_triple HasTriple ComesFrom LetOut lock_string nothing_to_lock
  clean_triples-ComesFrom p t [] m = absurd m
  clean_triples-ComesFrom p t ((q, str []) ∷ raw) (inl (same, e)) =
      ([], inl (same, refl), (not_refused_allow, cc))
  clean_triples-ComesFrom p t ((q, str []) ∷ raw) (inr m) =
      later p q t (str []) raw (clean_triples-ComesFrom p t raw m)
  clean_triples-ComesFrom p t ((q, str (c ∷ s)) ∷ raw) m =
      scrubbed-ComesFrom (lock_string lock (c ∷ s)).action p q (c ∷ s) t (clean_triples lock raw)
        raw refl (clean_triples-ComesFrom p t raw) m
  clean_triples-ComesFrom p t ((q, num n) ∷ raw) m =
      other-ComesFrom p q t (num n) _ raw (λ e. cc) (clean_triples-ComesFrom p t raw) m
  clean_triples-ComesFrom p t ((q, bool b) ∷ raw) m =
      other-ComesFrom p q t (bool b) _ raw (λ e. cc) (clean_triples-ComesFrom p t raw) m
  clean_triples-ComesFrom p t ((q, null) ∷ raw) m =
      other-ComesFrom p q t null _ raw (λ e. cc) (clean_triples-ComesFrom p t raw) m
  clean_triples-ComesFrom p t ((q, arr xs) ∷ raw) m =
      other-ComesFrom p q t (arr xs) _ raw (λ e. cc) (clean_triples-ComesFrom p t raw) m
  clean_triples-ComesFrom p t ((q, obj d) ∷ raw) m =
      other-ComesFrom p q t (obj d) _ raw (λ e. cc) (clean_triples-ComesFrom p t raw) m

-- A decision in STANDARD that lets a text out, by what was found.
standard_out :
    (u : Unicode) (fs : List Finding) (s t source : Text)
    → (scrub_of s (returned (decide_text u fs s standard source))).action ≢ TextAction.refuse
    → t ≡ (scrub_of s (returned (decide_text u fs s standard source))).text
    → ((is_empty fs ≡ true) × (t ≡ s)) ⊎ ((has_high fs ≡ false) × (t ≡ redact_text_with_regex u s))
unfolding scrub_of scrub_as decide_text text_allow text_refuse text_or_empty
standard_out u [] s t source released out = inl (refl, out)
standard_out u (f ∷ fs) s t source released out = elim (Bool-cases (has_high (f ∷ fs))) [
  | inl high ↦ absurd (released (rw high refl))
  | inr low ↦ inr (low, out ∙ rw low refl)
]

module _ (u : Unicode) (host : HostState) (env : ModerationEnv) (context : Text) where
  -- What the lock lets out of a text: itself, where nothing was found in it, or its redaction.
  lock_string-out :
      (s t : Text)
      → LetOut (triple_lock u host env context) s t
      → (t ≡ [])
        ⊎ ((is_empty (lock_findings u host env s context none) ≡ true) × (t ≡ s))
        ⊎ ((has_high (lock_findings u host env s context none) ≡ false)
            × (t ≡ redact_text_with_regex u s))
  unfolding LetOut lock_string nothing_to_lock triple_lock lock_text
  lock_string-out [] t (released, out) = inl out
  lock_string-out (c ∷ s) t (released, out) = inr (
      standard_out u (lock_findings u host env (c ∷ s) context none) (c ∷ s) t (lit "triple")
        released out)

  -- Every text among the clean triples is the clean form of a text among the raw ones, under the
  -- same predicate: an empty text, the raw text itself where the lock finds nothing in it, or the
  -- raw text with its patterns redacted where the lock finds nothing of high severity.
  pub clean_triples_locked :
      (p t : Text) (raw : Triples)
      → HasTriple p (str t) (clean_triples (triple_lock u host env context) raw).triples
      → (s : Text) × HasTriple p (str s) raw
        × ((t ≡ [])
            ⊎ ((is_empty (lock_findings u host env s context none) ≡ true) × (t ≡ s))
            ⊎ ((has_high (lock_findings u host env s context none) ≡ false)
                × (t ≡ redact_text_with_regex u s)))
  unfolding ComesFrom
  clean_triples_locked p t raw m =
      let (s, has, out) = clean_triples-ComesFrom (triple_lock u host env context) p t raw m in
      (s, has, lock_string-out s t out)
