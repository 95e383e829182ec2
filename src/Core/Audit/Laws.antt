-- ===== src/Core/Audit/Laws.antt =====
-- core.py: what an entry of the audit log depends on.
use loomground_lock.Prelude.{
  length-map, ℕ, ◌≡◌, refl, ap, sym, ◌∙◌, Bool, false, Option, List, [], ◌∷◌, map, any, length,
  is_empty, Bool-cases, inl, inr,
}
use loomground_lock.Text.{Text, lit, ◌==◌}
use loomground_lock.Text.Unicode.{Unicode}
use loomground_lock.Value.{Value, Fields, str, obj, entry}
use loomground_lock.HostDeps.{HostState, Reply, returned, raised}
use loomground_lock.Core.Data.{
  Mode, standard, strict, permissive, audit_only, Severity, low, medium, high, is_high_severity,
  has_high, Finding,
}
use loomground_lock.Core.TextLock.{lock_text, lock_findings, decide_text, text_allow, text_refuse}
use loomground_lock.TierM.{ModerationEnv}
use loomground_lock.Core.Audit.{
  Log, Stamp, severity_value, finding_summary, summaries, text_entry, after_write,
  audited_lock_text,
}

-- The severity that a summary states.
summary_high : Value → Bool
summary_high (obj (entry a v (entry b w (entry c (str s) d)))) = s == lit "high"
summary_high _ = false

severity_value-high : (s : Severity) → (severity_value s == lit "high") ≡ is_high_severity s
unfolding severity_value lit ◌==◌
severity_value-high low = refl
severity_value-high medium = refl
severity_value-high high = refl

has_high-summaries : (fs : List Finding) → any summary_high (map finding_summary fs) ≡ has_high fs
unfolding finding_summary summary_high
has_high-summaries [] = refl
has_high-summaries (f ∷ fs) = rw (severity_value-high f.severity, has_high-summaries fs)

-- Two lists of findings that are summed up alike.
abbrev pub IsAlike : List Finding → List Finding → Type 0
IsAlike fs gs = map finding_summary fs ≡ map finding_summary gs

alike_high : (fs gs : List Finding) → IsAlike fs gs → has_high fs ≡ has_high gs
alike_high fs gs h = sym (has_high-summaries fs) ∙ ap (any summary_high) h ∙ has_high-summaries gs

alike_length : (fs gs : List Finding) → IsAlike fs gs → length fs ≡ length gs
alike_length fs gs h =
    sym (length-map finding_summary fs) ∙ ap length h ∙ length-map finding_summary gs

alike_empty : (fs gs : List Finding) → IsAlike fs gs → is_empty fs ≡ is_empty gs
alike_empty [] [] h = refl
alike_empty [] (g ∷ gs) h = cc
alike_empty (f ∷ fs) [] h = cc
alike_empty (f ∷ fs) (g ∷ gs) h = refl

-- What is left of a reply where its decision is dropped.
abbrev pub logged : {A : Type 0} → Reply (A × Option Log) → Reply (Option Log)
logged (returned (d, log)) = returned log
logged (raised name) = raised name

logged-after_write : {A : Type 0} (d : A) (r : Reply (Option Log)) → logged (after_write d r) ≡ r
unfolding after_write
logged-after_write d (returned log) = refl
logged-after_write d (raised name) = refl

text_decided_alike :
    (u : Unicode) (stamp : Stamp) (n : ℕ) (text text' : Text) (fs gs : List Finding) (mode : Mode)
    (source : Text) (task : Option Text)
    → IsAlike fs gs
    → text_entry stamp n (decide_text u fs text mode source) mode task
      ≡ text_entry stamp n (decide_text u gs text' mode source) mode task
unfolding text_entry decide_text text_allow text_refuse summaries
text_decided_alike u stamp n text text' fs gs audit_only source task h =
    rw (h, alike_length fs gs h)
text_decided_alike u stamp n text text' fs gs permissive source task h =
    rw (h, alike_length fs gs h)
text_decided_alike u stamp n text text' fs gs strict source task h =
    rw (alike_empty fs gs h) (elim (Bool-cases (is_empty gs)) [
      | inl clean ↦ rw clean
      | inr dirty ↦ rw (dirty, h, alike_length fs gs h)
    ])
text_decided_alike u stamp n text text' fs gs standard source task h =
    rw (alike_empty fs gs h, alike_high fs gs h)
      (elim (Bool-cases (is_empty gs)) [
        | inl clean ↦ rw clean
        | inr dirty ↦ elim (Bool-cases (has_high gs)) [
          | inl refused ↦ rw (dirty, refused, h, alike_length fs gs h)
          | inr minimised ↦ rw (dirty, minimised, h, alike_length fs gs h)
        ]
      ])

module _ (u : Unicode) (host : HostState) (writable : Bool) (stamp : Stamp) where
  -- Texts of the same length whose findings are summed up alike leave the same log, or fail alike.
  pub text_log_alike :
      (env : ModerationEnv) (text text' context : Text) (mode : Mode) (source : Text)
      (rules : Option Fields) (task : Option Text) (log : Option Log)
      → length text ≡ length text'
      → IsAlike
          (lock_findings u host env text context rules)
          (lock_findings u host env text' context rules)
      → logged (audited_lock_text u host writable stamp env text context mode source rules task log)
        ≡ logged
            (audited_lock_text u host writable stamp env text' context mode source rules task log)
  unfolding audited_lock_text lock_text
  text_log_alike env text text' context mode source rules task log n h =
      logged-after_write _ _
      ∙ rw (n, text_decided_alike u stamp (length text') text text' _ _ mode source task h)
          (sym (logged-after_write _ _))
