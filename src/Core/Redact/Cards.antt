-- ===== src/Core/Redact/Cards.antt =====
-- core.py: the loop of `_redact_for_label` over card numbers.
use loomground_lock.Prelude.{
  length-map, both_true, ℕ, zero, suc, ◌+◌, ◌≤◌, ◌≡◌, refl, ap, sym, ◌∙◌, Bool, true, not, none,
  some, List, [], ◌∷◌, ◌++◌, length, map, filter, all, arith, Option-cases, Bool-cases, inl, inr,
}
use mathlib.Core.List.{append_assoc}
use loomground_lock.Text.{Text, lit}
use loomground_lock.Text.Equality.{==_refl}
use loomground_lock.Text.Unicode.{Unicode}
use loomground_lock.Text.Regex.{Place, Match, search_from}
use loomground_lock.Text.Regex.Build.{among}
use loomground_lock.Text.Regex.Progress.{whole, search_from-whole}
use loomground_lock.Core.Luhn.{is_digit, digit_value, luhn_digits, luhn_ok}
use loomground_lock.Core.Patterns.{card_digits, card_search_from, cc_search}
use loomground_lock.Core.Patterns.Identity.{card_candidate}
use loomground_lock.Core.Redact.{redact_cards_from, redact_cards, redact_with}

some_inj : {A : Type 0} (a b : A) → some a ≡ some b → a ≡ b
some_inj a b e = ground arith

luhn_digits-length : (ds : List ℕ) → luhn_digits ds ≡ true → 13 ≤ length ds
unfolding luhn_digits
luhn_digits-length ds h = ground arith

skipped_whole :
    (s g : Text) (l : Match)
    → whole (record l { skipped = s ++ (g ++ l.skipped) }) ≡ s ++ (g ++ whole l)
skipped_whole s g l =
    append_assoc s (g ++ l.skipped) (l.group ++ l.place.1)
    ∙ ap (λ t. s ++ t) (append_assoc g l.skipped (l.group ++ l.place.1))

module _ (u : Unicode) where
  -- How many digits a text has.
  abbrev pub digits : Text → ℕ
  digits s = length (filter (is_digit u) s)

  digits-append : (s t : Text) → digits (s ++ t) ≡ digits s + digits t
  digits-append [] t = omega arith
  digits-append (c ∷ s) t = ground (arith, digits-append s t)

  digits_le_length : (s : Text) → digits s ≤ length s
  digits_le_length [] = omega arith
  digits_le_length (c ∷ s) = ground (arith, digits_le_length s)

  digits_le-filter : (p : ℕ → Bool) (s : Text) → digits (filter p s) ≤ digits s
  digits_le-filter p [] = omega arith
  digits_le-filter p (c ∷ s) = ground (arith, digits_le-filter p s)

  digits_of_all : (s : Text) → all (is_digit u) s ≡ true → digits s ≡ length s
  digits_of_all [] h = refl
  digits_of_all (c ∷ s) h = ground (arith, digits_of_all s)

  -- A number that passes the checksum has at least thirteen digits.
  luhn_ok-digits : (s : Text) → luhn_ok u s ≡ true → 13 ≤ digits s
  unfolding luhn_ok
  luhn_ok-digits s h =
      let (decimal, checked) =
        both_true (all (is_digit u) s) (luhn_digits (map (digit_value u) s)) h in
      let long = luhn_digits-length (map (digit_value u) s) checked in
      rw (digits_of_all s decimal) (rw (length-map (digit_value u) s) at long)

  card_search_from-whole :
      (n : ℕ) (p : Place) (m : Match)
      → card_search_from u n p ≡ some m
      → (p.1 ≡ whole m) × (luhn_ok u (card_digits u m.group) ≡ true)
  unfolding card_search_from
  card_search_from-whole zero p m e = cc
  card_search_from-whole (suc n) p m e =
      elim (Option-cases (search_from (card_candidate u) p.0 p.1)) [
        | inl missed ↦ let x = rw (card_search_from, missed) at e in absurd (cc)
        | inr (k, found) ↦
            let here = search_from-whole (card_candidate u) p.0 p.1 k found in
            elim (Bool-cases (luhn_ok u (card_digits u k.group))) [
              | inl card ↦
                  let same = some_inj k m (rw (card_search_from, found, card) at e) in
                  (
                    here ∙ ap whole same,
                    ap (λ (x : Match). luhn_ok u (card_digits u x.group)) (sym same) ∙ card,
                  )
              | inr other ↦ elim (Option-cases (card_search_from u n k.place)) [
                | inl none_later ↦
                    let x = rw (card_search_from, found, other, none_later) at e in absurd (cc)
                | inr (l, later) ↦
                    let (behind, card) = card_search_from-whole n k.place l later in
                    let same = some_inj _ m (rw (card_search_from, found, other, later) at e) in
                    (
                      here
                          ∙ ap (λ t. k.skipped ++ (k.group ++ t)) behind
                          ∙ sym (skipped_whole k.skipped k.group l)
                          ∙ ap whole same,
                      ap (λ (x : Match). luhn_ok u (card_digits u x.group)) (sym same) ∙ card,
                    )
              ]
            ]
      ]

  -- What a found card is cut from, and that it has thirteen digits.
  cc_search-digits :
      (s : Text) (m : Match) → cc_search u s ≡ some m → (s ≡ whole m) × (13 ≤ digits m.group)
  unfolding cc_search
  cc_search-digits s m e =
      let (parts, card) = card_search_from-whole (length s) ([], s) m e in
      let long = luhn_ok-digits (card_digits u m.group) card in
      let fewer = digits_le-filter (λ c. not (among " -" c)) m.group in
      (parts, unfold card_digits in omega arith)

  -- Each round takes thirteen digits away.
  digits-round :
      (placeholder s : Text) (m : Match)
      → digits placeholder ≡ 0
      → cc_search u s ≡ some m
      → digits (m.skipped ++ (placeholder ++ m.place.1)) + 13 ≤ digits s
  digits-round placeholder s m h e =
      let (parts, long) = cc_search-digits s m e in
      rw
        (
          parts,
          digits-append m.skipped (placeholder ++ m.place.1),
          digits-append placeholder m.place.1,
          digits-append m.skipped (m.group ++ m.place.1),
          digits-append m.group m.place.1,
        )
        (omega arith)

  redact_cards_from-clean :
      (n : ℕ) (placeholder s : Text)
      → digits placeholder ≡ 0
      → digits s ≤ n
      → cc_search u (redact_cards_from u n placeholder s) ≡ none
  unfolding redact_cards_from
  redact_cards_from-clean zero placeholder s h b = elim (Option-cases (cc_search u s)) [
    | inl clean ↦ clean
    | inr (m, e) ↦ let long = digits-round placeholder s m h e in absurd (omega arith)
  ]
  redact_cards_from-clean (suc n) placeholder s h b = elim (Option-cases (cc_search u s)) [
    | inl clean ↦ rw (redact_cards_from, clean) clean
    | inr (m, e) ↦
        let long = digits-round placeholder s m h e in
        rw (redact_cards_from, e) (redact_cards_from-clean n placeholder _ h (omega arith))
  ]

  redact_cards-clean :
      (placeholder s : Text)
      → digits placeholder ≡ 0
      → cc_search u (redact_cards u placeholder s) ≡ none
  unfolding redact_cards
  redact_cards-clean placeholder s h =
      redact_cards_from-clean (length s) placeholder s h (digits_le_length s)

  -- Redaction of card numbers ends, and with a placeholder that has no digit, what comes out holds
  -- no candidate that passes the checksum.
  pub redact_with-clean :
      (placeholder text : Text)
      → digits placeholder ≡ 0
      → cc_search u (redact_with u text (lit "credit_card") placeholder) ≡ none
  unfolding redact_with
  redact_with-clean placeholder text h =
      rw (==_refl (lit "credit_card")) (redact_cards-clean placeholder text h)
