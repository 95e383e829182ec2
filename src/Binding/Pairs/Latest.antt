-- ===== src/Binding/Pairs/Latest.antt =====
-- seal_binding.py: which pair `read_pairs` gives for an id.
use loomground_lock.Prelude.{
  ◌≡◌, refl, ap, sym, ◌∙◌, true, Option, none, some, [], ◌∷◌, ◌++◌, arith, if◌then◌else◌,
}
use loomground_lock.Text.{Text}
use loomground_lock.Text.Equality.{==_refl, ==-eq}
use loomground_lock.Value.{Fields}
use loomground_lock.Seal.Disk.{Tree, Disk}
use loomground_lock.Seal.Envelope.{Primitives, ok}
use loomground_lock.Seal.Outcome.{bind_inv, ok_inj}
use loomground_lock.Binding.Wall.{Session, serve}
use loomground_lock.Binding.Pairs.{
  Readers, read_pairs, event_pairs, record_pairs, pair_from_event, store_events, knowledge_records,
  PairId, by_text, by_number, ◌=?=◌, Pairs, pair_at, put_pair, put_pairs, default_pair,
  default_pairs,
}

unfoldable pub or_else : Option Fields → Option Fields → Option Fields
or_else (some a) o = some a
or_else none o = o

-- The last pair of a list with an id.
unfoldable pub latest : PairId → Pairs → Option Fields
unfolding or_else
latest pid [] = none
latest pid ((j, q) ∷ rest) =
    let later = latest pid rest in or_else later (if pid =?= j then some q else none)

=?=-eq : (a b : PairId) → (a =?= b) ≡ true → a ≡ b
unfolding ◌=?=◌
=?=-eq (by_text a) (by_text b) h = ap by_text (==-eq a b h)
=?=-eq (by_number a) (by_number b) h = ap by_number (ground arith)
=?=-eq (by_text a) (by_number b) h = cc
=?=-eq (by_number a) (by_text b) h = cc

=?=_refl : (a : PairId) → (a =?= a) ≡ true
unfolding ◌=?=◌
=?=_refl (by_text a) = ==_refl a
=?=_refl (by_number a) = ground arith

pair_at-put_pair :
    (k j : PairId) (q : Fields) (out : Pairs)
    → pair_at k (put_pair j q out) ≡ (if k =?= j then some q else pair_at k out)
unfolding pair_at put_pair
pair_at-put_pair k j q [] = refl
pair_at-put_pair k j q ((i, r) ∷ out) =
    ground (arith, pair_at-put_pair k j q out, =?=-eq k j, =?=-eq j i, =?=-eq k i, =?=_refl k)

pair_at-append :
    (k j : PairId) (q : Fields) (out : Pairs)
    → pair_at k (out ++ (j, q) ∷ []) ≡ or_else (pair_at k out) (if k =?= j then some q else none)
unfolding pair_at or_else
pair_at-append k j q [] = refl
pair_at-append k j q ((i, r) ∷ out) = ground (arith, pair_at-append k j q out)

pair_at-default_pair :
    (k j : PairId) (q : Fields) (out : Pairs)
    → pair_at k (default_pair j q out) ≡ or_else (pair_at k out) (if k =?= j then some q else none)
unfolding default_pair or_else
pair_at-default_pair k j q out = ground (arith, pair_at-append k j q out, =?=-eq k j)

pair_at-put_pairs :
    (k : PairId) (written out : Pairs)
    → pair_at k (put_pairs written out) ≡ or_else (latest k written) (pair_at k out)
unfolding put_pairs latest or_else
pair_at-put_pairs k [] out = refl
pair_at-put_pairs k ((j, q) ∷ written) out =
    ground (arith, pair_at-put_pairs k written (put_pair j q out), pair_at-put_pair k j q out)

pair_at-default_pairs :
    (k : PairId) (known out : Pairs)
    → pair_at k (default_pairs known out) ≡ or_else (pair_at k out) (pair_at k known)
unfolding default_pairs pair_at or_else
pair_at-default_pairs k [] out = ground arith
pair_at-default_pairs k ((j, q) ∷ known) out =
    ground
      (arith, pair_at-default_pairs k known (default_pair j q out), pair_at-default_pair k j q out)

or_else_nil : (a b : Option Fields) → or_else (or_else a none) b ≡ or_else a b
unfolding or_else
or_else_nil none b = refl
or_else_nil (some x) b = refl

-- Where read_pairs succeeds, it has served the store, read an id of each pair, and for every id
-- gives the last pair that the events of the store give it, or else the first knowledge record
-- with it, or else nothing.
pub pair_at-read_pairs :
    (p : Primitives) (h : Readers) (folder : Text) (d : Disk) (s : Session) (out : Pairs)
    (k : PairId)
    → read_pairs p h folder d s ≡ ok out
    → (store : Tree) × (written : Pairs) × (known : Pairs) × (serve p folder d s ≡ ok store)
      × (event_pairs (pair_from_event p h) (store_events p h store) ≡ ok written)
      × (record_pairs (knowledge_records p h folder store) ≡ ok known)
      × (pair_at k out ≡ or_else (latest k written) (pair_at k known))
unfolding read_pairs
pair_at-read_pairs p h folder d s out k e =
    let (store, served, e1) = bind_inv (serve p folder d s) _ out e in
    let (written, w, e2) =
      bind_inv (event_pairs (pair_from_event p h) (store_events p h store)) _ out e1 in
    let (known, r, e3) = bind_inv (record_pairs (knowledge_records p h folder store)) _ out e2 in
    (
      store,
      written,
      known,
      served,
      w,
      r,
      ap (pair_at k) (sym (ok_inj e3))
          ∙ pair_at-default_pairs k known (put_pairs written [])
          ∙ ap (λ (o : Option Fields). or_else o (pair_at k known)) (pair_at-put_pairs k written [])
          ∙ or_else_nil (latest k written) (pair_at k known),
    )
