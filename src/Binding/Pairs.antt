-- ===== src/Binding/Pairs.antt =====
-- seal_binding.py: `replay` and `read_pairs`, over the served store. The host's readers and the
-- UTF-8 codec are arguments; the events and records that the host gives are JSON-like values.
pub mod Latest
use loomground_lock.Prelude.{
  ℕ, Bool, true, false, not, Option, none, some, List, [], ◌∷◌, ◌++◌, any, ◌&&◌, ◌||◌, ◌==◌ as eqb,
  if◌then◌else◌,
}
use loomground_lock.Text.{Text, lit, ◌==◌, has_prefix, strip, is_blank}
use loomground_lock.Value.{Value, Fields, str, num, bool, null, arr, obj, end, lookup}
use loomground_lock.TierM.{truthy, get}
use loomground_lock.Seal.Disk.{Tree, Disk, file_at}
use loomground_lock.Seal.Envelope.{Primitives, Outcome, ok, seal_error, crashed, ◌>>=◌}
use loomground_lock.Seal.Folder.{sink_prefix}
use loomground_lock.Binding.Wall.{Session, serve}

pub record Readers : Type 0 where
  -- `bytes.decode("utf-8")`; `none` is a `UnicodeDecodeError`
  pub decode : Text → Option Text
  -- the hooks of the host, `none` where one is not wired
  pub events_from_bytes : Option (Text → List Value)
  pub pair_from_event : Option (Value → Option Fields)
  pub read_served : Option (Tree → List Value)
  pub read_disk : Option (Text → List Value)

-- `raw.splitlines()` of bytes, whose line ends are `\n`, `\r` and `\r\n`
grow_line : ℕ → List Text → List Text
grow_line c [] = (c ∷ []) ∷ []
grow_line c (l ∷ ls) = (c ∷ l) ∷ ls

unfoldable pub byte_lines : Bool → Text → List Text
unfolding grow_line
byte_lines after_cr [] = []
byte_lines after_cr (c ∷ s) =
    let rest = byte_lines (eqb c 13) s in
    if after_cr && eqb c 10
    then rest
    else if eqb c 10 || eqb c 13
    then [] ∷ rest
    else grow_line c rest

-- A key of the dict of pairs: what Python compares of a hashable value, in which True is 1.
pub data PairId : Type 0 where
  by_text : Text → PairId
  by_number : ℕ → PairId

infix 50 ◌=?=◌
unfoldable pub ◌=?=◌ : PairId → PairId → Bool
by_text a =?= by_text b = a == b
by_number a =?= by_number b = eqb a b
_ =?= _ = false

abbrev pub Pairs : Type 0
Pairs = List (PairId × Fields)

-- `out[pid] = pair`
unfoldable pub put_pair : PairId → Fields → Pairs → Pairs
put_pair pid pair [] = (pid, pair) ∷ []
put_pair pid pair ((j, q) ∷ out) =
    let later = (j, q) ∷ put_pair pid pair out in if pid =?= j then (j, pair) ∷ out else later

unfoldable pub pair_at : PairId → Pairs → Option Fields
pair_at pid [] = none
pair_at pid ((j, q) ∷ out) = if pid =?= j then some q else pair_at pid out

-- `out.setdefault(pid, body)`
unfoldable pub default_pair : PairId → Fields → Pairs → Pairs
unfolding pair_at
default_pair pid body out = elim (pair_at pid out) [ none ↦ out ++ (pid, body) ∷ [] | some q ↦ out ]

-- A truthy value as a key; a list or a dict is not hashable.
unfoldable pub hashed : Value → Outcome (Option PairId)
unfolding truthy
hashed (str s) = if truthy (str s) then ok (some (by_text s)) else ok none
hashed (num n) = if truthy (num n) then ok (some (by_number n)) else ok none
hashed (bool b) = if b then ok (some (by_number 1)) else ok none
hashed null = ok none
hashed (arr xs) = if truthy (arr xs) then crashed (lit "TypeError") else ok none
hashed (obj d) = if truthy (obj d) then crashed (lit "TypeError") else ok none

-- `x.get(k)` of a value, which must be a dict
unfoldable pub get_of : Text → Value → Outcome Value
unfolding get
get_of k (obj d) = ok (get k d)
get_of k _ = crashed (lit "AttributeError")

-- `pair.get("id") or (pair.get("problem") or {}).get("id")`
unfoldable pub pair_id : Fields → Outcome Value
unfolding truthy get get_of
pair_id pair =
    if truthy (get (lit "id") pair)
    then ok (get (lit "id") pair)
    else if truthy (get (lit "problem") pair)
    then get_of (lit "id") (get (lit "problem") pair)
    else ok null

-- The default of `_pair_from_event`: the dict `extra.pair`
unfoldable pub extra_pair : Value → Option Fields
unfolding get
extra_pair (obj evt) = elim (get (lit "extra") evt) [
  | obj extra ↦ elim (get (lit "pair") extra) [ obj pair ↦ some pair | _ ↦ none ]
  | _ ↦ none
]
extra_pair _ = none

-- The pair of a record, where it is there with an id.
unfoldable pub identified : Option Fields → Outcome Pairs
unfolding pair_id hashed
identified none = ok []
identified (some pair) = do
  v ← pair_id pair
  pid ← hashed v
  elim pid [ none ↦ ok [] | some k ↦ ok ((k, pair) ∷ []) ]

-- The body of a knowledge record: `rec.get("properties", {}).get("record")`, where it is a dict
unfoldable pub body_of : Value → Outcome (Option Fields)
unfolding get_of
body_of (obj rec) = do
  record_value ← elim (lookup (lit "properties") rec) [
    | none ↦ ok null
    | some properties ↦ get_of (lit "record") properties
  ]
  ok (elim record_value [ obj body ↦ some body | _ ↦ none ])
body_of _ = ok none

-- The loops of `read_pairs` over the events and the records: the assignments that they make.
unfoldable pub event_pairs : (Value → Option Fields) → List Value → Outcome Pairs
unfolding identified
event_pairs pair_of [] = ok []
event_pairs pair_of (evt ∷ evts) = do
  first ← identified (pair_of evt)
  rest ← event_pairs pair_of evts
  ok (first ++ rest)

unfoldable pub record_pairs : List Value → Outcome Pairs
unfolding body_of identified
record_pairs [] = ok []
record_pairs (rec ∷ recs) = do
  body ← body_of rec
  first ← identified body
  rest ← record_pairs recs
  ok (first ++ rest)

unfoldable pub put_pairs : Pairs → Pairs → Pairs
unfolding put_pair
put_pairs [] out = out
put_pairs ((pid, pair) ∷ rest) out = put_pairs rest (put_pair pid pair out)

unfoldable pub default_pairs : Pairs → Pairs → Pairs
unfolding default_pair
default_pairs [] out = out
default_pairs ((pid, body) ∷ rest) out = default_pairs rest (default_pair pid body out)

module _ (p : Primitives) (h : Readers) where
  -- A line that is a JSON object, and nothing for any other.
  unfoldable pub line_event : Text → List Value
  line_event line = elim (h.decode line) [
    | none ↦ []
    | some text ↦
        if is_blank (strip text)
        then []
        else elim (p.loads (strip text)) [ none ↦ [] | some (obj d) ↦ obj d ∷ [] | some _ ↦ [] ]
  ]

  unfoldable pub line_events : List Text → List Value
  unfolding line_event
  line_events [] = []
  line_events (l ∷ ls) = line_event l ++ line_events ls

  -- `_events_from_bytes(raw)`
  unfoldable pub events_from_bytes : Text → List Value
  unfolding line_events byte_lines
  events_from_bytes raw = elim h.events_from_bytes [
    | none ↦ line_events (byte_lines false raw)
    | some hook ↦ hook raw
  ]

  -- `_pair_from_event(evt)`
  unfoldable pub pair_from_event : Value → Option Fields
  unfolding extra_pair
  pair_from_event evt = elim h.pair_from_event [ none ↦ extra_pair evt | some hook ↦ hook evt ]

  -- The events of a store: none where events.jsonl is missing or empty
  unfoldable pub store_events : Tree → List Value
  unfolding events_from_bytes
  store_events store = elim (file_at (lit "events.jsonl") store) [
    | none ↦ []
    | some raw ↦ if is_blank raw then [] else events_from_bytes raw
  ]

  -- `replay(folder)`
  unfoldable pub replay : Text → Disk → Session → Outcome (List Value)
  unfolding serve store_events
  replay folder d s = do store ← serve p folder d s; ok (store_events store)

  -- The records of the knowledge sink, of the store where that holds it, and of the disk otherwise.
  unfoldable pub knowledge_records : Text → Tree → List Value
  knowledge_records folder store =
      if any (λ (f : Text × Text). has_prefix (sink_prefix ++ lit ".versum/") f.0) store
      then (elim h.read_served [ none ↦ [] | some served ↦ served store ])
      else (elim h.read_disk [ none ↦ [] | some on_disk ↦ on_disk folder ])

  -- `read_pairs(folder)`
  unfoldable pub read_pairs : Text → Disk → Session → Outcome Pairs
  unfolding serve store_events pair_from_event event_pairs knowledge_records record_pairs put_pairs
      default_pairs
  read_pairs folder d s = do
    store ← serve p folder d s
    written ← event_pairs pair_from_event (store_events store)
    known ← record_pairs (knowledge_records folder store)
    ok (default_pairs known (put_pairs written []))
