-- ===== src/LockClassify/Triples.antt =====
-- lock_classify.py: the triples of a pair, before they are scrubbed.
use loomground_lock.Prelude.{
  Bool, true, false, not, none, some, List, [], ◌∷◌, ◌++◌, map, any, if◌then◌else◌,
}
use loomground_lock.Text.{Text, lit, ◌==◌, contains, is_blank}
use loomground_lock.Value.{Value, Fields, str, num, bool, null, arr, obj, end, entry, lookup}
use loomground_lock.TierM.{truthy, get, iterate, items}
use loomground_lock.HostDeps.{HostState, Reply, returned, raised}
use loomground_lock.LockClassify.Scrub.{doc_token_of, Triples}

infixl 5 ◌>>=◌
abbrev pub ◌>>=◌ : {A B : Type 0} → Reply A → (A → Reply B) → Reply B
returned a >>= f = f a
raised name >>= f = raised name

-- `x or default`
unfoldable pub or_default : Value → Value → Value
unfolding truthy
or_default default v = if truthy v then v else default

-- `pair.get(k) or {}`, of which the code calls `.get`
unfoldable pub block : Text → Fields → Reply Fields
unfolding truthy get
block k d = elim (get k d) [
  | obj b ↦ returned b
  | v ↦ if truthy v then raised (lit "AttributeError") else returned end
]

unfoldable pub safe_facet_keys : List Text
safe_facet_keys =
    lit "domain"
    ∷ lit "subject"
    ∷ lit "modal"
    ∷ lit "modal_phrase"
    ∷ lit "language"
    ∷ lit "has_condition"
    ∷ lit "has_exception"
    ∷ lit "primary_type"
    ∷ []

unfoldable pub facet_triple_keys : List Text
unfolding safe_facet_keys
facet_triple_keys =
    safe_facet_keys
    ++ lit "term" ∷ lit "ref_kind" ∷ lit "ref_number" ∷ lit "doc_kind" ∷ lit "doc_id" ∷ []

unfoldable pub context_triple_keys : List Text
context_triple_keys = lit "regulation" ∷ lit "kind_of_model" ∷ lit "doc_kind" ∷ []

unfoldable pub list_keys : List Text
list_keys = lit "domains" ∷ lit "jurisdictions" ∷ lit "actors" ∷ []

unfoldable pub solution_triple_keys : List Text
solution_triple_keys =
    lit "term"
    ∷ lit "defined_as"
    ∷ lit "ref_kind"
    ∷ lit "ref_number"
    ∷ lit "regulation"
    ∷ lit "doc_kind"
    ∷ lit "doc_id"
    ∷ lit "summary_excerpt"
    ∷ []

unfoldable pub is_text : Text → Value → Bool
is_text k (str s) = k == s
is_text k _ = false

-- `problem.get("facets") or {}`: of a text or a list, `k in facets` may be, and then `facets[k]`
-- raises.
unfoldable pub facets_of : Value → Reply Fields
unfolding truthy facet_triple_keys is_text items
facets_of (obj d) = returned d
facets_of null = returned end
facets_of (str s) =
    if any (λ k. contains k s) facet_triple_keys then raised (lit "TypeError") else returned end
facets_of (arr xs) =
    if any (λ k. any (is_text k) (items xs)) facet_triple_keys
    then raised (lit "TypeError")
    else returned end
facets_of (num n) = if truthy (num n) then raised (lit "TypeError") else returned end
facets_of (bool b) = if b then raised (lit "TypeError") else returned end

-- `{k: facets[k] for k in keys if k in facets}`
unfoldable pub chosen : List Text → Fields → Fields
chosen [] d = end
chosen (k ∷ ks) d =
    let rest = chosen ks d in elim (lookup k d) [ none ↦ rest | some v ↦ entry k v rest ]

-- `for k in keys: if k in d: raw_triples.append([pid, k, d[k]])`
unfoldable pub triples_at : List Text → Fields → Triples
triples_at [] d = []
triples_at (k ∷ ks) d =
    let rest = triples_at ks d in elim (lookup k d) [ none ↦ rest | some v ↦ (k, v) ∷ rest ]

-- `solution[k] not in (None, "")`
unfoldable pub is_filled : Value → Bool
is_filled null = false
is_filled (str s) = not (is_blank s)
is_filled _ = true

unfoldable pub filled_triples : Triples → Triples
unfolding is_filled
filled_triples [] = []
filled_triples ((k, v) ∷ rest) =
    let later = filled_triples rest in if is_filled v then (k, v) ∷ later else later

unfoldable pub truthy_triple : Text → Value → Triples
unfolding truthy
truthy_triple k v = if truthy v then (k, v) ∷ [] else []

-- `for v in (ctx_block.get(list_key) or [])`, for each of the keys
unfoldable pub list_triples : List Text → Fields → Reply Triples
unfolding truthy get iterate
list_triples [] d = returned []
list_triples (k ∷ ks) d = do
  vs ←
      if truthy (get k d)
      then (elim (iterate (get k d)) [ none ↦ raised (lit "TypeError") | some vs ↦ returned vs ])
      else returned []
  rest ← list_triples ks d
  returned (map (λ v. (k ++ lit "_includes", v)) vs ++ rest)

unfoldable pub authority_triple : Value → Triples
authority_triple null = []
authority_triple v = (lit "authority_tier", v) ∷ []

unfoldable pub source_triple : HostState → Text → Value → Triples
unfolding truthy doc_token_of
source_triple host folder src =
    if truthy src then (lit "source_document", str (doc_token_of host folder src)) ∷ [] else []

unfoldable pub raw_triples : HostState → Text → Fields → Fields → Fields → Fields → Reply Triples
unfolding truthy_triple triples_at list_triples filled_triples source_triple authority_triple get
    facet_triple_keys context_triple_keys list_keys solution_triple_keys
raw_triples host folder problem solution facets context = do
  lists ← list_triples list_keys context
  returned (
      truthy_triple (lit "kind") (get (lit "kind") problem)
      ++ (truthy_triple (lit "scope") (get (lit "scope") problem)
          ++ (truthy_triple (lit "type") (get (lit "type") problem)
              ++ (triples_at facet_triple_keys facets
                  ++ (triples_at context_triple_keys context
                      ++ (lists
                          ++ (filled_triples (triples_at solution_triple_keys solution)
                              ++ (authority_triple (get (lit "authority_tier") solution)
                                  ++ source_triple host folder
                                      (get (lit "source_document") problem)))))))))
