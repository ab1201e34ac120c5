-- ===== src/Stats/Top.antt =====
-- Counting values, and the orders in which counts are shown: topN, sortedHourly and Suggest of store.go.
use plv.Prelude.{
  ℕ, ◌+◌, Bool, true, false, ◌&&◌, ◌==◌, ltb, if◌then◌else◌, List, [], ◌∷◌, map, take, length,
}
use plv.Go.Text.{Text, lit, text_eq, is_empty, elem, compare_text, less}
use plv.Go.Map.{Map, insert, lookup_or}
use plv.Go.Sort.{sort_stable}
use plv.Records.{Record}
use plv.Store.{Store}

-- A name and its count.
abbrev pub CountItem : Type 0
CountItem = Text × ℕ

-- An empty value is not counted.
unfoldable pub count_up : Text → Map ℕ → Map ℕ
count_up k m = if is_empty k then m else insert k (lookup_or k 0 m + 1) m

text_less : Text → Text → Bool
text_less a b = elim (compare_text a b) [ less ↦ true | _ ↦ false ]

-- More first, equal counts by name.
unfoldable pub count_less : CountItem → CountItem → Bool
unfolding text_less
count_less (a, m) (b, n) = if m == n then text_less a b else ltb n m

unfoldable pub top_n : Map ℕ → ℕ → List CountItem
top_n counts n = take n (sort_stable count_less counts)

unfoldable pub sorted_hourly : Map ℕ → List CountItem
unfolding text_less
sorted_hourly counts = sort_stable (λ a b. text_less a.0 b.0) counts

unfoldable pub suggest_field : Text → Record → Text
suggest_field field r =
    if text_eq field (lit "from")
    then r.from
    else if text_eq field (lit "to")
    then r.to
    else if text_eq field (lit "subject")
    then r.subject
    else if text_eq field (lit "client")
    then r.client
    else if text_eq field (lit "relay")
    then r.relay
    else if elem field (lit "origin" ∷ lit "server" ∷ [])
    then r.origin
    else []

unfoldable pub suggest_counts : Text → Map ℕ → List Record → Map ℕ
suggest_counts field m [] = m
suggest_counts field m (r ∷ rs) =
    suggest_counts field (if r.subsumed then m else count_up (suggest_field field r) m) rs

-- A limit of 0 is none.
unfoldable pub suggest : Store → Text → ℕ → List Text
suggest s field limit =
    let items = map (λ e. e.0) (sort_stable count_less (suggest_counts field [] s.records)) in
    if ltb 0 limit && ltb limit (length items) then take limit items else items
