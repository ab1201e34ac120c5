-- ===== src/Search/Order.antt =====
-- The order of the table: compareByColumn, and the clustering of groups in Search of store.go.
use plv.Prelude.{
  ℤ, pos, negsuc, ℕ, suc, Bool, true, false, ◌==◌, ltb, if◌then◌else◌, List, [], ◌∷◌, ◌++◌, none,
  some,
}
use plv.Go.Text.{Text, lit, text_eq, is_empty, to_lower, compare_text, Cmp, less, equal, greater}
use plv.Go.Map.{Map, lookup, lookup_or, insert}
use plv.Go.Sort.{sort_stable}
use plv.Records.{Record, disposition_or_status}
use plv.Store.{rec_key}
use plv.Search.Params.{SearchParams}

unfoldable pub compare_nat : ℕ → ℕ → Cmp
compare_nat a b = if ltb a b then less else if ltb b a then greater else equal

unfoldable pub compare_fold : Text → Text → Cmp
compare_fold a b = compare_text (to_lower a) (to_lower b)

unfoldable pub compare_by_column : Record → Record → ℕ → Cmp
compare_by_column a b col =
    if col == 0
    then compare_nat a.timestamp b.timestamp
    else if col == 1
    then compare_text a.queue_id b.queue_id
    else if col == 2
    then compare_fold a.from b.from
    else if col == 3
    then compare_fold a.to b.to
    else if col == 4
    then compare_nat a.size b.size
    else if col == 5
    then compare_text (disposition_or_status a) (disposition_or_status b)
    else if col == 7
    then compare_text a.relay b.relay
    else if col == 8
    then compare_fold a.client b.client
    else if col == 10
    then compare_fold a.subject b.subject
    else if col == 12
    then compare_fold a.origin b.origin
    else equal

-- Column 16 is the direction, which is no field.
unfoldable pub compare_rows : (Record → Text) → ℕ → Record → Record → Cmp
compare_rows direction col a b =
    if col == 16 then compare_text (direction a) (direction b) else compare_by_column a b col

-- A negative column is no column, like 17.
unfoldable pub column_of : ℤ → ℕ
column_of (pos n) = n
column_of (negsuc n) = 17

is_less : Cmp → Bool
is_less less = true
is_less c = false

is_greater : Cmp → Bool
is_greater greater = true
is_greater c = false

unfoldable pub row_less : (Record → Text) → SearchParams → Record → Record → Bool
unfolding is_less is_greater
row_less direction p a b =
    let c = compare_rows direction (column_of p.order_col) a b in
    if text_eq p.order_dir (lit "desc") then is_greater c else is_less c

unfoldable pub sort_rows : (Record → Text) → SearchParams → List Record → List Record
sort_rows direction p rows = sort_stable (row_less direction p) rows

-- Rows of one group share their Message-ID; a row without one is a group of its own.
unfoldable pub group_key : Record → Text
group_key r =
    if is_empty r.message_id
    then lit "q:" ++ rec_key r.origin r.queue_id
    else lit "m:" ++ r.message_id

-- The position of each group's first row; i is the position of the first row of the list.
unfoldable pub ranks : ℕ → Map ℕ → List Record → Map ℕ
ranks i m [] = m
ranks i m (r ∷ rs) =
    ranks (suc i) (elim (lookup (group_key r) m) [ none ↦ insert (group_key r) i m | some j ↦ m ])
      rs

unfoldable pub rank_less : Map ℕ → Record → Record → Bool
rank_less m a b = ltb (lookup_or (group_key a) 0 m) (lookup_or (group_key b) 0 m)

unfoldable pub cluster : List Record → List Record
cluster rows = sort_stable (rank_less (ranks 0 [] rows)) rows
