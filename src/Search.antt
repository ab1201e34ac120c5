-- ===== src/Search.antt =====
-- Search of store.go: the table's rows. A slice out of range, which panics in Go, is none.
pub mod Params
pub mod Match
pub mod Row
pub mod Order
pub mod Page
pub mod Paging
use plv.Prelude.{
  ℤ, ℕ, suc, ◌-◌, Bool, true, false, not, ◌&&◌, ◌||◌, ◌==◌, ltb, if◌then◌else◌, List, [], ◌∷◌, ◌++◌,
  map, Option, none, some, length, keep, get_elem?,
}
use plv.Go.Text.{Text, lit, text_eq, is_empty, equal_fold, elem}
use plv.Go.Map.{Map, lookup_or, insert}
use mathlib.Core.Option
use plv.Records.{Record}
use plv.Store.{Store}
use plv.Direction.Resolver.{direction_resolver}
use plv.Search.Params.{SearchParams}
use plv.Search.Match.{record_matches}
use plv.Search.Row.{is_ndr, record_to_row}
use plv.Search.Order.{group_key, sort_rows, cluster}
use plv.Search.Page.{bounds, slice}

pub record SearchResult : Type 0 where
  pub draw : ℤ
  pub records_total : ℕ
  pub records_filtered : ℕ
  pub rows : List (List Text)
  pub continues_above : Bool
  pub continues_below : Bool

abbrev pub visible : Store → List Record
visible s = keep (λ r. not r.subsumed) s.records

-- A row passes the filters, that on the direction included.
unfoldable pub passes : (Record → Text) → SearchParams → Record → Bool
passes direction p r =
    record_matches r p
    && (is_empty p.filter_direction || equal_fold (direction r) p.filter_direction)

unfoldable pub filtered : Store → SearchParams → List Record
filtered s p = keep (passes (direction_resolver s) p) (visible s)

-- The rows in the order of the table.
unfoldable pub ordered : Store → SearchParams → List Record
ordered s p =
    let rows = sort_rows (direction_resolver s) p (filtered s p) in
    if p.group then cluster rows else rows

add_origin : Text → List Text → List Text
add_origin o os = if elem o os then os else o ∷ os

-- The origins under which each Message-ID appears.
unfoldable pub mid_origins : Map (List Text) → List Record → Map (List Text)
unfolding add_origin
mid_origins m [] = m
mid_origins m (r ∷ rs) =
    mid_origins
      (if r.subsumed || is_empty r.message_id
        then m
        else insert r.message_id (add_origin r.origin (lookup_or r.message_id [] m)) m)
      rs

abbrev flag : Bool → Text
flag b = if b then lit "1" else []

unfoldable pub table_row : Store → Map (List Text) → Record → List Text
table_row s origins r =
    record_to_row r
    ++ (flag (not (is_empty r.message_id) && ltb 1 (length (lookup_or r.message_id [] origins)))
        ∷ flag (is_ndr r)
        ∷ group_key r
        ∷ direction_resolver s r
        ∷ [])

-- Whether the rows at two positions are of one group.
same_group : List Record → ℕ → ℕ → Bool
same_group rows i j = elim (get_elem? rows i) [
  | none ↦ false
  | some a ↦ elim (get_elem? rows j) [ none ↦ false | some b ↦ text_eq (group_key a) (group_key b) ]
]

-- The answer for the rows from start to end, once these are in range.
unfoldable pub result_at : Store → SearchParams → ℕ × ℕ → SearchResult
unfolding same_group
result_at s p (start, end) =
    let rows = ordered s p in
    let total = length rows in
    let edges = p.group && ltb start end in
    record {
      draw = p.draw;
      records_total = length (visible s);
      records_filtered = total;
      rows = map (table_row s (mid_origins [] s.records)) (slice start end rows);
      continues_above = edges && ltb 0 start && same_group rows (start - 1) start;
      continues_below = edges && ltb end total && same_group rows end (end - 1);
    }

unfoldable pub search : Store → SearchParams → Option SearchResult
search s p = Option.map (result_at s p) (bounds p.start p.page_length (length (ordered s p)))
