-- ===== src/Web/Tables.antt =====
-- What the table of handlers.go shows for the parameters of a query.
use plv.Prelude.{
  length-take, length-map, [], ℕ, ℤ, pos, negsuc, ◌≡◌, ◌⊎◌, inl, inr, ◌+◌, ◌^◌, ◌≤◌, ◌<◌, refl,
  none, some, arith, length, take, drop, map,
}
use plv.Go.Text.{lit}
use plv.Go.Strconv.{atoi}
use plv.Store.{Store}
use plv.Search.{SearchResult, ordered, mid_origins, table_row}
use plv.Search.Paging.{search-page, search_panics}
use plv.Web.Message.{Request, Body, ok, query_get}
use plv.Web.Query.{clamp_length, records_params}
use plv.Web.Api.{handle_records}

-- The number of rows asked for, whatever the query says, is from 1 to 500.
pub clamp_length-le : (z : ℤ) → (1 ≤ clamp_length z) × (clamp_length z ≤ 500)
unfolding clamp_length
clamp_length-le (negsuc n) = (ground arith, ground arith)
clamp_length-le (pos n) = (ground arith, ground arith)

-- Where the start of a query is a number from 0 to 2^63 - 501, the handler of the table answers with
-- status 200: the rows of the table from that start, as many as the query asks for after the handler
-- has corrected the number, and at most 500.
pub handle_records-page :
    (s : Store) (r : Request) (n : ℕ)
    → (atoi (query_get r (lit "start"))).0 ≡ pos n
    → n + 500 < 2 ^ 63
    → (res : SearchResult) × (handle_records s r ≡ some (ok (Body.table res)))
      × (res.rows
          ≡ map
              (table_row s (mid_origins [] s.records))
              (take (records_params r).page_length (drop n (ordered s (records_params r)))))
      × (length res.rows ≤ 500)
unfolding handle_records records_params
handle_records-page s r n e h =
    let p = records_params r in
    let most = clamp_length-le (atoi (query_get r (lit "length"))).0 in
    let (res, found, rows, count, most_rows) = search-page s p n e (omega (arith, most)) in
    let shown = take p.page_length (drop n (ordered s p)) in
    (
      res,
      rw (handle_records, found) refl,
      rows,
      rw rows (
          omega (
            arith,
            most,
            length-map (table_row s (mid_origins [] s.records)) shown,
            length-take p.page_length (drop n (ordered s p)),
          )),
    )

-- A negative start, and a start above 2^63 - 2, with any valid length, make the handler of the table
-- panic on every store.
pub handle_records_panics :
    (s : Store) (r : Request) (n : ℕ)
    → ((atoi (query_get r (lit "start"))).0 ≡ negsuc n)
      ⊎ (((atoi (query_get r (lit "start"))).0 ≡ pos n) × (2 ^ 63 ≤ n + 1))
    → handle_records s r ≡ none
unfolding handle_records records_params
handle_records_panics s r n (inl e) =
    rw (handle_records, search_panics s (records_params r) n (inl e)) refl
handle_records_panics s r n (inr (e, h)) =
    let most = clamp_length-le (atoi (query_get r (lit "length"))).0 in
    rw (handle_records, search_panics s (records_params r) n (inr (e, omega (arith, most)))) refl
