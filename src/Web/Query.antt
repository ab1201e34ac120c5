-- ===== src/Web/Query.antt =====
-- The parameters that handleRecords and handleStats of handlers.go read from a query.
use plv.Prelude.{ℕ, ℤ, pos, negsuc, ltb, ◌==◌, if◌then◌else◌, ◌++◌, [], ◌∷◌}
use plv.Go.Text.{Text, lit, text_eq, is_empty, elem}
use plv.Go.Strconv.{atoi, itoa}
use plv.Search.Params.{SearchParams, no_params}
use plv.Web.Message.{Request, query_get}

-- 25 rows unless a positive number is asked for, and 500 at most.
unfoldable pub clamp_length : ℤ → ℕ
clamp_length (negsuc n) = 25
clamp_length (pos n) = if n == 0 then 25 else if ltb 500 n then 500 else n

-- The column of the data behind a column of the display.
unfoldable pub order_column : Request → ℤ
order_column r =
    let display = (atoi (query_get r (lit "order[0][column]"))).0 in
    let d = query_get r (lit "columns[" ++ (itoa display ++ lit "][data]")) in
    let (n, good) = atoi d in if is_empty d then display else if good then n else display

unfoldable pub order_direction : Text → Text
order_direction d = if elem d (lit "asc" ∷ lit "desc" ∷ []) then d else lit "desc"

-- The filters of the form, which both handlers read.
unfoldable pub filters : Request → SearchParams
filters r = record no_params {
  filter_from = query_get r (lit "f_from");
  filter_to = query_get r (lit "f_to");
  filter_subject = query_get r (lit "f_subject");
  filter_client = query_get r (lit "f_client");
  filter_relay = query_get r (lit "f_relay");
  filter_status = query_get r (lit "f_status");
  filter_queue_id = query_get r (lit "f_qid");
  filter_tls = query_get r (lit "f_tls");
  filter_ndr = query_get r (lit "f_ndr");
  filter_server = query_get r (lit "f_server");
  filter_direction = query_get r (lit "f_direction");
}

unfoldable pub records_params : Request → SearchParams
records_params r = record (filters r) {
  draw = (atoi (query_get r (lit "draw"))).0;
  start = (atoi (query_get r (lit "start"))).0;
  page_length = clamp_length (atoi (query_get r (lit "length"))).0;
  search_term = query_get r (lit "search[value]");
  order_col = order_column r;
  order_dir = order_direction (query_get r (lit "order[0][dir]"));
  group = text_eq (query_get r (lit "group")) (lit "1");
}

unfoldable pub stats_params : Request → SearchParams
stats_params r = record (filters r) { search_term = query_get r (lit "search"); page_length = 0 }
