-- ===== src/Tests/Webs.antt =====
-- The web server at small requests.
use plv.Prelude.{
  pos, negsuc, ◌≡◌, ◌≤◌, refl, true, false, [], ◌∷◌, none, some, length, take, drop, map, arith,
  inl, List,
}
use plv.Go.Text.{lit, text_eq}
use plv.Go.Map.{lookup, lookup_or}
use plv.Go.Regexp.{is_digit}
use plv.Go.Time.{Time}
use plv.Go.Strconv.{atoi, digits_value, signed, unsigned_part}
use plv.Search.{SearchResult, ordered, mid_origins, table_row}
use plv.Web.{Site, Outside, serve, is_guarded, has_session}
use plv.Web.Session.{is_valid}
use plv.Web.Session.History.{Event, Deadlines, Implements, IsOrdered, run, spec_run, run-Implements}
use plv.Web.Message.{Request, Body, ok, query_get}
use plv.Web.Query.{records_params}
use plv.Web.Api.{handle_records}
use plv.Web.Guard.{Blind, IsEarned, serve-Blind, serve-IsEarned}
use plv.Web.Tables.{handle_records-page, handle_records_panics}
use plv.Tests.Samples.{env, two_rows}

abbrev pub outside : Outside
outside = record {
  env = env;
  random = 1 ∷ 171 ∷ [];
  compare_hash = λ h p. true;
  web_file = λ name. none;
  show = λ n. [];
  build = record { git_sha = []; release_build = [] };
}

abbrev pub guarded_site : Site
guarded_site = record {
  auth = some (record { enabled = true; username = lit "admin"; password_hash = lit "h" });
  sessions = (lit "01ab", 5) ∷ [];
  store = two_rows;
}

-- Its session ran out long ago.
abbrev pub late_request : Request
late_request = record {
  method = lit "GET";
  path = lit "/api/records";
  session = some (lit "01ab");
  over_tls = true;
  forwarded_proto = [];
  query = (lit "start", lit "1") ∷ (lit "length", lit "900") ∷ [];
  form = [];
}

pub late_request_session : has_session outside guarded_site late_request ≡ false
unfolding has_session is_valid lookup text_eq lit
late_request_session = refl

pub late_site_guarded : is_guarded guarded_site.auth ≡ true
unfolding is_guarded
late_site_guarded = refl

serve-Blind_example : Blind outside guarded_site late_request
serve-Blind_example =
    serve-Blind outside guarded_site late_request late_site_guarded late_request_session

serve-IsEarned_example :
    IsEarned outside guarded_site late_request (serve outside guarded_site late_request)
serve-IsEarned_example = serve-IsEarned outside guarded_site late_request

-- A login, a sweep and a logout.
abbrev day : List (Time × Event)
day = (10, Event.login (1 ∷ [])) ∷ (20, Event.sweep) ∷ (30, Event.logout (lit "02")) ∷ []

abbrev never : Deadlines
never token = none

nothing_yet : Implements 0 [] never
unfolding is_valid lookup
nothing_yet = (tt, λ t token h. refl)

in_order : IsOrdered 0 day 40
in_order = ground arith

run-Implements_example : Implements 40 (run day []) (spec_run day never)
run-Implements_example = run-Implements 0 40 day [] never in_order nothing_yet

late_start : (atoi (query_get late_request (lit "start"))).0 ≡ pos 1
unfolding query_get lookup_or lookup text_eq lit atoi digits_value is_digit signed unsigned_part
late_start = refl

handle_records-page_example :
    (res : SearchResult) × (handle_records two_rows late_request ≡ some (ok (Body.table res)))
    × (res.rows
        ≡ map (table_row two_rows (mid_origins [] two_rows.records)) (
            take
              (records_params late_request).page_length
              (drop 1 (ordered two_rows (records_params late_request)))))
    × (length res.rows ≤ 500)
handle_records-page_example = handle_records-page two_rows late_request 1 late_start (omega arith)

abbrev before_start : Request
before_start = record late_request { query = (lit "start", lit "-1") ∷ [] }

negative_start : (atoi (query_get before_start (lit "start"))).0 ≡ negsuc 0
unfolding query_get lookup_or lookup text_eq lit atoi digits_value is_digit signed unsigned_part
negative_start = refl

handle_records_panics_example : handle_records two_rows before_start ≡ none
handle_records_panics_example = handle_records_panics two_rows before_start 0 (inl negative_start)
