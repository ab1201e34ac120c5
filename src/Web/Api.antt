-- ===== src/Web/Api.antt =====
-- The handlers of handlers.go that read the store. A panic is none.
use plv.Prelude.{if◌then◌else◌, Option, none, some}
use plv.Go.Text.{Text, lit, is_empty}
use plv.Go.Time.{Env}
use plv.Go.Net.{Network}
use plv.Store.{Store, get_status}
use plv.Store.Confs.{server_confs}
use plv.Search.{search}
use plv.Detail.{get_detail}
use plv.Stats.{stats}
use plv.Stats.Top.{suggest}
use plv.Web.Identity.{
  Build, version_label, build_kind, kind_name, source_url, docs_url, source_title,
}
use plv.Web.Message.{Request, Response, Body, query_get, ok, error}
use plv.Web.Query.{records_params, stats_params}

unfoldable pub handle_records : Store → Request → Option Response
handle_records s r = elim (search s (records_params r)) [
  | none ↦ none
  | some result ↦ some (ok (Body.table result))
]

unfoldable pub handle_detail : Env → Store → Request → Option Response
handle_detail env s r =
    let qid = query_get r (lit "qid") in
    if is_empty qid
    then some (error 400 (lit "{\"error\":\"missing qid\"}"))
    else elim (get_detail env s (query_get r (lit "origin")) qid) [
      | none ↦ none
      | some found ↦ elim found [
        | none ↦ some (error 404 (lit "{\"error\":\"not found\"}"))
        | some d ↦ some (ok (Body.detail d))
      ]
    ]

unfoldable pub handle_stats : Store → Request → Response
handle_stats s r = ok (Body.cards (stats s (stats_params r)))

unfoldable pub handle_suggest : Store → Request → Response
handle_suggest s r = ok (Body.names (suggest s (query_get r (lit "field")) 800))

-- `configured` says whether the list has an entry.
unfoldable pub handle_server_conf : (Network → Text) → Store → Response
handle_server_conf show s = ok (Body.confs (server_confs show s))

unfoldable pub handle_version : Build → Response
handle_version b = ok (
    Body.build (version_label b) (kind_name (build_kind b)) (source_url b) (docs_url b)
      (source_title b))

unfoldable pub handle_status : Store → Response
handle_status s =
    let (ready, status, count) = get_status s in ok (Body.status ready status count s.has_origins)
