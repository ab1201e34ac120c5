-- ===== src/Search/Match.antt =====
-- recordMatches and its parts in store.go.
use plv.Prelude.{Bool, not, ◌&&◌, ◌||◌, [], ◌∷◌, ◌++◌, any}
use plv.Go.Text.{
  Text, lit, text_eq, is_empty, contains, to_lower, equal_fold, trim_space, fields, split_byte,
  join,
}
use plv.Go.Time.Format.{format_date_time}
use plv.Records.{Record, disposition_or_status}
use plv.Search.Params.{SearchParams}
use plv.Search.Row.{is_ndr}

-- Whether the origin is in a comma-separated list.
unfoldable pub server_selected : Text → Text → Bool
server_selected origin csv =
    any (λ part. let s = trim_space part in not (is_empty s) && equal_fold origin s)
      (split_byte b',' csv)

-- The text that terms are looked for in.
unfoldable pub search_blob : Record → Text
search_blob r =
    to_lower (
      join
        (r.origin ∷ r.queue_id ∷ r.from ∷ r.to ∷ r.subject ∷ r.message_id ∷ r.status
          ∷ r.status_detail ∷ r.relay ∷ r.client ∷ r.tls ∷ r.disposition ∷ r.scanner
          ∷ r.filter_action ∷ r.spam_score ∷ r.filter_rule ∷ r.filter_id ∷ r.delivery_queue_id ∷ [])
        (lit " "))
    ++ (lit " " ++ format_date_time r.timestamp)

unfoldable pub record_matches_search : Record → Text → Bool
record_matches_search r term =
    let blob = search_blob r in not (any (λ t. not (contains blob t)) (fields term))

-- An empty filter passes; another is looked for without regard to case.
unfoldable pub field_passes : Text → Text → Bool
field_passes value wanted = is_empty wanted || contains (to_lower value) (to_lower wanted)

unfoldable pub status_passes : Record → Text → Bool
status_passes r wanted =
    is_empty wanted || equal_fold (disposition_or_status r) wanted || equal_fold r.status wanted

unfoldable pub record_matches_advanced : Record → SearchParams → Bool
record_matches_advanced r p =
    field_passes r.from p.filter_from
    && field_passes r.to p.filter_to
    && field_passes r.subject p.filter_subject
    && field_passes r.client p.filter_client
    && field_passes r.relay p.filter_relay
    && status_passes r p.filter_status
    && field_passes r.queue_id p.filter_queue_id
    && not (text_eq p.filter_tls (lit "yes") && is_empty r.tls)
    && not (text_eq p.filter_tls (lit "no") && not (is_empty r.tls))
    && not (text_eq p.filter_ndr (lit "yes") && not (is_ndr r))

-- Some filter of the advanced form is set.
unfoldable pub has_advanced : SearchParams → Bool
has_advanced p = not (
    is_empty p.filter_from
    && is_empty p.filter_to
    && is_empty p.filter_subject
    && is_empty p.filter_client
    && is_empty p.filter_relay
    && is_empty p.filter_status
    && is_empty p.filter_queue_id
    && is_empty p.filter_tls
    && is_empty p.filter_ndr)

unfoldable pub record_matches : Record → SearchParams → Bool
record_matches r p =
    let term = to_lower p.search_term in
    (is_empty term || record_matches_search r term)
    && (is_empty p.filter_server || server_selected r.origin p.filter_server)
    && (not (has_advanced p) || record_matches_advanced r p)
