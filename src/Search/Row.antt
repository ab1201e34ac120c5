-- ===== src/Search/Row.antt =====
-- recordToRow, tooltipDetail, isNDR and formatSize of store.go.
use plv.Prelude.{
  ℕ, ◌+◌, ◌*◌, ◌/◌, ◌%◌, Bool, not, ◌&&◌, ◌==◌, ltb, if◌then◌else◌, List, [], ◌∷◌, ◌++◌, any,
}
use plv.Go.Text.{Text, lit, is_empty, contains, elem, join}
use plv.Go.Time.Format.{decimal, format_rfc3339}
use plv.Records.{Record, disposition_or_status}

abbrev pub scanner_outcomes : List Text
scanner_outcomes = lit "spam" ∷ lit "virus" ∷ lit "blocked" ∷ lit "rejected" ∷ lit "reject" ∷ []

unfoldable pub is_ndr : Record → Bool
is_ndr r =
    not (elem (disposition_or_status r) scanner_outcomes)
    && any (λ l. contains l (lit "from=<>")) r.raw_lines

-- Tenths of n / d, a tie to even: %.1f of a quotient that float64 holds exactly.
unfoldable pub tenths : ℕ → ℕ → ℕ
tenths n d =
    let q = 10 * n / d in
    let twice = 2 * (10 * n % d) in
    if ltb twice d then q else if ltb d twice then q + 1 else q + q % 2

unfoldable pub one_place : ℕ → Text
one_place t = decimal (t / 10) ++ (b'.' ∷ decimal (t % 10))

unfoldable pub format_size : ℕ → Text
format_size bytes =
    if bytes == 0
    then []
    else if ltb bytes 1024
    then decimal bytes ++ lit " B"
    else if ltb bytes (1024 * 1024)
    then one_place (tenths bytes 1024) ++ lit " KB"
    else one_place (tenths bytes (1024 * 1024)) ++ lit " MB"

-- A text as a list of at most one part.
abbrev part : Text → Text → List Text
part prefix t = if is_empty t then [] else (prefix ++ t) ∷ []

unfoldable pub status_parts : Record → List Text
status_parts r =
    if is_empty r.status
    then part [] r.status_detail
    else (r.status ++ (if is_empty r.status_detail then [] else lit " " ++ r.status_detail)) ∷ []

unfoldable pub tooltip_detail : Record → Text
tooltip_detail r =
    join (status_parts r ++ (part (lit "SA ") r.spam_score ++ part [] r.filter_rule))
      (b' ' ∷ 0xC2 ∷ 0xB7 ∷ b' ' ∷ [])

unfoldable pub format_stamp : ℕ → Text
format_stamp t = if t == 0 then [] else format_rfc3339 t

unfoldable pub record_to_row : Record → List Text
record_to_row r =
    format_stamp r.timestamp
    ∷ r.queue_id
    ∷ r.from
    ∷ r.to
    ∷ format_size r.size
    ∷ disposition_or_status r
    ∷ tooltip_detail r
    ∷ r.relay
    ∷ r.client
    ∷ r.message_id
    ∷ r.subject
    ∷ r.tls
    ∷ r.origin
    ∷ []
