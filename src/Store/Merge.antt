-- ===== src/Store/Merge.antt =====
-- mergeDeliveryLeg and mergeRecord of store.go.
use plv.Prelude.{◌||◌, not, ◌==◌, if◌then◌else◌, List, ◌++◌, keep}
use plv.Go.Text.{Text, lit, is_empty, elem, join}
use plv.Go.Time.{Env}
use plv.Records.{Record}
use plv.Parser.Extract.{extract_status}
use plv.Parser.Disposition.{derive_disposition, is_status_disposition}
use plv.Parser.Verdict.{sort_raw_by_time, is_none}

-- Keeps a text that is there.
abbrev pub fill : Text → Text → Text
fill dst src = if is_empty dst then src else dst

unfoldable pub merged_lines : Env → Record → Record → List Text
merged_lines env primary leg =
    if is_none leg.raw_lines
    then primary.raw_lines
    else sort_raw_by_time env (primary.raw_lines ++ leg.raw_lines)

unfoldable pub merge_delivery_leg : Env → Record → Record → Record
merge_delivery_leg env primary leg = record primary {
  delivery_queue_id = leg.queue_id;
  relay = fill leg.relay primary.relay;
  status = fill leg.status primary.status;
  status_detail = if is_empty leg.status then primary.status_detail else leg.status_detail;
  disposition = if is_empty leg.status then primary.disposition else derive_disposition leg;
  message_id = fill primary.message_id leg.message_id;
  subject = fill primary.subject leg.subject;
  from = fill primary.from leg.from;
  to = fill primary.to leg.to;
  raw_lines = merged_lines env primary leg;
}

-- The lines of `src` that `dst` did not have follow.
unfoldable pub merge_lines : List Text → List Text → List Text
merge_lines dst src = dst ++ keep (λ l. not (elem l dst)) src

-- The empty fields and the lines.
unfoldable pub fill_fields : Record → Record → Record
fill_fields dst src = record dst {
  timestamp = if dst.timestamp == 0 then src.timestamp else dst.timestamp;
  from = fill dst.from src.from;
  to = fill dst.to src.to;
  subject = fill dst.subject src.subject;
  size = if dst.size == 0 then src.size else dst.size;
  message_id = fill dst.message_id src.message_id;
  relay = fill dst.relay src.relay;
  client = fill dst.client src.client;
  tls = fill dst.tls src.tls;
  scanner = fill dst.scanner src.scanner;
  filter_action = fill dst.filter_action src.filter_action;
  spam_score = fill dst.spam_score src.spam_score;
  filter_rule = fill dst.filter_rule src.filter_rule;
  filter_id = fill dst.filter_id src.filter_id;
  delivery_queue_id = fill dst.delivery_queue_id src.delivery_queue_id;
  raw_lines = merge_lines dst.raw_lines src.raw_lines;
}

-- The status of the merged lines, else the one there was, else that of `src`.
unfoldable pub refresh_status : Record → Record → Record
refresh_status dst src =
    let (code, detail) = extract_status (join dst.raw_lines (lit " ")) in
    record dst {
      status = if is_empty code then fill dst.status src.status else code;
      status_detail =
          if is_empty code
          then (if is_empty dst.status then src.status_detail else dst.status_detail)
          else detail;
    }

-- A disposition that came from the status follows it; one of a scanner stays.
unfoldable pub refresh_disposition : Record → Record → Record
refresh_disposition dst src =
    let d = derive_disposition dst in
    if is_empty dst.disposition || is_status_disposition dst.disposition
    then record dst { disposition = if is_empty d then fill dst.disposition src.disposition else d }
    else dst

unfoldable pub merge_record : Record → Record → Record
merge_record dst src = refresh_disposition (refresh_status (fill_fields dst src) src) src
