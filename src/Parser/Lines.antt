-- ===== src/Parser/Lines.antt =====
-- parseLines of parser.go. The map of groups keeps the order in which queue ids were first seen,
-- which is the order that the source sorts by.
use plv.Prelude.{◌&&◌, not, if◌then◌else◌, List, [], ◌∷◌, ◌++◌, map, Option, none, some}
use plv.Go.Text.{Text, lit, is_empty, contains, join}
use plv.Go.Map.{Map, lookup, lookup_or, insert}
use plv.Go.Regexp.{find, matches, sub}
use plv.Go.Time.{Env}
use plv.Records.{Record, blank}
use plv.Parser.Patterns.{queue_id_re}
use plv.Parser.Extract.{
  extract_timestamp, extract_to, extract_from, extract_subject, extract_size, extract_message_id,
  extract_status, extract_relay, extract_client, extract_connect, extract_orig_client, extract_tls,
}
use plv.Parser.Disposition.{derive_disposition}
use plv.Parser.Verdict.{
  FilterVerdict, no_verdict, parse_filter_line, merge_verdict, nested_filter_id,
  enrich_from_verdict,
}
use plv.Parser.NoQueue.{parse_noqueue_reject, bracket}

-- The accumulators of the first pass; an empty line means that none is pending.
pub record Pass : Type 0 where
  pub groups : Map (List Text)
  pub pending_connect : Text
  pub pending_tls : Text
  pub verdicts : Map FilterVerdict
  pub noqueue : List Record

abbrev pub start : Pass
start = record { groups = []; pending_connect = []; pending_tls = []; verdicts = []; noqueue = [] }

abbrev pub pending_line : Text → List Text
pending_line l = if is_empty l then [] else l ∷ []

-- What a line is, in the order of the tests.
pub data Kind : Type 0 where
  connect : Kind
  tls : Kind
  verdict : Text → FilterVerdict → Kind
  noqueue : Option Record → Kind
  other : Kind
  queued : Text → Kind

unfoldable pub queue_id : Text → Option Text
queue_id line = elim (find queue_id_re line) [ none ↦ none | some m ↦ some (sub m 1) ]

queued_kind : Option Text → Kind
queued_kind none = other
queued_kind (some qid) = queued qid

unfoldable pub kind_of : Env → Text → Kind
unfolding queued_kind
kind_of env line =
    if contains line (lit "connect from ") && not (matches queue_id_re line)
    then connect
    else if contains line (lit "Trusted TLS connection established")
        && not (matches queue_id_re line)
    then tls
    else elim (parse_filter_line line) [
      | some (fid, v) ↦ verdict fid v
      | none ↦
          if contains line (lit "NOQUEUE: reject:")
          then noqueue (parse_noqueue_reject env line)
          else queued_kind (queue_id line)
    ]

-- A line of a queue id: a pending connection opens a new group, a pending TLS line joins any.
unfoldable pub queue_line : Pass → Text → Text → Pass
queue_line p qid line = elim (lookup qid p.groups) [
  | none ↦ record p {
    groups =
        insert qid (pending_line p.pending_connect ++ (pending_line p.pending_tls ++ line ∷ []))
          p.groups;
    pending_connect = [];
    pending_tls = [];
  }
  | some ls ↦ record p {
    groups = insert qid (ls ++ (pending_line p.pending_tls ++ line ∷ [])) p.groups;
    pending_tls = [];
  }
]

unfoldable pub take_line : Pass → Text → Kind → Pass
take_line p line connect = record p { pending_connect = line }
take_line p line tls = record p { pending_tls = line }
take_line p line (verdict fid v) = record p {
  verdicts = insert fid (merge_verdict (lookup_or fid no_verdict p.verdicts) v) p.verdicts;
}
take_line p line (noqueue none) = p
take_line p line (noqueue (some rec)) = record p { noqueue = p.noqueue ++ rec ∷ [] }
take_line p line other = p
take_line p line (queued qid) = queue_line p qid line

unfoldable pub first_pass : Env → Pass → List Text → Pass
first_pass env p [] = p
first_pass env p (line ∷ lines) = first_pass env (take_line p line (kind_of env line)) lines

unfoldable pub endpoint : Text → Text → Text → Text
endpoint host ip port =
    if is_empty host && is_empty ip then [] else bracket host ip ++ (lit ":" ++ port)

-- The connecting host, or the client, or the origin of a message that a filter re-injected.
unfoldable pub client_of : Text → Text
client_of blob =
    let (oh, oi) = extract_orig_client blob in
    let (ch, ci) = extract_client blob in
    let (nh, ni) = extract_connect blob in
    if not (is_empty oh && is_empty oi)
    then bracket oh oi
    else if is_empty ch && is_empty ci
    then bracket nh ni
    else bracket ch ci

-- The record of a group before a verdict is correlated.
unfoldable pub group_record : Env → (Text → Option Text) → Text → List Text → Record
group_record env decode qid lines =
    let blob = join lines (lit " ") in
    let (code, detail) = extract_status blob in
    let (relay_host, relay_ip, relay_port) = extract_relay blob in
    let (tls_host, tls_ip, tls_port) = extract_tls blob in
    record blank {
      timestamp = elim lines [ [] ↦ 0 | l ∷ ls ↦ extract_timestamp env l ];
      queue_id = qid;
      from = extract_from blob;
      to = extract_to blob;
      subject = extract_subject decode blob;
      size = extract_size blob;
      message_id = extract_message_id blob;
      status = code;
      status_detail = detail;
      relay = endpoint relay_host relay_ip relay_port;
      client = client_of blob;
      tls = endpoint tls_host tls_ip tls_port;
      raw_lines = lines;
    }

-- A verdict for the session that the lines name is applied.
unfoldable pub correlate : Env → Map FilterVerdict → Text → Record → Record
correlate env verdicts blob rec =
    let fid = nested_filter_id blob in
    if is_empty fid
    then rec
    else elim (lookup fid verdicts) [ none ↦ rec | some v ↦ enrich_from_verdict env rec v ]

unfoldable pub finish_group :
    Env → (Text → Option Text) → Map FilterVerdict → Text × List Text → Record
finish_group env decode verdicts (qid, lines) =
    let rec = correlate env verdicts (join lines (lit " ")) (group_record env decode qid lines) in
    if is_empty rec.disposition then record rec { disposition = derive_disposition rec } else rec

unfoldable pub parse_lines : Env → (Text → Option Text) → List Text → List Record
parse_lines env decode lines =
    let p = first_pass env start lines in
    map (finish_group env decode p.verdicts) p.groups ++ p.noqueue
