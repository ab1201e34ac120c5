-- ===== src/Detail.antt =====
-- GetDetail of store.go: one message with its lines and its related messages. A read past the end of
-- the records, which panics in Go, is none; a nil detail is `some none`.
pub mod Pairs
pub mod Found
use plv.Prelude.{
  ℕ, ◌*◌, ◌+◌, ◌-◌, Bool, true, not, ◌&&◌, ◌||◌, ◌==◌, ltb, leb, if◌then◌else◌, List, [], ◌∷◌, ◌++◌,
  map, Option, none, some, length, get_elem?, keep,
}
use plv.Go.Text.{Text, lit, text_eq, is_empty, contains, has_suffix, equal_fold, fields, join}
use plv.Go.Map.{lookup}
use plv.Go.Regexp.{sub}
use plv.Go.Time.{Env, Time, Zone, utc, distance, minute}
use plv.Go.Time.Parse.{◌>>=◌, parse_rfc3339_parts}
use plv.Records.{Record, disposition_or_status, is_noqueue_reject}
use plv.Parser.Patterns.{re_timestamp}
use plv.Parser.Extract.{on_match, extract_timestamp}
use plv.Rspamd.{extract_rspamd_time_in}
use plv.Store.{Store, rec_key}
use plv.Direction.Resolver.{detail_direction}
use plv.Search.Row.{format_stamp, format_size, is_ndr}

-- A zone of one offset from UTC.
fixed_zone : Bool → ℕ → Zone
fixed_zone east off = record {
  instant = λ w. if east then w - off else w + off;
  wall = λ t. if east then t + off else t - off;
}

-- The location that time.Parse gives a stamp: UTC for Z, the local zone if it has that offset then.
unfoldable pub stamp_zone : Env → Text → Option Zone
unfolding fixed_zone
stamp_zone env s = do
  (w, east, off) ← parse_rfc3339_parts s
  let zone = fixed_zone east off
  if has_suffix s (lit "Z")
      then some utc
      else if env.local.wall (zone.instant w) == w
      then some env.local
      else some zone

unfoldable pub log_line_location : Env → Text → Option Zone
log_line_location env text = on_match re_timestamp text none (λ m. stamp_zone env (sub m 1))

-- The zone of the first line that has one, else the local zone.
unfoldable pub log_location : Env → List Text → Zone
log_location env [] = env.local
log_location env (l ∷ ls) =
    let rest = log_location env ls in elim (log_line_location env l) [ none ↦ rest | some z ↦ z ]

pub record LogLine : Type 0 where
  pub timestamp : Text
  pub raw : Text

unfoldable pub line_time : Env → Zone → Text → Time
line_time env zone l =
    let t = extract_timestamp env l in if t == 0 then extract_rspamd_time_in zone l else t

unfoldable pub log_line : Env → Zone → Text → LogLine
log_line env zone l = record { timestamp = format_stamp (line_time env zone l); raw = l }

pub record RelatedItem : Type 0 where
  pub origin : Text
  pub queue_id : Text
  pub from : Text
  pub to : Text
  pub subject : Text
  pub disposition : Text
  pub timestamp : Text

unfoldable pub related_item : Record → RelatedItem
related_item o = record {
  origin = o.origin;
  queue_id = o.queue_id;
  from = o.from;
  to = o.to;
  subject = o.subject;
  disposition = disposition_or_status o;
  timestamp = format_stamp o.timestamp;
}

unfoldable pub is_self : Record → Record → Bool
is_self r o = text_eq o.origin r.origin && text_eq o.queue_id r.queue_id

-- Another visible leg of the same Message-ID.
unfoldable pub is_other_leg : Record → Record → Bool
is_other_leg r o = not o.subsumed && text_eq o.message_id r.message_id && not (is_self r o)

unfoldable pub reject_embeds : Text → Text → Bool
reject_embeds a b =
    let swapped = ltb (length a) (length b) in
    let long = if swapped then b else a in
    let short = if swapped then a else b in
    leb 25 (length short) && contains short (lit "<") && contains long short

unfoldable pub within_window : Time → Time → ℕ → Bool
within_window a b d = a == 0 || b == 0 || leb (distance a b) d

-- The words of a detail with one space between.
unfoldable pub squeeze : Text → Text
squeeze t = join (fields t) (lit " ")

-- Two different details, one of which has the other inside.
unfoldable pub details_pair : Text → Text → Bool
details_pair a b = not (text_eq a b) && reject_embeds a b

unfoldable pub is_open_reject : Record → Bool
is_open_reject r = is_noqueue_reject r && not (is_empty r.status_detail)

unfoldable pub same_recipient : Record → Record → Bool
same_recipient r o = is_empty r.to || is_empty o.to || equal_fold r.to o.to

-- The tests on another reject, apart from the one whether it is subsumed.
unfoldable pub is_paired : Record → Record → Bool
is_paired r o =
    not (is_self r o)
    && is_open_reject o
    && same_recipient r o
    && within_window r.timestamp o.timestamp (15 * minute)
    && details_pair (squeeze r.status_detail) (squeeze o.status_detail)

-- Whether the detail of a rejection shows another one.
unfoldable pub shows_reject : Record → Record → Bool
shows_reject r o = is_open_reject r && not o.subsumed && is_paired r o

unfoldable pub related_legs : Store → Record → List Record
related_legs s r = if is_empty r.message_id then [] else keep (is_other_leg r) s.records

unfoldable pub related_rejects : Store → Record → List Record
related_rejects s r = keep (shows_reject r) s.records

pub record RecordDetail : Type 0 where
  pub timestamp : Text
  pub origin : Text
  pub queue_id : Text
  pub from : Text
  pub to : Text
  pub subject : Text
  pub size : Text
  pub size_bytes : ℕ
  pub message_id : Text
  pub status : Text
  pub status_detail : Text
  pub relay : Text
  pub client : Text
  pub tls : Text
  pub disposition : Text
  pub scanner : Text
  pub filter_action : Text
  pub spam_score : Text
  pub filter_rule : Text
  pub filter_id : Text
  pub delivery_queue_id : Text
  pub direction : Text
  pub ndr : Bool
  pub related : List RelatedItem
  pub lines : List LogLine

unfoldable pub detail_of : Env → Store → Record → RecordDetail
detail_of env s r = record {
  timestamp = format_stamp r.timestamp;
  origin = r.origin;
  queue_id = r.queue_id;
  from = r.from;
  to = r.to;
  subject = r.subject;
  size = format_size r.size;
  size_bytes = r.size;
  message_id = r.message_id;
  status = r.status;
  status_detail = r.status_detail;
  relay = r.relay;
  client = r.client;
  tls = r.tls;
  disposition = disposition_or_status r;
  scanner = r.scanner;
  filter_action = r.filter_action;
  spam_score = r.spam_score;
  filter_rule = r.filter_rule;
  filter_id = r.filter_id;
  delivery_queue_id = r.delivery_queue_id;
  direction = detail_direction s r;
  ndr = is_ndr r;
  related = map related_item (related_legs s r ++ related_rejects s r);
  lines = map (log_line env (log_location env r.raw_lines)) r.raw_lines;
}

unfoldable pub get_detail : Env → Store → Text → Text → Option (Option RecordDetail)
get_detail env s origin queue_id = elim (lookup (rec_key origin queue_id) s.by_queue_id) [
  | none ↦ some none
  | some i ↦ elim (get_elem? s.records i) [ none ↦ none | some r ↦ some (some (detail_of env s r)) ]
]
