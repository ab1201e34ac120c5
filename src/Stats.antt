-- ===== src/Stats.antt =====
-- Stats, Suggest, topN and sortedHourly of store.go.
pub mod Top
pub mod Tally
use plv.Prelude.{
  ℕ, suc, ◌+◌, Bool, true, false, not, ◌&&◌, ◌||◌, ◌==◌, ltb, if◌then◌else◌, List, [], ◌∷◌, keep,
}
use plv.Go.Text.{Text, lit, text_eq, is_empty, elem, equal_fold}
use plv.Go.Map.{Map, insert, lookup_or}
use plv.Go.Time.{Time}
use plv.Go.Time.Format.{format_date_hour}
use plv.Records.{Record, disposition_or_status}
use plv.Store.{Store}
use plv.Direction.Resolver.{direction_resolver}
use plv.Search.{visible}
use plv.Search.Params.{SearchParams}
use plv.Search.Match.{record_matches}
use plv.Search.Row.{is_ndr, format_stamp}
use plv.Stats.Top.{CountItem, count_up, top_n, sorted_hourly}

-- The counters of StatsResult and the loop's maps.
pub record Tallies : Type 0 where
  pub total : ℕ
  pub sent : ℕ
  pub spam : ℕ
  pub blocked : ℕ
  pub rejected : ℕ
  pub bounced : ℕ
  pub deferred : ℕ
  pub ndr : ℕ
  pub other : ℕ
  pub inbound : ℕ
  pub outbound : ℕ
  pub internal : ℕ
  pub relayed : ℕ
  pub senders : Map ℕ
  pub recipients : Map ℕ
  pub hourly : Map ℕ
  pub earliest : Time

abbrev pub no_tallies : Tallies
no_tallies = record {
  total = 0;
  sent = 0;
  spam = 0;
  blocked = 0;
  rejected = 0;
  bounced = 0;
  deferred = 0;
  ndr = 0;
  other = 0;
  inbound = 0;
  outbound = 0;
  internal = 0;
  relayed = 0;
  senders = [];
  recipients = [];
  hourly = [];
  earliest = 0;
}

unfoldable pub tally_direction : Text → Tallies → Tallies
tally_direction d t =
    if text_eq d (lit "inbound")
    then record t { inbound = t.inbound + 1 }
    else if text_eq d (lit "outbound")
    then record t { outbound = t.outbound + 1 }
    else if text_eq d (lit "internal")
    then record t { internal = t.internal + 1 }
    else if text_eq d (lit "relayed")
    then record t { relayed = t.relayed + 1 }
    else t

unfoldable pub tally_disposition : Text → Tallies → Tallies
tally_disposition d t =
    if elem d (lit "sent" ∷ lit "delivered" ∷ [])
    then record t { sent = t.sent + 1 }
    else if text_eq d (lit "spam")
    then record t { spam = t.spam + 1 }
    else if elem d (lit "blocked" ∷ lit "virus" ∷ [])
    then record t { blocked = t.blocked + 1 }
    else if elem d (lit "rejected" ∷ lit "reject" ∷ [])
    then record t { rejected = t.rejected + 1 }
    else if text_eq d (lit "bounced")
    then record t { bounced = t.bounced + 1 }
    else if text_eq d (lit "deferred")
    then record t { deferred = t.deferred + 1 }
    else if is_empty d
    then t
    else record t { other = t.other + 1 }

-- The rest of the loop's body, for a record that also passes the direction filter.
unfoldable pub tally_rest : Record → Tallies → Tallies
tally_rest r t = record t {
  total = t.total + 1;
  earliest =
      if not (r.timestamp == 0) && (t.earliest == 0 || ltb r.timestamp t.earliest)
      then r.timestamp
      else t.earliest;
  ndr = if is_ndr r then t.ndr + 1 else t.ndr;
  senders = count_up r.from t.senders;
  recipients = count_up r.to t.recipients;
  hourly = if r.timestamp == 0 then t.hourly else count_up (format_date_hour r.timestamp) t.hourly;
}

unfoldable pub in_direction : SearchParams → Text → Bool
in_direction p d = is_empty p.filter_direction || equal_fold d p.filter_direction

unfoldable pub tally_record : (Record → Text) → SearchParams → Record → Tallies → Tallies
tally_record direction p r t =
    let d = direction r in
    let t1 = tally_direction d t in
    if record_matches r p
    then (if in_direction p d
        then tally_disposition (disposition_or_status r) (tally_rest r t1)
        else t1)
    else t

unfoldable pub tally_all : (Record → Text) → SearchParams → Tallies → List Record → Tallies
tally_all direction p t [] = t
tally_all direction p t (r ∷ rs) = tally_all direction p (tally_record direction p r t) rs

unfoldable pub tallies : Store → SearchParams → Tallies
tallies s p = tally_all (direction_resolver s) p no_tallies (visible s)

pub record StatsResult : Type 0 where
  pub tallies : Tallies
  pub top_senders : List CountItem
  pub top_recipients : List CountItem
  pub hourly : List CountItem
  pub earliest : Text
  pub retention_days : ℕ
  pub ready : Bool
  pub status : Text

unfoldable pub stats : Store → SearchParams → StatsResult
stats s p =
    let t = tallies s p in
    record {
      tallies = t;
      top_senders = top_n t.senders 10;
      top_recipients = top_n t.recipients 10;
      hourly = sorted_hourly t.hourly;
      earliest = format_stamp t.earliest;
      retention_days = s.retention_days;
      ready = s.ready;
      status = s.status;
    }
