-- ===== src/Tests/Samples.antt =====
-- Records, lines and stores that the tests share.
use plv.Go.Map.{lookup}
use plv.Store.Index.{IsIndexed}
use plv.Prelude.{pos, arith, ◌*◌, Option, [], ◌∷◌, true, false}
use plv.Go.Text.{Text, lit}
use plv.Go.Time.{Env, utc}
use plv.Records.{Record, blank}
use plv.Store.{Store, key_of, delivery_key}
use plv.Search.Params.{SearchParams, no_params}

-- The end of June 2026.
abbrev pub env : Env
env = record { now = 63918374400 * 1_000_000_000; local = utc }

abbrev pub line1 : Text
line1 =
    lit "2026-06-30T06:12:00+10:00 mx postfix/smtpd[12]: 4ABCDEF0123: client=a.example[203.0.113.9]"

abbrev pub line2 : Text
line2 =
    lit
      "2026-06-30T06:12:01+10:00 mx postfix/smtp[13]: 4ABCDEF0123: to=<a@b.c>, relay=x.y[198.51.100.7]:25, status=sent (250 ok)"

abbrev pub inbound_leg : Record
inbound_leg = record blank {
  queue_id = lit "AAAAAAAAAA";
  message_id = lit "m1@x";
  from = lit "u@x.example";
  client = lit "a.example[203.0.113.9]";
  status = lit "sent";
  disposition = lit "sent";
  delivery_queue_id = lit "BBBBBBBBBB";
  raw_lines = line1 ∷ [];
}

abbrev pub outbound_leg : Record
outbound_leg = record blank {
  queue_id = lit "BBBBBBBBBB";
  message_id = lit "m1@x";
  status = lit "sent";
  disposition = lit "sent";
  relay = lit "x.y[198.51.100.7]:25";
  raw_lines = line2 ∷ [];
}

abbrev pub empty_store : Store
empty_store = record {
  records = [];
  by_queue_id = [];
  by_delivery = [];
  rspamd_pending = [];
  ready = false;
  status = [];
  has_origins = false;
  retention_days = 0;
  pcfg = Option.none;
  pcfg_by_origin = [];
  has_db = true;
  has_sink = false;
}

-- Two rows of one message.
abbrev pub two_rows : Store
two_rows = record empty_store { records = inbound_leg ∷ outbound_leg ∷ [] }

abbrev pub grouped : SearchParams
grouped = record no_params { group = true; page_length = 1; start = pos 1 }

-- An expired message that has a delivery id, and one of today that has nothing to do with it.
abbrev pub expired_message : Record
expired_message = record inbound_leg { timestamp = 1 }

abbrev pub other_message : Record
other_message = record inbound_leg {
  queue_id = lit "CCCCCCCCCC";
  message_id = lit "m2@x";
  delivery_queue_id = [];
  timestamp = 63918374399 * 1_000_000_000;
}

abbrev pub aged_store : Store
aged_store = record empty_store {
  records = expired_message ∷ other_message ∷ [];
  by_queue_id = (key_of expired_message, 0) ∷ (key_of other_message, 1) ∷ [];
  by_delivery = (delivery_key expired_message, 0) ∷ [];
}

pub empty_store-IsIndexed : IsIndexed empty_store
unfolding lookup
empty_store-IsIndexed k i h = ground arith
