-- ===== src/Store.antt =====
-- store.go: the in-memory store, its indexes and its small operations. An operation takes the
-- store and returns the new one; a read past the end of the records, which panics in Go, is none.
pub mod Merge
pub mod Add
pub mod Index
pub mod Lines
pub mod Settle
pub mod Total
pub mod Ingest
pub mod Resend
pub mod Rows
pub mod Meeting
pub mod Verdicts
pub mod Purge
pub mod Retention
pub mod Confs
use plv.Prelude.{
  ℕ, Bool, true, false, ◌&&◌, ◌||◌, not, ◌==◌, if◌then◌else◌, List, [], ◌∷◌, ◌++◌, Option, none,
  some, length,
}
use plv.Go.Text.{Text, lit, is_empty}
use plv.Go.Map.{Map, lookup}
use plv.Records.{Record}
use plv.PostfixConf.{PostfixConf}
use plv.Rspamd.{RspamdVerdict}

pub record Store : Type 0 where
  pub records : List Record
  pub by_queue_id : Map ℕ
  pub by_delivery : Map ℕ
  pub rspamd_pending : Map RspamdVerdict
  pub ready : Bool
  pub status : Text
  pub has_origins : Bool
  pub retention_days : ℕ
  pub pcfg : Option PostfixConf
  pub pcfg_by_origin : Map PostfixConf
  -- whether a database and a forwarder's sink are attached
  pub has_db : Bool
  pub has_sink : Bool

unfoldable pub new_store : Bool → Store
new_store has_db = record {
  records = [];
  by_queue_id = [];
  by_delivery = [];
  rspamd_pending = [];
  ready = false;
  status = lit "initializing";
  has_origins = false;
  retention_days = 0;
  pcfg = none;
  pcfg_by_origin = [];
  has_db = has_db;
  has_sink = false;
}

unfoldable pub set_retention_days : Store → ℕ → Store
set_retention_days s days = record s { retention_days = days }

unfoldable pub set_postfix_conf : Store → Option PostfixConf → Store
set_postfix_conf s pc = record s { pcfg = pc }

unfoldable pub set_sink : Store → Store
set_sink s = record s { has_sink = true }

unfoldable pub set_ready : Store → Store
set_ready s = record s { ready = true; status = lit "ready" }

unfoldable pub set_status : Store → Text → Store
set_status s st = record s { status = st }

unfoldable pub get_status : Store → Bool × Text × ℕ
get_status s = (s.ready, s.status, length s.records)

-- The identity of a record: its origin and queue id, with a zero byte between.
unfoldable pub rec_key : Text → Text → Text
rec_key origin qid = origin ++ 0 ∷ qid

unfoldable pub key_of : Record → Text
key_of r = rec_key r.origin r.queue_id

unfoldable pub delivery_key : Record → Text
delivery_key r = rec_key r.origin r.delivery_queue_id

-- The configuration of a record's server, or the local one.
unfoldable pub conf_for : Store → Text → Option PostfixConf
conf_for s origin =
    if is_empty origin
    then s.pcfg
    else elim (lookup origin s.pcfg_by_origin) [ none ↦ s.pcfg | some pc ↦ some pc ]

unfoldable pub persisting : Store → Bool
persisting s = s.has_db || s.has_sink

-- What is handed out without the lock: an upsert of the database, a batch for the sink.
pub data Effect : Type 0 where
  upsert : List Record → Effect
  enqueue : List Record → Effect

unfoldable pub flush : Store → List Record → List Effect
flush s [] = []
flush s (r ∷ rs) =
    (if s.has_db then upsert (r ∷ rs) ∷ [] else [])
    ++ (if s.has_sink then enqueue (r ∷ rs) ∷ [] else [])

unfoldable pub origins_seen : Store → Bool
origins_seen s = s.has_origins

-- Count, with the subsumed legs
unfoldable pub record_total : Store → ℕ
record_total s = length s.records

-- A text as it is logged: a line break is a blank.
unfoldable pub log_safe : Text → Text
log_safe [] = []
log_safe (c ∷ s) = (if c == 10 || c == 13 then b' ' else c) ∷ log_safe s
