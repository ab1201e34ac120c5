-- ===== src/Database.antt =====
-- db.go: the records in PostgreSQL. The server and its driver are the record Postgres over the states D
-- of the connection: each call gives the next state and whether it succeeded, or what it returned. What
-- a statement is sent with is built here.
pub mod Laws
pub mod Views
pub mod Atomic
pub mod Upsert
pub mod Query
pub mod Keys
pub mod Loaded
pub mod Restart
use plv.Prelude.{
  ℕ, zero, suc, ◌==◌, Bool, true, false, if◌then◌else◌, List, [], ◌∷◌, Option, none, some, length,
  take, drop, map,
}
use plv.Go.Text.{Text}
use plv.Go.Time.{Time, Env, Duration, ago}
use plv.Records.{Record}

-- A row of mail_records; the column timestamp may be NULL.
pub record Row : Type 0 where
  pub queue_id : Text
  pub timestamp : Option Time
  pub from_addr : Text
  pub to_addr : Text
  pub subject : Text
  pub size : ℕ
  pub message_id : Text
  pub status : Text
  pub status_detail : Text
  pub relay : Text
  pub client : Text
  pub tls : Text
  pub raw_lines : List Text
  pub disposition : Text
  pub scanner : Text
  pub filter_action : Text
  pub spam_score : Text
  pub filter_rule : Text
  pub filter_id : Text
  pub delivery_queue_id : Text
  pub subsumed : Bool
  pub origin : Text

pub record Postgres (D : Type 0) : Type 0 where
  pub ping : D → D × Bool
  -- the schema of Migrate
  pub migrate : D → D × Bool
  pub begin : D → D × Bool
  -- preparing COPY, and the INSERT of the fallback
  pub prepare_copy : D → D × Bool
  pub prepare : D → D × Bool
  pub exec : Row → D → D × Bool
  pub close : D → D
  pub commit : D → D × Bool
  pub rollback : D → D
  -- the SELECT of LoadAll, the COUNT, and the DELETE with the number of rows
  pub select : D → D × Option (List Row)
  pub count : D → D × Option ℕ
  pub delete : Time → D → D × Option ℕ

-- The arguments of the INSERT. A nil slice of lines is an empty array, as here.
unfoldable pub row_args : Record → Row
row_args r = record {
  queue_id = r.queue_id;
  timestamp = if r.timestamp == 0 then none else some r.timestamp;
  from_addr = r.from;
  to_addr = r.to;
  subject = r.subject;
  size = r.size;
  message_id = r.message_id;
  status = r.status;
  status_detail = r.status_detail;
  relay = r.relay;
  client = r.client;
  tls = r.tls;
  raw_lines = r.raw_lines;
  disposition = r.disposition;
  scanner = r.scanner;
  filter_action = r.filter_action;
  spam_score = r.spam_score;
  filter_rule = r.filter_rule;
  filter_id = r.filter_id;
  delivery_queue_id = r.delivery_queue_id;
  subsumed = r.subsumed;
  origin = r.origin;
}

-- ON CONFLICT (origin, queue_id) DO UPDATE SET, of the excluded row and the one that is there
unfoldable pub on_conflict : Row → Row → Row
on_conflict excluded old = record old {
  timestamp = excluded.timestamp;
  from_addr = excluded.from_addr;
  to_addr = excluded.to_addr;
  subject = excluded.subject;
  size = excluded.size;
  message_id = excluded.message_id;
  status = excluded.status;
  status_detail = excluded.status_detail;
  relay = excluded.relay;
  client = excluded.client;
  tls = excluded.tls;
  raw_lines = excluded.raw_lines;
  disposition = excluded.disposition;
  scanner = excluded.scanner;
  filter_action = excluded.filter_action;
  spam_score = excluded.spam_score;
  filter_rule = excluded.filter_rule;
  filter_id = excluded.filter_id;
  delivery_queue_id = excluded.delivery_queue_id;
  subsumed = excluded.subsumed;
}

unfoldable pub scan_time : Option Time → Time
scan_time none = 0
scan_time (some t) = t

unfoldable pub scan_row : Row → Record
scan_row row = record {
  timestamp = scan_time row.timestamp;
  origin = row.origin;
  queue_id = row.queue_id;
  from = row.from_addr;
  to = row.to_addr;
  subject = row.subject;
  size = row.size;
  message_id = row.message_id;
  status = row.status;
  status_detail = row.status_detail;
  relay = row.relay;
  client = row.client;
  tls = row.tls;
  raw_lines = row.raw_lines;
  disposition = row.disposition;
  scanner = row.scanner;
  filter_action = row.filter_action;
  spam_score = row.spam_score;
  filter_rule = row.filter_rule;
  filter_id = row.filter_id;
  delivery_queue_id = row.delivery_queue_id;
  subsumed = row.subsumed;
}

module _ {D : Type 0} where
  -- A call that is made only where the one before succeeded.
  unfoldable pub and_then : (D → D × Bool) → D × Bool → D × Bool
  and_then f (d, true) = f d
  and_then f (d, false) = (d, false)

  unfoldable pub scan_rows : D × Option (List Row) → D × Option (List Record)
  scan_rows (d, none) = (d, none)
  scan_rows (d, some rows) = (d, some (map scan_row rows))

  unfoldable pub deferred : (D → D) → D × Bool → D × Bool
  deferred f (d, done) = (f d, done)

module _ {D : Type 0} (pg : Postgres D) where
  -- Begin, with the deferred Rollback around what follows.
  unfoldable pub in_transaction : (D → D × Bool) → D → D × Bool
  in_transaction body d = and_then (λ d1. deferred pg.rollback (body d1)) (pg.begin d)

  unfoldable pub exec_all : List Record → D → D × Bool
  exec_all [] d = (d, true)
  exec_all (r ∷ rs) d = and_then (exec_all rs) (pg.exec (row_args r) d)

  unfoldable pub run_insert : List Record → D → D × Bool
  run_insert rs d = deferred pg.close (and_then pg.commit (exec_all rs d))

  unfoldable pub upsert_batch_fallback : List Record → D → D × Bool
  upsert_batch_fallback rs = in_transaction (λ d. and_then (run_insert rs) (pg.prepare d))

  -- What follows the attempt to prepare COPY: the upsert, either way.
  unfoldable pub after_copy : List Record → D × Bool → D × Bool
  after_copy rs (d, false) = upsert_batch_fallback rs d
  after_copy rs (d, true) = upsert_batch_fallback rs (pg.rollback (pg.close d))

  unfoldable pub upsert_batch : List Record → D → D × Bool
  upsert_batch [] d = (d, true)
  upsert_batch (r ∷ rs) d = in_transaction (λ d1. after_copy (r ∷ rs) (pg.prepare_copy d1)) d

  unfoldable pub upsert_batches : List (List Record) → D → D × Bool
  upsert_batches [] d = (d, true)
  upsert_batches (b ∷ bs) d = and_then (upsert_batches bs) (upsert_batch b d)

abbrev pub batch_size : ℕ
batch_size = 500

-- records[i:end] for each i of the loop; the fuel is the number of records.
unfoldable pub batches : ℕ → ℕ → List Record → List (List Record)
batches size zero rs = []
batches size (suc n) [] = []
batches size (suc n) (r ∷ rs) = take size (r ∷ rs) ∷ batches size n (drop size (r ∷ rs))

module _ {D : Type 0} (pg : Postgres D) where
  unfoldable pub upsert_records : List Record → D → D × Bool
  upsert_records rs = upsert_batches pg (batches batch_size (length rs) rs)

  unfoldable pub load_all : D → D × Option (List Record)
  load_all d = scan_rows (pg.select d)

  unfoldable pub record_count : D → D × Option ℕ
  record_count = pg.count

  unfoldable pub delete_older_than : Env → Duration → D → D × Option ℕ
  delete_older_than env d = pg.delete (ago env.now d)

  -- The pings of OpenDB, a second apart, until one succeeds.
  unfoldable pub wait_ready : ℕ → D → D
  wait_ready zero d = d
  wait_ready (suc n) d = elim (pg.ping d).1 [
    | true ↦ (pg.ping d).0
    | false ↦ wait_ready n (pg.ping d).0
  ]

  -- What sql.Open gives, and the state when the last ping succeeds.
  unfoldable pub open_db : Option D → Option D
  open_db none = none
  open_db (some d) = let (d1, ready) = pg.ping (wait_ready 30 d) in if ready then some d1 else none
