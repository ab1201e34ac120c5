-- ===== src/Tests/Databases.antt =====
-- A database in memory, and the theorems on db.go at it.
use plv.Prelude.{
  length, ◌∙◌, if_false, sym, ap, ℕ, ◌*◌, ◌/◌, ◌≡◌, refl, ◌⊎◌, inl, inr, true, false, ◌==◌, List,
  [], ◌∷◌, none, some, if◌then◌else◌, Bool-cases, arith, any, take,
}
use mathlib.Core.Path.{subst}
use mathlib.Core.Option.{some-injective}
use plv.Tests.Samples.{inbound_leg, outbound_leg}
use plv.Go.Map.{lookup, insert}
use plv.Store.Ingest.{load_records, load_record, list_record, restore_delivery_link, insert_new}
use plv.Go.Text.{text_eq, Text, lit, text_eq_iff}
use plv.Records.{Record}
use plv.Store.{rec_key, delivery_key, Store, new_store, key_of}
use plv.Database.{
  exec_all, run_insert, upsert_batch_fallback, after_copy, deferred, and_then, in_transaction,
  upsert_batch, batches, upsert_batches, Row, Postgres, row_args, on_conflict, scan_row,
  upsert_records, batch_size,
}
use plv.Database.Laws.{has_key, find_row, stored_row, put_row, IsPostgres}
use plv.Database.Views.{view, replay}
use plv.Database.Upsert.{upsert_records-IsPrefix}
use plv.Database.Keys.{last_of, restored}
use plv.Database.Loaded.{IsLoaded, leads_to}
use plv.Database.Restart.{load_from_db}
use plv.Startup.{Started, bring_up_parsing}
use plv.Startup.Recovery.{IsRecovered, restart_recovers}
use plv.Tests.Samples.{env}
use plv.Tests.Starts.{logs}

-- The committed rows, and those of the open transaction.
abbrev Memory : Type 0
Memory = List Row × List Row

abbrev micro : ℕ → ℕ
micro t = t / 1000 * 1000

upsert : Row → List Row → List Row
upsert row [] = row ∷ []
upsert row (x ∷ xs) =
    let rest = upsert row xs in
    if has_key row.origin row.queue_id x then on_conflict row x ∷ xs else x ∷ rest

abbrev memory : Postgres Memory
memory = record {
  ping = λ d. (d, true);
  migrate = λ d. (d, true);
  begin = λ d. ((d.0, d.0), true);
  prepare_copy = λ d. (d, true);
  prepare = λ d. (d, true);
  exec = λ row d. ((d.0, upsert (stored_row micro row) d.1), true);
  close = λ d. d;
  commit = λ d. ((d.1, d.1), true);
  rollback = λ d. d;
  select = λ d. (d, if any (λ row. any (λ c. c == 0) row.origin) d.0 then none else some d.0);
  count = λ d. (d, none);
  delete = λ t d. (d, none);
}

find_row-upsert :
    (row : Row) (rows : List Row) (o q : Text)
    → find_row o q (upsert row rows)
      ≡ (if has_key o q row then some (put_row row (find_row o q rows)) else find_row o q rows)
unfolding upsert find_row has_key put_row on_conflict
find_row-upsert row [] o q = refl
find_row-upsert row (x ∷ xs) o q = ground (
  arith,
  find_row-upsert row xs o q,
  text_eq_iff x.origin o,
  text_eq_iff x.queue_id q,
  text_eq_iff row.origin o,
  text_eq_iff row.queue_id q,
  text_eq_iff x.origin row.origin,
  text_eq_iff x.queue_id row.queue_id,
)

memory_text :
    (d : Memory) (l : List Row)
    → (memory.select d).1 ≡ some l
    → any (λ row. any (λ c. c == 0) row.origin) l ≡ false
memory_text d l h = elim (Bool-cases (any (λ row. any (λ c. c == 0) row.origin) d.0)) [
  | inl e ↦ absurd (ground arith)
  | inr e ↦
      subst (λ z. any (λ row. any (λ c. c == 0) row.origin) z ≡ false)
        (some-injective d.0 l (sym (if_false _ none (some d.0) e) ∙ h)) e
]

memory_select :
    (d : Memory) (l : List Row) (o q : Text)
    → (memory.select d).1 ≡ some l
    → find_row o q l ≡ find_row o q d.0
memory_select d l o q h = elim (Bool-cases (any (λ row. any (λ c. c == 0) row.origin) d.0)) [
  | inl e ↦ absurd (ground arith)
  | inr e ↦ ap (find_row o q) (sym (some-injective d.0 l (sym (if_false _ none (some d.0) e) ∙ h)))
]

memory-IsPostgres : IsPostgres memory
unfolding has_key stored_row
memory-IsPostgres = record {
  keep_time = micro;
  rows = λ d. d.1;
  saved = λ d. d.0;
  begin_saved = λ d. refl;
  begin_rows = λ d h. refl;
  prepare_copy_saved = λ d. refl;
  prepare_saved = λ d. refl;
  prepare_rows = λ d. refl;
  exec_saved = λ row d. refl;
  exec_rows = λ row d h o q. find_row-upsert (stored_row micro row) d.1 o q;
  close_saved = λ d. refl;
  rollback_saved = λ d. refl;
  commit_saved = λ d h. refl;
  commit_lost = λ d h. absurd (ground arith);
  select_saved = memory_select;
  select_text = memory_text;
}

upsert_records-IsPrefix_example :
    (m : ℕ) × (view (memory-IsPostgres.saved (upsert_records memory (inbound_leg ∷ []) ([], [])).0)
      ≡ replay memory-IsPostgres.keep_time
          (take (m * batch_size) (inbound_leg ∷ []))
          (view (memory-IsPostgres.saved ([], []))))
    × (((upsert_records memory (inbound_leg ∷ []) ([], [])).1 ≡ false)
        ⊎ (take (m * batch_size) (inbound_leg ∷ []) ≡ inbound_leg ∷ []))
upsert_records-IsPrefix_example =
    upsert_records-IsPrefix memory memory-IsPostgres (inbound_leg ∷ []) ([], [])

-- The message as it was written first, and its last version.
abbrev versions : List Record
versions =
    record inbound_leg { timestamp = 5_000 } ∷ record inbound_leg { timestamp = 1_234_567 } ∷ []

abbrev last_version : Record
last_version = record inbound_leg { timestamp = 1_234_567 }

abbrev table : List Row
table = stored_row micro (row_args last_version) ∷ []

versions_written : upsert_records memory versions ([], []) ≡ ((table, table), true)
unfolding upsert_records upsert_batches batches upsert_batch in_transaction and_then deferred
    after_copy upsert_batch_fallback run_insert exec_all upsert has_key row_args on_conflict
    stored_row text_eq lit
versions_written = refl

versions_read : (memory.select (upsert_records memory versions ([], [])).0).1 ≡ some table
unfolding row_args stored_row
versions_read = rw versions_written refl

restart_recovers_example :
    (s : Store) × (x : Started) × ((load_from_db memory
        (new_store true)
        (upsert_records memory versions ([], [])).0).1
      ≡ some s)
    × IsLoaded (restored memory-IsPostgres.keep_time last_version) s
    × (bring_up_parsing env (λ t. none) logs (λ a b. b) none (s, []) ≡ some x)
    × IsRecovered (restored memory-IsPostgres.keep_time last_version) x.work.0
unfolding last_of has_key row_args text_eq lit stored_row leads_to scan_row delivery_key key_of
    rec_key
restart_recovers_example =
    restart_recovers memory memory-IsPostgres versions ([], []) last_version table env (λ t. none)
      logs (λ a b. b) (ap (λ w. w.1) versions_written) versions_read refl refl refl

-- The rows of a message and of an older one whose queue id is the onward id of the first: the older one
-- is not loaded.
reused_queue_id :
    length (load_records (new_store true) (inbound_leg ∷ outbound_leg ∷ [])).records ≡ 1
unfolding load_records load_record list_record restore_delivery_link insert_new new_store lookup
    insert key_of delivery_key rec_key text_eq lit
reused_queue_id = refl
