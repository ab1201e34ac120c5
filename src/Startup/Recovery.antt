-- ===== src/Startup/Recovery.antt =====
-- db.go with store.go and main.go: what a node that starts again has of the records that were written.
use plv.Prelude.{ℕ, ◌≡◌, true, false, List, [], Option, none, some, map, any, get_elem?}
use plv.Go.Text.{Text}
use plv.Go.Map.{lookup}
use plv.Go.Time.{Env}
use plv.Records.{Record}
use plv.Store.{Store, new_store, key_of}
use plv.Store.Index.{Kept}
use plv.Database.{Row, Postgres, scan_row, upsert_records}
use plv.Database.Laws.{IsPostgres}
use plv.Database.Keys.{restored, last_of}
use plv.Database.Loaded.{IsLoaded, leads_to}
use plv.Database.Restart.{load_from_db, restart-IsLoaded}
use plv.Logs.{LogDir}
use plv.Startup.{Started, bring_up_parsing}
use plv.Startup.Resume.{bring_up_parsing-IsUp}

-- The key leads to a row, and the record has its own, with at least its lines.
abbrev pub IsRecovered : Record → Store → Type 0
IsRecovered r s =
    (i : ℕ) × (j : ℕ) × (row : Record) × (lookup (key_of r) s.by_queue_id ≡ some j)
    × (get_elem? s.records i ≡ some row)
    × Kept r row

-- Once UpsertRecords has ended without an error, a node that starts again comes up, whatever its log
-- files hold. LoadFromDB finds under the key of each record the last version of it that was written, with
-- its time at the precision of the column, for every record that is not subsumed and whose key is no
-- row's onward queue id; and after the log files are parsed over it, its key still leads to a row, and
-- its own row still has its origin, its queue id and all its lines.
pub restart_recovers :
    {D : Type 0} (pg : Postgres D) (laws : IsPostgres pg) (rs : List Record) (d : D) (r : Record)
    (l : List Row) (env : Env) (decode : Text → Option Text) (dir : LogDir)
    (join : Text → Text → Text)
    → (upsert_records pg rs d).1 ≡ true
    → (pg.select (upsert_records pg rs d).0).1 ≡ some l
    → last_of r.origin r.queue_id rs ≡ some r
    → r.subsumed ≡ false
    → any (leads_to (key_of r)) (map scan_row l) ≡ false
    → (s : Store) × (x : Started) × ((load_from_db pg (new_store true) (upsert_records pg rs d).0).1
        ≡ some s)
      × IsLoaded (restored laws.keep_time r) s
      × (bring_up_parsing env decode dir join none (s, []) ≡ some x)
      × IsRecovered (restored laws.keep_time r) x.work.0
restart_recovers pg laws rs d r l env decode dir join done sel last h free =
    let (s, e, (i, p, q), ix) = restart-IsLoaded pg laws rs d r l done sel last h free in
    let (x, f, (up, ready), rest) = bring_up_parsing-IsUp env decode dir join none s [] ix in
    let (j, g) = up.2 _ i p in
    let (row, t, k) = up.3 i _ q in (s, x, e, (i, p, q), f, (i, j, row, g, t, k))
