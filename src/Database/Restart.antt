-- ===== src/Database/Restart.antt =====
-- LoadFromDB and PurgeOlderThan of store.go with the database behind the store, and what a node that
-- starts again finds of the records that were written before.
use plv.Prelude.{
  ℕ, ◌*◌, take, ◌≡◌, refl, ap, ◌∙◌, inl, inr, true, false, List, Option, none, some, if◌then◌else◌,
  arith, map, any,
}
use mathlib.Core.Option
use mathlib.Core.Option.{some-injective}
use plv.Go.Map.{lookup}
use plv.Go.Time.{Env, Duration}
use plv.Records.{Record}
use plv.Store.{Store, key_of, new_store}
use plv.Store.Ingest.{load_records}
use plv.Store.Purge.{purge_older_than}
use plv.Database.{
  Row, Postgres, row_args, scan_row, scan_rows, load_all, upsert_records, delete_older_than,
  batch_size,
}
use plv.Database.Laws.{find_row, stored_row, IsPostgres}
use plv.Database.Views.{view, replay}
use plv.Database.Upsert.{upsert_records-IsPrefix}
use plv.Store.Index.{IsIndexed}
use plv.Database.Keys.{scan-stored, replay-last, first_key-scan, find_row-plain, restored, last_of}
use plv.Database.Loaded.{IsLoaded, leads_to, load_records_first, load_records-IsIndexed}

unfoldable pub loaded : {D : Type 0} → Store → D × Option (List Record) → D × Option Store
loaded s (d, none) = (d, none)
loaded s (d, some rs) = (d, some (load_records s rs))

module _ {D : Type 0} (pg : Postgres D) where
  -- The store, or none at an error.
  unfoldable pub load_from_db : Store → D → D × Option Store
  load_from_db s d = if s.has_db then loaded s (load_all pg d) else (d, some s)

  -- The whole of PurgeOlderThan; the clock is read again for the database. An error is logged.
  unfoldable pub purge_both : Env → Env → Duration → Store → D → (Store × ℕ) × D
  purge_both env later age s d =
      (purge_older_than env age s, if s.has_db then (delete_older_than pg later age d).0 else d)

loaded_lem :
    {D : Type 0} (s : Store) (w : D × Option (List Row)) (l : List Row)
    → w.1 ≡ some l
    → (loaded s (scan_rows w)).1 ≡ some (load_records s (map scan_row l))
unfolding loaded scan_rows
loaded_lem s (d, none) l h = absurd (ground arith)
loaded_lem s (d, some x) l h =
    ap (λ z. some (load_records s (map scan_row z))) (some-injective x l h)

-- Once UpsertRecords has ended without an error, a new store that LoadFromDB fills from the rows of the
-- table finds under the key of each record the last version of it that was written, with its time at
-- the precision of the column: for every record that is not subsumed, and whose key is no row's onward
-- queue id. The indexes of that store are in range.
pub restart-IsLoaded :
    {D : Type 0} (pg : Postgres D) (laws : IsPostgres pg) (rs : List Record) (d : D) (r : Record)
    (l : List Row)
    → (upsert_records pg rs d).1 ≡ true
    → (pg.select (upsert_records pg rs d).0).1 ≡ some l
    → last_of r.origin r.queue_id rs ≡ some r
    → r.subsumed ≡ false
    → any (leads_to (key_of r)) (map scan_row l) ≡ false
    → (s : Store) × ((load_from_db pg (new_store true) (upsert_records pg rs d).0).1 ≡ some s)
      × IsLoaded (restored laws.keep_time r) s
      × IsIndexed s
unfolding load_from_db load_all new_store restored key_of stored_row row_args lookup
restart-IsLoaded pg laws rs d r l done sel last h free =
    let w = upsert_records pg rs d in
    let (m, e, c) = upsert_records-IsPrefix pg laws rs d in
    let all : take (m * batch_size) rs ≡ rs = elim c [
      | inl bad ↦ absurd (ground arith)
      | inr x ↦ x
    ] in
    let o = r.origin in
    let q = r.queue_id in
    let row = stored_row laws.keep_time (row_args r) in
    let in_table : find_row o q (laws.saved w.0) ≡ some row =
      ap (λ v. v o q) e
      ∙ ap (λ x. replay laws.keep_time x (view (laws.saved d)) o q) all
      ∙ replay-last laws.keep_time o q rs (view (laws.saved d)) r last in
    let found = laws.select_saved w.0 l o q sel ∙ in_table in
    let text = laws.select_text w.0 l sel in
    let first =
      first_key-scan o q l (find_row-plain o q l row found text) text
      ∙ ap (Option.map scan_row) found
      ∙ ap some (scan-stored laws.keep_time r) in
    let s = load_records (new_store true) (map scan_row l) in
    (
      s,
      loaded_lem (new_store true) (pg.select w.0) l sel,
      load_records_first (restored laws.keep_time r) (map scan_row l) (new_store true) refl h first
          free,
      load_records-IsIndexed (map scan_row l) (new_store true) (λ k i e. absurd (ground arith)),
    )
