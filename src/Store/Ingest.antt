-- ===== src/Store/Ingest.antt =====
-- LoadFromDB, IngestSnapshots and restoreDeliveryLink of store.go.
use plv.Prelude.{
  ℕ, Bool, ◌&&◌, ◌||◌, not, if◌then◌else◌, List, [], ◌∷◌, ◌++◌, Option, none, some, length,
  get_elem?, set,
}
use plv.Go.Text.{Text, is_empty, text_eq}
use plv.Go.Map.{Map, lookup, insert}
use plv.Records.{Record}
use plv.Store.{Store, key_of, delivery_key}

-- The first index of a key stays.
unfoldable pub insert_new : Text → ℕ → Map ℕ → Map ℕ
insert_new k i m = elim (lookup k m) [ none ↦ insert k i m | some j ↦ m ]

-- The onward queue id of the record `r` at `idx` resolves to it.
unfoldable pub restore_delivery_link : ℕ → Record → Store → Store
restore_delivery_link idx r s = if is_empty r.delivery_queue_id then s else record s {
  by_delivery = insert (delivery_key r) idx s.by_delivery;
  by_queue_id = insert_new (delivery_key r) idx s.by_queue_id;
}

unfoldable pub list_record : Record → Store → Store
list_record r s =
    let idx = length s.records in
    restore_delivery_link idx r (record s {
      by_queue_id = insert (key_of r) idx s.by_queue_id;
      records = s.records ++ r ∷ [];
    })

unfoldable pub load_record : Store → Record → Store
load_record s r =
    let s1 = record s { has_origins = not (is_empty r.origin) || s.has_origins } in
    if r.subsumed
    then s1
    else elim (lookup (key_of r) s1.by_queue_id) [ none ↦ list_record r s1 | some i ↦ s1 ]

-- LoadFromDB over what the database holds.
unfoldable pub load_records : Store → List Record → Store
load_records s [] = s
load_records s (r ∷ rs) = load_records (load_record s r) rs

-- Whether the row at an index is the listed row of this record.
unfoldable pub is_row_of : Record → Record → Bool
is_row_of r row = text_eq row.origin r.origin && text_eq row.queue_id r.queue_id && not row.subsumed

-- The row of a snapshot, if it is there.
unfoldable pub row_of : Store → Record → Option ℕ
row_of s r = elim (lookup (key_of r) s.by_queue_id) [
  | none ↦ none
  | some i ↦ elim (get_elem? s.records i) [
    | none ↦ none
    | some row ↦ if is_row_of r row then some i else none
  ]
]

-- A snapshot whose origin is stamped replaces its row, or is listed.
unfoldable pub place : Record → Store → Store
place r s = elim (row_of s r) [
  | some i ↦ restore_delivery_link i r (record s { records = set s.records i r })
  | none ↦ list_record r s
]

unfoldable pub stamp : Text → Record → Record
stamp origin r = record r { origin = origin }

unfoldable pub ingest_one : Text → Record → Store → Store
ingest_one origin r s =
    let s1 = record s { has_origins = not (is_empty origin) || s.has_origins } in
    if r.subsumed then s1 else place (stamp origin r) s1

unfoldable pub ingest_all : Text → List Record → Store → Store
ingest_all origin [] s = s
ingest_all origin (r ∷ rs) s = ingest_all origin rs (ingest_one origin r s)

unfoldable pub stamp_all : Text → List Record → List Record
stamp_all origin [] = []
stamp_all origin (r ∷ rs) = stamp origin r ∷ stamp_all origin rs

-- IngestSnapshots: the store, what goes to the database, and the number accepted.
unfoldable pub ingest_snapshots : Text → List Record → Store → Store × List Record × ℕ
ingest_snapshots origin rs s =
    (ingest_all origin rs s, if s.has_db then stamp_all origin rs else [], length rs)
