-- ===== src/Store/Add.antt =====
-- AddRecords, registerDelivery and applyPendingRspamd of store.go.
use plv.Prelude.{
  ℕ, true, ◌||◌, not, ◌==◌, ltb, if◌then◌else◌, List, [], ◌∷◌, ◌++◌, Option, none, some, length,
  get_elem?, set,
}
use plv.Go.Text.{Text, is_empty}
use plv.Go.Map.{lookup, insert, delete}
use plv.Go.Time.{Env}
use plv.Go.Time.Parse.{◌>>=◌}
use plv.Records.{Record}
use plv.Rspamd.{enrich_with_rspamd}
use plv.Store.{Store, key_of, delivery_key, persisting}
use plv.Store.Merge.{merge_delivery_leg, merge_record}

-- A store and the snapshots that are to be persisted.
abbrev pub Work : Type 0
Work = Store × List Record

unfoldable pub put_record : Store → ℕ → Record → Store
put_record s i r = record s { records = set s.records i r }

-- A snapshot of record i is queued if anything persists.
unfoldable pub snapshot : ℕ → Work → Option Work
snapshot i (s, up) = do
  r ← get_elem? s.records i
  some (s, if persisting s then up ++ r ∷ [] else up)

-- The primary at `idx` takes over the row `o` of its outbound leg.
unfoldable pub subsume : Env → ℕ → Record → ℕ → Record → Work → Work
subsume env idx r o leg (s, up) =
    let gone = record leg { subsumed = true } in
    let s1 = put_record (put_record s idx (merge_delivery_leg env r leg)) o gone in
    (
      record s1 { by_queue_id = insert (delivery_key r) idx s.by_queue_id },
      if persisting s then up ++ gone ∷ [] else up,
    )

-- The row of the outbound leg of the primary at `idx`, if one is listed: some none if not.
unfoldable pub standalone_leg : Store → ℕ → Text → Option (Option (ℕ × Record))
standalone_leg s idx dkey = elim (lookup dkey s.by_queue_id) [
  | none ↦ some none
  | some o ↦ if o == idx then some none else elim (get_elem? s.records o) [
    | none ↦ none
    | some leg ↦ if leg.subsumed then some none else some (some (o, leg))
  ]
]

unfoldable pub register_delivery : Env → ℕ → Work → Option Work
register_delivery env idx (s, up) = do
  r ← get_elem? s.records idx
  let s1 = record s { by_delivery = insert (delivery_key r) idx s.by_delivery }
  found ← standalone_leg s1 idx (delivery_key r)
  elim found [ none ↦ some (s1, up) | some (o, leg) ↦ some (subsume env idx r o leg (s1, up)) ]

unfoldable pub apply_pending : ℕ → Work → Option Work
apply_pending idx (s, up) = do
  r ← get_elem? s.records idx
  elim (lookup r.queue_id s.rspamd_pending) [
    | none ↦ some (s, up)
    | some v ↦ some (
      record (put_record s idx (enrich_with_rspamd r v)) {
        rspamd_pending = delete r.queue_id s.rspamd_pending;
      },
      up,
    )
  ]

-- What follows a merge or an append at `idx`, given the delivery id of what was added.
unfoldable pub settle : Env → ℕ → Text → Work → Option Work
settle env idx did w = do
  w1 ← if is_empty did then some w else register_delivery env idx w
  w2 ← apply_pending idx w1
  snapshot idx w2

-- (1) an outbound leg whose primary is there
unfoldable pub fold_leg : Env → Record → ℕ → Work → Option Work
fold_leg env r p (s, up) = do
  primary ← get_elem? s.records p
  let s1 = put_record s p (merge_delivery_leg env primary r)
  snapshot p (record s1 { by_queue_id = insert (key_of r) p s1.by_queue_id }, up)

-- (3) a new record
unfoldable pub append_record : Env → Record → Work → Option Work
append_record env r (s, up) =
    let idx = length s.records in
    settle env idx r.delivery_queue_id (
      record s { by_queue_id = insert (key_of r) idx s.by_queue_id; records = s.records ++ r ∷ [] },
      up,
    )

-- (2) the same queue id again, unless its row was subsumed
unfoldable pub merge_again : Env → Record → ℕ → Work → Option Work
merge_again env r i (s, up) = do
  dst ← get_elem? s.records i
  if dst.subsumed
      then append_record env r (s, up)
      else settle env i r.delivery_queue_id (put_record s i (merge_record dst r), up)

-- The primary that expects this key, if its index is in range.
unfoldable pub expecting : Store → Text → Option ℕ
expecting s key = elim (lookup key s.by_delivery) [
  | none ↦ none
  | some p ↦ if ltb p (length s.records) then some p else none
]

unfoldable pub add_known : Env → Record → Work → Option Work
add_known env r (s, up) = elim (lookup (key_of r) s.by_queue_id) [
  | none ↦ append_record env r (s, up)
  | some i ↦ merge_again env r i (s, up)
]

unfoldable pub note_origin : Record → Store → Store
note_origin r s = record s { has_origins = not (is_empty r.origin) || s.has_origins }

unfoldable pub add_record : Env → Record → Work → Option Work
add_record env r (s, up) =
    let s1 = note_origin r s in
    elim (expecting s1 (key_of r)) [
      | some p ↦ fold_leg env r p (s1, up)
      | none ↦ add_known env r (s1, up)
    ]

unfoldable pub add_all : Env → List Record → Work → Option Work
add_all env [] w = some w
add_all env (r ∷ rs) w = do w1 ← add_record env r w; add_all env rs w1

-- AddRecords: the new store and the snapshots that are flushed.
unfoldable pub add_records : Env → List Record → Store → Option Work
add_records env rs s = add_all env rs (s, [])
