-- ===== src/Store/Retention.antt =====
-- What the purge keeps, and what its new index and the old index of deliveries then say.
use mathlib.Core.Path.{subst₂}
use plv.Prelude.{
  get_elem?-set_self, append-nil, ℕ, zero, suc, ◌+◌, ◌<◌, ◌≡◌, refl, ◌∙◌, ◌⊎◌, inl, inr, not, List,
  [], ◌∷◌, ◌++◌, Option, some, arith, length, get_elem?, keep, if◌then◌else◌, Bool-cases, lt→ltb,
  get_elem?-append_last, get_elem?-append_left, length-append, lt_of_get_elem?, append_assoc,
}
use plv.Go.Text.{Text, text_eq, text_eq_iff}
use plv.Go.Map.{Map, lookup, insert, lookup-insert}
use plv.Go.Time.{Env, Time, Duration, ago}
use plv.Records.{Record}
use plv.Store.{Store, key_of}
use plv.Store.Merge.{merge_delivery_leg}
use plv.Store.Add.{Work, add_record, expecting, note_origin, fold_leg, snapshot, put_record}
use plv.Store.Purge.{is_expired, index_from, kept_records, purge_older_than}

-- Each key of the map is that of the row it leads to.
abbrev pub IsOwn : Map ℕ → List Record → Type 0
IsOwn m rows =
    (k : Text) (i : ℕ)
    → lookup k m ≡ some i
    → (row : Record) × (get_elem? rows i ≡ some row) × (key_of row ≡ k)

-- Every row's key is in the map.
abbrev pub IsFull : Map ℕ → List Record → Type 0
IsFull m rows =
    (i : ℕ) (row : Record)
    → get_elem? rows i ≡ some row
    → (j : ℕ) × (lookup (key_of row) m ≡ some j)

IsOwn-insert :
    (m : Map ℕ) (rows : List Record) (r : Record)
    → IsOwn m rows
    → IsOwn (insert (key_of r) (length rows) m) (rows ++ r ∷ [])
IsOwn-insert m rows r own k i h = elim (Bool-cases (text_eq (key_of r) k)) [
  | inl same ↦
      let e : length rows ≡ i = ground (arith, lookup-insert (key_of r) k (length rows) m) in
      (r, rw (← e) (get_elem?-append_last rows r), (text_eq_iff (key_of r) k).0 same)
  | inr other ↦
      let (row, p, q) = own k i (ground (arith, lookup-insert (key_of r) k (length rows) m)) in
      (row, get_elem?-append_left rows (r ∷ []) i (lt_of_get_elem? rows i row p) ∙ p, q)
]

-- A row of a list with one more at the end is an old one or the last.
get_elem?-snoc :
    (rows : List Record) (r row : Record) (i : ℕ)
    → get_elem? (rows ++ r ∷ []) i ≡ some row
    → (get_elem? rows i ≡ some row) ⊎ (row ≡ r)
get_elem?-snoc [] r row zero h = inr (ground arith)
get_elem?-snoc [] r row (suc i) h = ground arith
get_elem?-snoc (x ∷ xs) r row zero h = inl h
get_elem?-snoc (x ∷ xs) r row (suc i) h = get_elem?-snoc xs r row i h

IsFull-insert :
    (m : Map ℕ) (rows : List Record) (r : Record)
    → IsFull m rows
    → IsFull (insert (key_of r) (length rows) m) (rows ++ r ∷ [])
IsFull-insert m rows r full i row h = elim (get_elem?-snoc rows r row i h) [
  | inl old ↦
      let (j, p) = full i row old in
      (
        if text_eq (key_of r) (key_of row) then length rows else j,
        ground (arith, lookup-insert (key_of r) (key_of row) (length rows) m),
      )
  | inr new ↦ (
    length rows,
    rw new (
        ground (
          arith,
          lookup-insert (key_of r) (key_of r) (length rows) m,
          text_eq_iff (key_of r) (key_of r),
        )),
  )
]

-- The index of `rs` after that of other rows is exact for all of them.
abbrev IsExact : ℕ → Map ℕ → List Record → List Record → Type 0
IsExact n m rs rows = IsOwn (index_from n m rs) rows × IsFull (index_from n m rs) rows

index_from-IsExact :
    (m : Map ℕ) (rows rs : List Record)
    → IsOwn m rows
    → IsFull m rows
    → IsExact (length rows) m rs (rows ++ rs)
unfolding index_from
index_from-IsExact m rows [] own full = rw append-nil (own, full)
index_from-IsExact m rows (r ∷ rs) own full =
    let e : length (rows ++ r ∷ []) ≡ suc (length rows) =
      omega (arith, length-append rows (r ∷ [])) in
    let m' = insert (key_of r) (length rows) m in
    let ih =
      index_from-IsExact m' (rows ++ r ∷ []) rs (IsOwn-insert m rows r own)
        (IsFull-insert m rows r full) in
    subst₂ (λ n l. IsExact n m' rs l) e (append_assoc rows (r ∷ []) rs) ih

split_keep :
    (cutoff : Time) (rs : List Record)
    → length (keep (is_expired cutoff) rs) + length (kept_records cutoff rs) ≡ length rs
unfolding kept_records
split_keep cutoff [] = omega arith
split_keep cutoff (r ∷ rs) = ground (arith, split_keep cutoff rs)

-- The purge keeps exactly the records that have not expired, in their order, and counts the others.
-- Its index is exact: every row's key resolves, and a key resolves only to a row whose own key it is,
-- so that no key reaches a row through its delivery queue id any more.
pub purge_older_than-IsExact :
    (env : Env) (d : Duration) (s : Store)
    → ((purge_older_than env d s).0.records
        ≡ keep (λ r. not (is_expired (ago env.now d) r)) s.records)
      × ((purge_older_than env d s).1 + length (purge_older_than env d s).0.records
          ≡ length s.records)
      × IsOwn (purge_older_than env d s).0.by_queue_id (purge_older_than env d s).0.records
      × IsFull (purge_older_than env d s).0.by_queue_id (purge_older_than env d s).0.records
unfolding purge_older_than
purge_older_than-IsExact env d s =
    let exact =
      index_from-IsExact [] [] (kept_records (ago env.now d) s.records)
        (λ k i h. unfold lookup in ground arith) (λ i row h. ground arith) in
    (unfold kept_records in refl, split_keep (ago env.now d) s.records, exact.0, exact.1)

-- Work that leaves this row at this position.
abbrev pub Leaves : Option Work → ℕ → Record → Type 0
Leaves o i row = (w : Work) × (o ≡ some w) × (get_elem? w.0.records i ≡ some row)

expecting_row :
    (s : Store) (k : Text) (i : ℕ)
    → lookup k s.by_delivery ≡ some i
    → i < length s.records
    → expecting s k ≡ some i
unfolding expecting
expecting_row s k i e lt = ground (arith, lt→ltb i (length s.records) lt)

fold_leg-Leaves :
    (env : Env) (s : Store) (r row : Record) (i : ℕ)
    → get_elem? s.records i ≡ some row
    → Leaves (fold_leg env r i (s, [])) i (merge_delivery_leg env row r)
unfolding fold_leg snapshot put_record
fold_leg-Leaves env s r row i h =
    let new = merge_delivery_leg env row r in
    let put = get_elem?-set_self s.records i new (lt_of_get_elem? s.records i row h) in
    rw h (rw put (_, refl, put))

-- A record whose key is expected by row i is folded into row i.
add_record_expecting :
    (env : Env) (s : Store) (r row : Record) (i : ℕ)
    → lookup (key_of r) s.by_delivery ≡ some i
    → get_elem? s.records i ≡ some row
    → Leaves (add_record env r (s, [])) i (merge_delivery_leg env row r)
unfolding add_record note_origin
add_record_expecting env s r row i e h =
    let t = note_origin r s in
    let lt = lt_of_get_elem? s.records i row h in
    rw (expecting_row t (key_of r) i e lt, add_record) (fold_leg-Leaves env t r row i h)

-- The index of deliveries survives the purge while the rows move. When a delivery key led to row i
-- before the purge and a row is left at position i after it, the next record of that key is folded
-- into the row that is now at position i, whatever message that row has.
pub purge_stale_delivery :
    (env : Env) (d : Duration) (s : Store) (r row : Record) (i : ℕ)
    → lookup (key_of r) s.by_delivery ≡ some i
    → get_elem? (purge_older_than env d s).0.records i ≡ some row
    → Leaves (add_record env r ((purge_older_than env d s).0, [])) i (merge_delivery_leg env row r)
unfolding purge_older_than
purge_stale_delivery env d s r row i e h =
    add_record_expecting env (purge_older_than env d s).0 r row i e h
