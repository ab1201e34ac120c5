-- ===== src/Store/Resend.antt =====
-- IngestSnapshots of store.go on a snapshot that arrives twice, as one does whose acknowledgement was
-- lost.
use plv.Prelude.{
  get_elem?-set_self, get_elem?-append_last, lt_of_get_elem?, ◌<◌, ℕ, zero, suc, ◌≡◌, refl, ◌∙◌, ap,
  true, false, not, ◌||◌, List, [], ◌∷◌, ◌++◌, Option, none, some, get_elem?, set, arith,
  Bool-cases, Option-cases, if_true, if_false, inl, inr, length,
}
use mathlib.Core.Path.{sym, subst}
use plv.Go.Text.{text_eq_iff, Text, is_empty, text_eq_refl}
use plv.Go.Map.{Map, lookup, insert, lookup-insert, lookup-insert_self}
use plv.Records.{Record}
use plv.Store.{Store, key_of, delivery_key}
use plv.Store.Ingest.{
  insert_new, restore_delivery_link, list_record, is_row_of, row_of, place, stamp, ingest_one,
}

insert-insert : (k : Text) (i : ℕ) (m : Map ℕ) → insert k i (insert k i m) ≡ insert k i m
unfolding insert
insert-insert k i [] = ground (arith, text_eq_refl k)
insert-insert k i ((j, w) ∷ m) = ground (arith, insert-insert k i m, text_eq_refl k)

-- Where a key is listed, insert_new changes nothing; else it is insert.
insert_new-listed : (k : Text) (i j : ℕ) (m : Map ℕ) → lookup k m ≡ some j → insert_new k i m ≡ m
unfolding insert_new
insert_new-listed k i j m e = rw (e, insert_new) refl

insert_new-missing :
    (k : Text) (i : ℕ) (m : Map ℕ) → lookup k m ≡ none → insert_new k i m ≡ insert k i m
unfolding insert_new
insert_new-missing k i m e = rw (e, insert_new) refl

pub lookup-insert_new :
    (k j : Text) (i n : ℕ) (m : Map ℕ) → lookup j m ≡ some n → lookup j (insert_new k i m) ≡ some n
lookup-insert_new k j i n m e = elim (Option-cases (lookup k m)) [
  | inl p ↦ rw (insert_new-missing k i m p) (ground (arith, lookup-insert k j i m, text_eq_iff k j))
  | inr (i2, p) ↦ rw (insert_new-listed k i i2 m p) e
]

insert_new-insert_new :
    (k : Text) (i : ℕ) (m : Map ℕ) → insert_new k i (insert_new k i m) ≡ insert_new k i m
insert_new-insert_new k i m = elim (Option-cases (lookup k m)) [
  | inl n ↦
      rw (insert_new-missing k i m n)
        (insert_new-listed k i i (insert k i m) (lookup-insert_self k i m))
  | inr (j, p) ↦ rw (insert_new-listed k i j m p) (insert_new-listed k i j m p)
]

set-get_elem? {ℓ} :
    {A : Type ℓ} (xs : List A) (i : ℕ) (v : A) → get_elem? xs i ≡ some v → set xs i v ≡ xs
set-get_elem? [] i v h = refl
set-get_elem? (x ∷ xs) zero v h = ground arith
set-get_elem? (x ∷ xs) (suc i) v h = ap (◌∷◌ x) (set-get_elem? xs i v h)

restore-restore :
    (i : ℕ) (r : Record) (s : Store)
    → restore_delivery_link i r (restore_delivery_link i r s) ≡ restore_delivery_link i r s
unfolding restore_delivery_link
restore-restore i r s = elim (Bool-cases (is_empty r.delivery_queue_id)) [
  | inl e ↦ rw e refl
  | inr e ↦
      rw
        (
          e,
          insert-insert (delivery_key r) i s.by_delivery,
          insert_new-insert_new (delivery_key r) i s.by_queue_id,
        )
        refl
]

-- The store that `place` leaves: the row of the record is at an index, and its onward queue id was
-- entered last.
abbrev pub Placed : Record → Store → Type 0
Placed r t =
    (i : ℕ) × (u : Store) × (t ≡ restore_delivery_link i r u)
    × (lookup (key_of r) u.by_queue_id ≡ some i)
    × (get_elem? u.records i ≡ some r)

row_of-found :
    (s : Store) (r : Record) (i : ℕ)
    → row_of s r ≡ some i
    → (lookup (key_of r) s.by_queue_id ≡ some i) × (i < length s.records)
unfolding row_of
row_of-found s r i e = elim (Option-cases (lookup (key_of r) s.by_queue_id)) [
  | inl n ↦ absurd (ground arith)
  | inr (j, p) ↦ elim (Option-cases (get_elem? s.records j)) [
    | inl n ↦ absurd (ground arith)
    | inr (row, q) ↦ ground (arith, lt_of_get_elem? s.records j row q)
  ]
]

pub row_of-listed :
    (s : Store) (r : Record) (i : ℕ)
    → r.subsumed ≡ false
    → lookup (key_of r) s.by_queue_id ≡ some i
    → get_elem? s.records i ≡ some r
    → row_of s r ≡ some i
unfolding row_of is_row_of
row_of-listed s r i n e p =
    rw (row_of, e, p, text_eq_refl r.origin, text_eq_refl r.queue_id, n) refl

pub place-Placed : (r : Record) (s : Store) (x : Option ℕ) → row_of s r ≡ x → Placed r (place r s)
unfolding place list_record
place-Placed r s none e = (
  length s.records,
  record s {
    by_queue_id = insert (key_of r) (length s.records) s.by_queue_id;
    records = s.records ++ r ∷ [];
  },
  rw (place, e) refl,
  lookup-insert_self (key_of r) (length s.records) s.by_queue_id,
  get_elem?-append_last s.records r,
)
place-Placed r s (some i) e =
    let (p, lt) = row_of-found s r i e in
    (
      i,
      record s { records = set s.records i r },
      rw (place, e) refl,
      p,
      get_elem?-set_self s.records i r lt,
    )

restore_same :
    (i : ℕ) (r : Record) (s : Store)
    → get_elem? s.records i ≡ some r
    → restore_delivery_link i r (record s { records = set s.records i r })
      ≡ restore_delivery_link i r s
restore_same i r s p =
    ap (λ rs. restore_delivery_link i r (record s { records = rs })) (set-get_elem? s.records i r p)

-- What the link leaves as it was.
pub records-restore :
    (i : ℕ) (r : Record) (s : Store) → (restore_delivery_link i r s).records ≡ s.records
unfolding restore_delivery_link
records-restore i r s = elim (Bool-cases (is_empty r.delivery_queue_id)) [
  | inl e ↦ rw e refl
  | inr e ↦ rw e refl
]

pub lookup-restore :
    (i : ℕ) (r : Record) (s : Store)
    → lookup (key_of r) s.by_queue_id ≡ some i
    → lookup (key_of r) (restore_delivery_link i r s).by_queue_id ≡ some i
unfolding restore_delivery_link
lookup-restore i r s p = elim (Bool-cases (is_empty r.delivery_queue_id)) [
  | inl e ↦ rw e p
  | inr e ↦ rw e (lookup-insert_new (delivery_key r) (key_of r) i i s.by_queue_id p)
]

pub place-found :
    (r : Record) (s : Store) (i : ℕ)
    → row_of s r ≡ some i
    → place r s ≡ restore_delivery_link i r (record s { records = set s.records i r })
unfolding place
place-found r s i e = rw (place, e) refl

place_linked :
    (i : ℕ) (r : Record) (u : Store)
    → r.subsumed ≡ false
    → lookup (key_of r) u.by_queue_id ≡ some i
    → get_elem? u.records i ≡ some r
    → place r (restore_delivery_link i r u) ≡ restore_delivery_link i r u
place_linked i r u n p q =
    let t = restore_delivery_link i r u in
    let q2 : get_elem? t.records i ≡ some r = rw (records-restore i r u) q in
    place-found r t i (row_of-listed t r i n (lookup-restore i r u p) q2)
    ∙ restore_same i r t q2
    ∙ restore-restore i r u

place_again : (r : Record) (s : Store) → r.subsumed ≡ false → place r (place r s) ≡ place r s
place_again r s n =
    let (i, u, e, p, q) = place-Placed r s (row_of s r) refl in
    subst (λ t. place r t ≡ t) (sym e) (place_linked i r u n p q)

-- What a batch from a named server sets.
abbrev pub touch : Text → Store → Store
touch origin s = record s { has_origins = not (is_empty origin) || s.has_origins }

touch_same :
    (origin : Text) (s : Store)
    → (not (is_empty origin) || s.has_origins) ≡ s.has_origins
    → touch origin s ≡ s
touch_same origin s e = ap (λ b. record s { has_origins = b }) e

has_origins-restore :
    (i : ℕ) (r : Record) (s : Store) → (restore_delivery_link i r s).has_origins ≡ s.has_origins
unfolding restore_delivery_link
has_origins-restore i r s = elim (Bool-cases (is_empty r.delivery_queue_id)) [
  | inl e ↦ rw e refl
  | inr e ↦ rw e refl
]

has_origins-place :
    (r : Record) (s : Store) (x : Option ℕ)
    → row_of s r ≡ x
    → (place r s).has_origins ≡ s.has_origins
unfolding place list_record
has_origins-place r s none e = rw (place, e, list_record) (has_origins-restore _ r _)
has_origins-place r s (some i) e = rw (place, e) (has_origins-restore i r _)

touch_again :
    (origin : Text) (s t : Store)
    → t.has_origins ≡ (touch origin s).has_origins
    → touch origin t ≡ t
touch_again origin s t e = touch_same origin t (rw e (ground arith))

pub ingest_one-subsumed :
    (origin : Text) (r : Record) (s : Store)
    → r.subsumed ≡ true
    → ingest_one origin r s ≡ touch origin s
unfolding ingest_one
ingest_one-subsumed origin r s e = if_true r.subsumed _ _ e

pub ingest_one-listed :
    (origin : Text) (r : Record) (s : Store)
    → r.subsumed ≡ false
    → ingest_one origin r s ≡ place (stamp origin r) (touch origin s)
unfolding ingest_one
ingest_one-listed origin r s e = if_false r.subsumed _ _ e

-- A snapshot that arrives again is taken as it was the first time: the store does not change.
pub ingest_one_again :
    (origin : Text) (r : Record) (s : Store)
    → ingest_one origin r (ingest_one origin r s) ≡ ingest_one origin r s
unfolding stamp
ingest_one_again origin r s = elim (Bool-cases r.subsumed) [
  | inl e ↦
      rw (ingest_one-subsumed origin r s e, ingest_one-subsumed origin r (touch origin s) e)
        (touch_again origin s (touch origin s) refl)
  | inr e ↦
      let placed = place (stamp origin r) (touch origin s) in
      let kept = has_origins-place (stamp origin r) (touch origin s) _ refl in
      rw
        (
          ingest_one-listed origin r s e,
          ingest_one-listed origin r placed e,
          touch_again origin s placed kept,
        )
        (place_again (stamp origin r) (touch origin s) e)
]
