-- ===== src/Store/Rows.antt =====
-- The row that IngestSnapshots of store.go finds for a snapshot, and how a snapshot of the same server
-- leaves the rows of the others findable.
use plv.Prelude.{
  ℕ, ◌≡◌, refl, ◌∙◌, sym, true, false, List, [], ◌∷◌, ◌++◌, Option, none, some, get_elem?, set,
  arith, Bool-cases, Option-cases, inl, inr, length, lt_of_get_elem?, get_elem?-append_left, ◌==◌,
  get_elem?-set_self, get_elem?-set_ne,
}
use mathlib.Core.Path.{subst}
use mathlib.Core.Option.{some-injective}
use plv.Go.Text.{Text, is_empty, text_eq, text_eq_iff}
use plv.Go.Map.{lookup, insert, lookup-insert}
use plv.Records.{Record}
use plv.Store.{Store, rec_key, key_of, delivery_key}
use plv.Store.Ingest.{
  restore_delivery_link, list_record, is_row_of, row_of, place, stamp, ingest_one, ingest_all,
}
use plv.Store.Resend.{
  lookup-insert_new, records-restore, place-Placed, row_of-listed, lookup-restore,
  ingest_one-subsumed, ingest_one-listed, touch,
}

-- A snapshot has a row.
abbrev pub IsListed : Record → Store → Type 0
IsListed q s = (i : ℕ) × (row_of s q ≡ some i)

pub row_of-Row :
    (s : Store) (r : Record) (i : ℕ)
    → row_of s r ≡ some i
    → (row : Record) × (lookup (key_of r) s.by_queue_id ≡ some i)
      × (get_elem? s.records i ≡ some row)
      × (is_row_of r row ≡ true)
unfolding row_of
row_of-Row s r i e = elim (Option-cases (lookup (key_of r) s.by_queue_id)) [
  | inl n ↦ absurd (ground arith)
  | inr (j, p) ↦ elim (Option-cases (get_elem? s.records j)) [
    | inl n ↦ absurd (ground arith)
    | inr (row, q) ↦ (row, ground arith, ground arith, ground arith)
  ]
]

row_of-intro :
    (s : Store) (r : Record) (i : ℕ) (row : Record)
    → lookup (key_of r) s.by_queue_id ≡ some i
    → get_elem? s.records i ≡ some row
    → is_row_of r row ≡ true
    → row_of s r ≡ some i
unfolding row_of
row_of-intro s r i row p q h = rw (row_of, p, q, h) refl

-- The same name and queue id mean the same row.
row_of_same :
    (s : Store) (r q : Record)
    → r.origin ≡ q.origin
    → r.queue_id ≡ q.queue_id
    → row_of s r ≡ row_of s q
unfolding row_of is_row_of key_of
row_of_same s r q o e = rw (o, e) refl

append_cancel : (o s t : Text) → o ++ s ≡ o ++ t → s ≡ t
append_cancel [] s t h = h
append_cancel (c ∷ o) s t h = append_cancel o s t (ground arith)

key_of_inj : (r q : Record) → r.origin ≡ q.origin → key_of r ≡ key_of q → r.queue_id ≡ q.queue_id
unfolding key_of rec_key
key_of_inj r q o e =
    let k : q.origin ++ 0 ∷ r.queue_id ≡ q.origin ++ 0 ∷ q.queue_id =
      subst (λ t. t ++ 0 ∷ r.queue_id ≡ q.origin ++ 0 ∷ q.queue_id) o e in
    let tails = append_cancel q.origin (0 ∷ r.queue_id) (0 ∷ q.queue_id) k in ground arith

restore-IsListed :
    (i : ℕ) (r q : Record) (s : Store) → IsListed q s → IsListed q (restore_delivery_link i r s)
unfolding restore_delivery_link
restore-IsListed i r q s (j, e) =
    let (row, p, g, h) = row_of-Row s q j e in
    elim (Bool-cases (is_empty r.delivery_queue_id)) [
      | inl n ↦ rw n (j, e)
      | inr n ↦ rw n (
        j,
        row_of-intro _ q j row (lookup-insert_new (delivery_key r) (key_of q) i j s.by_queue_id p) g
            h,
      )
    ]

-- The row that r replaces, if it is the one of q, is the one of q still.
is_row_of_both :
    (r q row : Record)
    → r.subsumed ≡ false
    → is_row_of r row ≡ true
    → is_row_of q row ≡ true
    → is_row_of q r ≡ true
unfolding is_row_of
is_row_of_both r q row n hr hq = ground (
  arith,
  text_eq_iff row.origin r.origin,
  text_eq_iff row.origin q.origin,
  text_eq_iff r.origin q.origin,
  text_eq_iff row.queue_id r.queue_id,
  text_eq_iff row.queue_id q.queue_id,
  text_eq_iff r.queue_id q.queue_id,
)

replace-IsListed :
    (s : Store) (r q : Record) (i : ℕ)
    → r.subsumed ≡ false
    → row_of s r ≡ some i
    → IsListed q s
    → IsListed q (record s { records = set s.records i r })
replace-IsListed s r q i n e (j, f) =
    let (row, p, g, h) = row_of-Row s q j f in
    let (mine, k, gm, hm) = row_of-Row s r i e in
    let t : Store = record s { records = set s.records i r } in
    elim (Bool-cases (i == j)) [
      | inl x ↦
          let y : i ≡ j = ground arith in
          let gj = subst (λ z. get_elem? s.records z ≡ some mine) y gm in
          let one : mine ≡ row = some-injective mine row (sym gj ∙ g) in
          (
            i,
            row_of-intro t q i r (subst (λ z. lookup (key_of q) s.by_queue_id ≡ some z) (sym y) p)
                (get_elem?-set_self s.records i r (lt_of_get_elem? s.records i mine gm))
                (is_row_of_both r q row n (subst (λ z. is_row_of r z ≡ true) one hm) h),
          )
      | inr x ↦
          (j, row_of-intro t q j row p (get_elem?-set_ne s.records i j r (λ y. ground arith) ∙ g) h)
    ]

-- A snapshot that has no row is listed under another key than one that has.
lookup-other :
    (s : Store) (r q : Record) (i j : ℕ)
    → r.origin ≡ q.origin
    → row_of s r ≡ none
    → row_of s q ≡ some j
    → lookup (key_of q) (insert (key_of r) i s.by_queue_id) ≡ lookup (key_of q) s.by_queue_id
lookup-other s r q i j o e f = elim (Bool-cases (text_eq (key_of r) (key_of q))) [
  | inl x ↦
      let same = key_of_inj r q o ((text_eq_iff (key_of r) (key_of q)).0 x) in
      let both = row_of_same s r q o same in absurd (ground arith)
  | inr x ↦ ground (arith, lookup-insert (key_of r) (key_of q) i s.by_queue_id)
]

list-IsListed :
    (s : Store) (r q : Record)
    → r.origin ≡ q.origin
    → row_of s r ≡ none
    → IsListed q s
    → IsListed q (list_record r s)
unfolding list_record
list-IsListed s r q o e (j, f) =
    let (row, p, g, h) = row_of-Row s q j f in
    restore-IsListed (length s.records) r q _ (
      j,
      row_of-intro _ q j row (lookup-other s r q (length s.records) j o e f ∙ p)
          (get_elem?-append_left s.records (r ∷ []) j (lt_of_get_elem? s.records j row g) ∙ g) h,
    )

place-IsListed :
    (s : Store) (r q : Record) (x : Option ℕ)
    → r.origin ≡ q.origin
    → r.subsumed ≡ false
    → row_of s r ≡ x
    → IsListed q s
    → IsListed q (place r s)
unfolding place
place-IsListed s r q none o n e l = rw (place, e) (list-IsListed s r q o e l)
place-IsListed s r q (some i) o n e l =
    rw (place, e) (restore-IsListed i r q _ (replace-IsListed s r q i n e l))

place_self : (s : Store) (r : Record) → r.subsumed ≡ false → IsListed r (place r s)
place_self s r n =
    let (i, u, e, p, q) = place-Placed r s (row_of s r) refl in
    rw e (i, row_of-listed _ r i n (lookup-restore i r u p) (rw (records-restore i r u) q))

IsListed-touch :
    (origin : Text) (q : Record) (s : Store) → IsListed q s → IsListed q (touch origin s)
unfolding row_of
IsListed-touch origin q s l = l

ingest_one-IsListed :
    (origin : Text) (r q : Record) (s : Store)
    → IsListed (stamp origin q) s
    → IsListed (stamp origin q) (ingest_one origin r s)
unfolding stamp
ingest_one-IsListed origin r q s l = elim (Bool-cases r.subsumed) [
  | inl e ↦ rw (ingest_one-subsumed origin r s e) (IsListed-touch origin (stamp origin q) s l)
  | inr e ↦ rw (ingest_one-listed origin r s e) (
      place-IsListed (touch origin s) (stamp origin r) (stamp origin q) _ refl e refl
        (IsListed-touch origin (stamp origin q) s l))
]

pub ingest_all-IsListed :
    (origin : Text) (rs : List Record) (q : Record) (s : Store)
    → IsListed (stamp origin q) s
    → IsListed (stamp origin q) (ingest_all origin rs s)
unfolding ingest_all
ingest_all-IsListed origin [] q s l = l
ingest_all-IsListed origin (r ∷ rs) q s l =
    ingest_all-IsListed origin rs q (ingest_one origin r s) (ingest_one-IsListed origin r q s l)

pub ingest_one_self :
    (origin : Text) (r : Record) (s : Store)
    → r.subsumed ≡ false
    → IsListed (stamp origin r) (ingest_one origin r s)
unfolding stamp
ingest_one_self origin r s n =
    rw (ingest_one-listed origin r s n) (place_self (touch origin s) (stamp origin r) n)
