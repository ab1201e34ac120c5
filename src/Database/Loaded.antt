-- ===== src/Database/Loaded.antt =====
-- LoadFromDB of store.go: which records of a list get their row, and keep it.
use plv.Prelude.{
  ◌<◌, length-append, ℕ, ◌≡◌, refl, sym, ◌∙◌, ◌⊎◌, inl, inr, Bool, false, ◌&&◌, ◌||◌, not, List, [],
  ◌∷◌, none, some, if_true, if_false, Bool-cases, Option-cases, arith, length, any, get_elem?,
  get_elem?-append_last, get_elem?-append_left, lt_of_get_elem?,
}
use mathlib.Core.Path.{subst}
use mathlib.Core.Option.{some-injective}
use plv.Go.Text.{Text, is_empty, text_eq, text_eq_iff}
use plv.Store.Index.{IsIndexed}
use plv.Go.Map.{Map, insert, lookup, lookup-insert, lookup-insert_self}
use plv.Records.{Record}
use plv.Store.{Store, key_of, delivery_key}
use plv.Store.Ingest.{load_record, load_records, list_record, restore_delivery_link, insert_new}
use plv.Store.Resend.{lookup-insert_new}
use plv.Database.Keys.{first_key}

-- The record's own row, found under its key.
abbrev pub IsLoaded : Record → Store → Type 0
IsLoaded r s =
    (i : ℕ) × (lookup (key_of r) s.by_queue_id ≡ some i) × (get_elem? s.records i ≡ some r)

touched : Record → Store → Store
touched q s = record s { has_origins = not (is_empty q.origin) || s.has_origins }

load_record_cases :
    (s : Store) (q : Record)
    → (load_record s q ≡ touched q s)
      ⊎ ((lookup (key_of q) s.by_queue_id ≡ none) × (load_record s q ≡ list_record q (touched q s)))
unfolding load_record touched
load_record_cases s q = elim (Bool-cases q.subsumed) [
  | inl e ↦ inl (if_true q.subsumed _ _ e)
  | inr e ↦ elim (Option-cases (lookup (key_of q) s.by_queue_id)) [
    | inl n ↦ inr (n, if_false q.subsumed _ _ e ∙ rw n refl)
    | inr (i, n) ↦ inl (if_false q.subsumed _ _ e ∙ rw n refl)
  ]
]

load_record_new :
    (s : Store) (q : Record)
    → q.subsumed ≡ false
    → lookup (key_of q) s.by_queue_id ≡ none
    → load_record s q ≡ list_record q (touched q s)
unfolding load_record touched
load_record_new s q e n = if_false q.subsumed _ _ e ∙ rw n refl

-- The delivery link adds at most its own key.
lookup-restore_new :
    (i j : ℕ) (k : Text) (q : Record) (s : Store)
    → lookup k s.by_queue_id ≡ some j
    → lookup k (restore_delivery_link i q s).by_queue_id ≡ some j
unfolding restore_delivery_link
lookup-restore_new i j k q s h = elim (Bool-cases (is_empty q.delivery_queue_id)) [
  | inl e ↦ rw e h
  | inr e ↦ rw e (lookup-insert_new (delivery_key q) k i j s.by_queue_id h)
]

records-restore_new :
    (i : ℕ) (q : Record) (s : Store) → (restore_delivery_link i q s).records ≡ s.records
unfolding restore_delivery_link
records-restore_new i q s = elim (Bool-cases (is_empty q.delivery_queue_id)) [
  | inl e ↦ rw e refl
  | inr e ↦ rw e refl
]

-- The onward queue id of the record is another key.
unfoldable pub leads_to : Text → Record → Bool
leads_to k q = not (is_empty q.delivery_queue_id) && text_eq (delivery_key q) k

lookup-restore_none :
    (i : ℕ) (k : Text) (q : Record) (s : Store)
    → leads_to k q ≡ false
    → lookup k s.by_queue_id ≡ none
    → lookup k (restore_delivery_link i q s).by_queue_id ≡ none
unfolding restore_delivery_link insert_new leads_to
lookup-restore_none i k q s l h = elim (Bool-cases (is_empty q.delivery_queue_id)) [
  | inl e ↦ rw e h
  | inr e ↦ elim (Option-cases (lookup (delivery_key q) s.by_queue_id)) [
    | inl n ↦
        rw (restore_delivery_link, e, insert_new, n)
          (ground (arith, lookup-insert (delivery_key q) k i s.by_queue_id))
    | inr (j, n) ↦ rw (restore_delivery_link, e, insert_new, n) h
  ]
]

list_record_self : (r : Record) (s : Store) → IsLoaded r (list_record r s)
unfolding list_record
list_record_self r s = (
  length s.records,
  lookup-restore_new (length s.records) (length s.records) (key_of r) r _
      (lookup-insert_self (key_of r) (length s.records) s.by_queue_id),
  rw records-restore_new (get_elem?-append_last s.records r),
)

list_record-IsLoaded :
    (r q : Record) (s : Store)
    → lookup (key_of q) s.by_queue_id ≡ none
    → IsLoaded r s
    → IsLoaded r (list_record q s)
unfolding list_record
list_record-IsLoaded r q s n (i, e, g) = (
  i,
  lookup-restore_new (length s.records) i (key_of r) q _ (
      ground (
        arith,
        lookup-insert (key_of q) (key_of r) (length s.records) s.by_queue_id,
        text_eq_iff (key_of q) (key_of r),
      )),
  rw records-restore_new
      (get_elem?-append_left s.records (q ∷ []) i (lt_of_get_elem? s.records i r g) ∙ g),
)

load_record-IsLoaded : (r q : Record) (s : Store) → IsLoaded r s → IsLoaded r (load_record s q)
unfolding touched
load_record-IsLoaded r q s h = elim (load_record_cases s q) [
  | inl e ↦ rw e h
  | inr (n, e) ↦ rw e (list_record-IsLoaded r q (touched q s) n h)
]

load_records-IsLoaded :
    (r : Record) (l : List Record) (s : Store) → IsLoaded r s → IsLoaded r (load_records s l)
unfolding load_records
load_records-IsLoaded r [] s h = h
load_records-IsLoaded r (q ∷ l) s h =
    load_records-IsLoaded r l (load_record s q) (load_record-IsLoaded r q s h)

-- A key that neither the record nor its onward id has stays free.
load_record_free :
    (k : Text) (q : Record) (s : Store)
    → text_eq (key_of q) k ≡ false
    → leads_to k q ≡ false
    → lookup k s.by_queue_id ≡ none
    → lookup k (load_record s q).by_queue_id ≡ none
unfolding touched list_record
load_record_free k q s a b h = elim (load_record_cases s q) [
  | inl e ↦ rw e h
  | inr (n, e) ↦ rw e (
      lookup-restore_none (length s.records) k q _ b
        (ground (arith, lookup-insert (key_of q) k (length s.records) s.by_queue_id)))
]

-- The first record of a free key is loaded, unless another one leads to the key.
pub load_records_first :
    (r : Record) (l : List Record) (s : Store)
    → lookup (key_of r) s.by_queue_id ≡ none
    → r.subsumed ≡ false
    → first_key (key_of r) l ≡ some r
    → any (leads_to (key_of r)) l ≡ false
    → IsLoaded r (load_records s l)
unfolding load_records first_key
load_records_first r [] s n h f a = absurd (ground arith)
load_records_first r (q ∷ l) s n h f a = elim (Bool-cases (text_eq (key_of q) (key_of r))) [
  | inl e ↦
      let same = some-injective q r (sym (if_true (text_eq (key_of q) (key_of r)) _ _ e) ∙ f) in
      load_records-IsLoaded r l (load_record s q) (
        subst (λ z. IsLoaded r (load_record s z)) (sym same)
          (rw (load_record_new s r h n) (list_record_self r (touched r s))))
  | inr e ↦
      load_records_first r l (load_record s q) (load_record_free (key_of r) q s e (ground arith) n)
        h (sym (if_false (text_eq (key_of q) (key_of r)) _ _ e) ∙ f) (ground arith)
]

insert_new-cases :
    (k j : Text) (i n : ℕ) (m : Map ℕ)
    → lookup j (insert_new k i m) ≡ some n
    → (n ≡ i) ⊎ (lookup j m ≡ some n)
unfolding insert_new
insert_new-cases k j i n m h = elim (Option-cases (lookup k m)) [
  | inl e ↦
      let g : lookup j (insert k i m) ≡ some n = rw (insert_new, e) at h in
      elim (Bool-cases (text_eq k j)) [
        | inl same ↦ inl (ground (arith, lookup-insert k j i m))
        | inr other ↦ inr (ground (arith, lookup-insert k j i m))
      ]
  | inr (x, e) ↦ inr (rw (insert_new, e) at h)
]

restore_delivery_link-IsIndexed :
    (i : ℕ) (q : Record) (s : Store)
    → i < length s.records
    → IsIndexed s
    → IsIndexed (restore_delivery_link i q s)
unfolding restore_delivery_link
restore_delivery_link-IsIndexed i q s lt h = elim (Bool-cases (is_empty q.delivery_queue_id)) [
  | inl e ↦ rw e h
  | inr e ↦ rw e (λ k n p. elim (insert_new-cases (delivery_key q) k i n s.by_queue_id p) [
    | inl x ↦ omega (arith, x, lt)
    | inr x ↦ h k n x
  ])
]

list_record-IsIndexed : (q : Record) (s : Store) → IsIndexed s → IsIndexed (list_record q s)
unfolding list_record
list_record-IsIndexed q s h =
    restore_delivery_link-IsIndexed (length s.records) q _
      (omega (arith, length-append s.records (q ∷ [])))
      (λ k n p. ground (
        arith,
        length-append s.records (q ∷ []),
        lookup-insert (key_of q) k (length s.records) s.by_queue_id,
        h k n,
      ))

load_record-IsIndexed : (q : Record) (s : Store) → IsIndexed s → IsIndexed (load_record s q)
unfolding touched
load_record-IsIndexed q s h = elim (load_record_cases s q) [
  | inl e ↦ rw e h
  | inr (n, e) ↦ rw e (list_record-IsIndexed q (touched q s) h)
]

-- Loading keeps every index in range.
pub load_records-IsIndexed :
    (l : List Record) (s : Store) → IsIndexed s → IsIndexed (load_records s l)
unfolding load_records
load_records-IsIndexed [] s h = h
load_records-IsIndexed (q ∷ l) s h =
    load_records-IsIndexed l (load_record s q) (load_record-IsIndexed q s h)
