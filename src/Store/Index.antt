-- ===== src/Store/Index.antt =====
-- The invariant of the store in store.go, and the order between a store and a later one.
use plv.Prelude.{
  ℕ, ◌<◌, ◌≤◌, ◌≡◌, refl, ◌∙◌, true, List, [], ◌∷◌, ◌++◌, some, arith, length, get_elem?,
  length-set, length-append, get_elem?-set_self, get_elem?-set_ne, get_elem?-append_left,
  lt_of_get_elem?, if◌then◌else◌,
}
use native.Mathlib.Decide.{ℕ_discrete}
use plv.Go.Text.{Text, text_eq, elem}
use plv.Go.Map.{lookup, insert, lookup-insert}
use plv.Records.{Record}
use plv.Store.{Store}
use plv.Store.Add.{put_record}

-- Every index of the map of keys is that of a record.
abbrev pub IsIndexed : Store → Type 0
IsIndexed s = (k : Text) (i : ℕ) → lookup k s.by_queue_id ≡ some i → i < length s.records

abbrev pub Sub : List Text → List Text → Type 0
Sub xs ys = (l : Text) → elem l xs ≡ true → elem l ys ≡ true

-- Row r became row r': the same message, with at least its lines.
abbrev pub Kept : Record → Record → Type 0
Kept r r' = (r'.origin ≡ r.origin) × (r'.queue_id ≡ r.queue_id) × Sub r.raw_lines r'.raw_lines

abbrev pub KeepsKeys : Store → Store → Type 0
KeepsKeys s t =
    (k : Text) (i : ℕ)
    → lookup k s.by_queue_id ≡ some i
    → (j : ℕ) × (lookup k t.by_queue_id ≡ some j)

abbrev pub KeepsRows : Store → Store → Type 0
KeepsRows s t =
    (i : ℕ) (r : Record)
    → get_elem? s.records i ≡ some r
    → (r' : Record) × (get_elem? t.records i ≡ some r') × Kept r r'

abbrev pub Extends : Store → Store → Type 0
Extends s t = IsIndexed t × (length s.records ≤ length t.records) × KeepsKeys s t × KeepsRows s t

pub Extends-refl : (s : Store) → IsIndexed s → Extends s s
Extends-refl s h = (h, omega arith, λ k i p. (i, p), λ i r p. (r, p, (refl, refl, λ l q. q)))

pub Extends-trans : (s t u : Store) → Extends s t → Extends t u → Extends s u
Extends-trans s t u a b = (
  b.0,
  omega arith,
  λ k i p. let (j, q) = a.2 k i p in b.2 k j q,
  λ i r p.
      let (r1, q, x) = a.3 i r p in
      let (r2, q2, y) = b.3 i r1 q in (r2, q2, (y.0 ∙ x.0, y.1 ∙ x.1, λ l m. y.2 l (x.2 l m))),
)

pub Extends-put :
    (s : Store) (i : ℕ) (r r' : Record)
    → IsIndexed s
    → get_elem? s.records i ≡ some r
    → Kept r r'
    → Extends s (put_record s i r')
unfolding put_record
Extends-put s i r r' h p x = (
  λ k j q. omega (arith, length-set s.records i r', h k j q),
  omega (arith, length-set s.records i r'),
  λ k j q. (j, q),
  λ j r0 q. elim (ℕ_discrete i j) [
    | yes e ↦ (
      r',
      rw (← e) (get_elem?-set_self s.records i r' (lt_of_get_elem? s.records i r p)),
      ground arith,
    )
    | no ne ↦ (r0, get_elem?-set_ne s.records i j r' ne ∙ q, (refl, refl, λ l m. m))
  ],
)

pub Extends-index :
    (s : Store) (k : Text) (i : ℕ)
    → IsIndexed s
    → i < length s.records
    → Extends s (record s { by_queue_id = insert k i s.by_queue_id })
Extends-index s k i h lt = (
  λ j m q. ground (arith, lookup-insert k j i s.by_queue_id, h j m),
  omega arith,
  λ j m q. (if text_eq k j then i else m, ground (arith, lookup-insert k j i s.by_queue_id)),
  λ j r q. (r, q, (refl, refl, λ l m. m)),
)

pub Extends-append :
    (s : Store) (k : Text) (r : Record)
    → IsIndexed s
    → Extends s (record s {
      by_queue_id = insert k (length s.records) s.by_queue_id;
      records = s.records ++ r ∷ [];
    })
Extends-append s k r h = (
  λ j m q. ground (
    arith,
    lookup-insert k j (length s.records) s.by_queue_id,
    h j m,
    length-append s.records (r ∷ []),
  ),
  omega (arith, length-append s.records (r ∷ [])),
  λ j m q. (
    if text_eq k j then length s.records else m,
    ground (arith, lookup-insert k j (length s.records) s.by_queue_id),
  ),
  λ j r0 q. (
    r0,
    get_elem?-append_left s.records (r ∷ []) j (lt_of_get_elem? s.records j r0 q) ∙ q,
    (refl, refl, λ l m. m),
  ),
)
