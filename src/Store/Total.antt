-- ===== src/Store/Total.antt =====
-- AddRecords as a whole, from its steps.
use plv.Prelude.{
  ℕ, ◌<◌, ◌≡◌, refl, List, [], ◌∷◌, ◌++◌, Option, some, arith, length, get_elem?, get_elem?_of_lt,
  get_elem?-set_self, get_elem?-append_last, length-append, Bool-cases, Option-cases, inl, inr,
}
use plv.Go.Text.{Text}
use plv.Go.Map.{lookup, insert, lookup-insert_self}
use plv.Go.Time.{Env}
use plv.Records.{Record}
use plv.Store.{Store, key_of}
use plv.Store.Merge.{merge_delivery_leg, merge_record}
use plv.Store.Add.{
  Work, put_record, fold_leg, append_record, merge_again, expecting, add_known, note_origin,
  add_record, add_all, add_records,
}
use plv.Store.Index.{
  IsIndexed, Sub, Extends, Extends-refl, Extends-trans, Extends-put, Extends-index, Extends-append,
}
use plv.Store.Lines.{Kept-merge_delivery_leg, Kept-merge_record}
use plv.Store.Settle.{Returns, snapshot-Returns, settle-Returns}

-- The key resolves to a row that holds the lines.
abbrev pub Resolves : Store → Text → List Text → Type 0
Resolves s k ls =
    (i : ℕ) × (row : Record) × (lookup k s.by_queue_id ≡ some i)
    × (get_elem? s.records i ≡ some row)
    × Sub ls row.raw_lines

-- Adding r to s returns: the store is extended, and r's key resolves to a row with r's lines.
abbrev pub Added : Store → Record → Option Work → Type 0
Added s r o = (w : Work) × (o ≡ some w) × Extends s w.0 × Resolves w.0 (key_of r) r.raw_lines

-- From a store t that extends s, where r's key stands for row i with r's lines, a step on row i.
Added-step :
    (s t : Store) (r row : Record) (i : ℕ) (o : Option Work)
    → Extends s t
    → lookup (key_of r) t.by_queue_id ≡ some i
    → get_elem? t.records i ≡ some row
    → Sub r.raw_lines row.raw_lines
    → Returns i t o
    → Added s r o
Added-step s t r row i o x k p sub (w, e, y, keeps) =
    let (row', q, kept) = y.3 i row p in
    (w, e, Extends-trans s t w.0 x y, (i, row', keeps (key_of r) k, q, λ l m. kept.2 l (sub l m)))

append_record-Added :
    (env : Env) (r : Record) (s : Store) (up : List Record)
    → IsIndexed s
    → Added s r (append_record env r (s, up))
unfolding append_record
append_record-Added env r s up h =
    let n = length s.records in
    let t = record s {
      by_queue_id = insert (key_of r) n s.by_queue_id;
      records = s.records ++ r ∷ [];
    } in
    let x = Extends-append s (key_of r) r h in
    Added-step s t r r n _ x (lookup-insert_self (key_of r) n s.by_queue_id)
      (get_elem?-append_last s.records r) (λ l m. m)
      (settle-Returns env n r.delivery_queue_id t up x.0
        (omega (arith, length-append s.records (r ∷ []))))

merge_again-Added :
    (env : Env) (r : Record) (i : ℕ) (s : Store) (up : List Record)
    → IsIndexed s
    → lookup (key_of r) s.by_queue_id ≡ some i
    → Added s r (merge_again env r i (s, up))
unfolding merge_again
merge_again-Added env r i s up h k =
    let lt = h (key_of r) i k in
    let (dst, p) = get_elem?_of_lt s.records i lt in
    let m = merge_record dst r in
    let t = put_record s i m in
    let kept = Kept-merge_record dst r in
    let x = Extends-put s i dst m h p kept.0 in
    elim (Bool-cases dst.subsumed) [
      | inl gone ↦ rw p (rw gone (append_record-Added env r s up h))
      | inr there ↦ rw p (
          rw there (
            Added-step s t r m i _ x (unfold put_record in k)
              (unfold put_record in get_elem?-set_self s.records i m lt) kept.1
              (settle-Returns env i r.delivery_queue_id t up x.0 (omega (arith, x.1)))))
    ]

fold_leg-Added :
    (env : Env) (r : Record) (p : ℕ) (s : Store) (up : List Record)
    → IsIndexed s
    → p < length s.records
    → Added s r (fold_leg env r p (s, up))
unfolding fold_leg
fold_leg-Added env r p s up h lt =
    let (primary, q) = get_elem?_of_lt s.records p lt in
    let m = merge_delivery_leg env primary r in
    let s1 = put_record s p m in
    let kept = Kept-merge_delivery_leg env primary r in
    let x = Extends-put s p primary m h q kept.0 in
    let t = record s1 { by_queue_id = insert (key_of r) p s1.by_queue_id } in
    let y = Extends-index s1 (key_of r) p x.0 (omega (arith, x.1)) in
    rw q (
      Added-step s t r m p _ (Extends-trans s s1 t x y)
        (lookup-insert_self (key_of r) p s1.by_queue_id)
        (unfold put_record in get_elem?-set_self s.records p m lt) kept.1
        (snapshot-Returns p t up y.0 (omega (arith, x.1))))

expecting-lt : (s : Store) (k : Text) (p : ℕ) → expecting s k ≡ some p → p < length s.records
unfolding expecting
expecting-lt s k p h = ground arith

add_known-Added :
    (env : Env) (r : Record) (s : Store) (up : List Record)
    → IsIndexed s
    → Added s r (add_known env r (s, up))
unfolding add_known
add_known-Added env r s up h = elim (Option-cases (lookup (key_of r) s.by_queue_id)) [
  | inl miss ↦ rw (miss, add_known) (append_record-Added env r s up h)
  | inr (i, hit) ↦ rw (hit, add_known) (merge_again-Added env r i s up h hit)
]

pub add_record-Added :
    (env : Env) (r : Record) (s : Store) (up : List Record)
    → IsIndexed s
    → Added s r (add_record env r (s, up))
unfolding add_record note_origin
add_record-Added env r s up h =
    let s1 = note_origin r s in
    elim (Option-cases (expecting s1 (key_of r))) [
      | inl miss ↦ rw (miss, add_record) (add_known-Added env r s1 up h)
      | inr (p, hit) ↦
          rw (hit, add_record) (fold_leg-Added env r p s1 up h (expecting-lt s1 (key_of r) p hit))
    ]

-- The message is filed: its key resolves, and one row holds all its lines.
abbrev pub Filed : Store → Record → Type 0
Filed s r =
    ((j : ℕ) × (lookup (key_of r) s.by_queue_id ≡ some j))
    × ((i : ℕ) × (row : Record) × (get_elem? s.records i ≡ some row)
        × Sub r.raw_lines row.raw_lines)

abbrev pub AllFiled : Store → List Record → Type 0
AllFiled s [] = Unit {0}
AllFiled s (r ∷ rs) = Filed s r × AllFiled s rs

Filed-Extends :
    (s t : Store) (r : Record) → Resolves s (key_of r) r.raw_lines → Extends s t → Filed t r
Filed-Extends s t r (i, row, k, p, sub) x =
    let (j, q) = x.2 (key_of r) i k in
    let (row', p', kept) = x.3 i row p in ((j, q), (i, row', p', λ l m. kept.2 l (sub l m)))

pub AllFiled-Extends :
    (s t : Store) (rs : List Record) → AllFiled s rs → Extends s t → AllFiled t rs
AllFiled-Extends s t [] h x = tt
AllFiled-Extends s t (r ∷ rs) (((j, q), (i, row, p, sub)), rest) x =
    let (j', q') = x.2 (key_of r) j q in
    let (row', p', kept) = x.3 i row p in
    (((j', q'), (i, row', p', λ l m. kept.2 l (sub l m))), AllFiled-Extends s t rs rest x)

pub add_all-total :
    (env : Env) (rs : List Record) (s : Store) (up : List Record)
    → IsIndexed s
    → (w : Work) × (add_all env rs (s, up) ≡ some w) × Extends s w.0 × AllFiled w.0 rs
unfolding add_all
add_all-total env [] s up h = ((s, up), refl, Extends-refl s h, tt)
add_all-total env (r ∷ rs) s up h =
    let (w, e, x, res) = add_record-Added env r s up h in
    let (w', e', y, filed) = add_all-total env rs w.0 w.1 x.0 in
    (w', rw e e', Extends-trans s w.0 w'.0 x y, (Filed-Extends w.0 w'.0 r res y, filed))

-- On a store whose indexes are in range, adding any batch returns without reading past the end.
-- The indexes stay in range, no key stops resolving, no row loses a line or changes its message,
-- every added message's key resolves, and one row holds all the lines of each added message.
pub add_records-total :
    (env : Env) (rs : List Record) (s : Store)
    → IsIndexed s
    → (w : Work) × (add_records env rs s ≡ some w) × Extends s w.0 × AllFiled w.0 rs
unfolding add_records
add_records-total env rs s h = add_all-total env rs s [] h
