-- ===== src/Store/Settle.antt =====
-- The steps of AddRecords in store.go, one by one.
use plv.Prelude.{
  ◌∷◌, [], List, ◌++◌, if◌then◌else◌, Bool-cases, inr, inl, Option-cases, ◌≢◌, ◌⊎◌, List, ◌≡◌, refl,
  ◌<◌, ℕ, true, Option, none, some, arith, length, get_elem?, get_elem?_of_lt, lt_of_get_elem?,
  get_elem?-set_ne, ◌==◌, ◌∙◌,
}
use plv.Go.Text.{Text, is_empty}
use plv.Go.Map.{delete, lookup, insert, lookup-insert}
use plv.Go.Time.{Env}
use plv.Go.Time.Parse.{◌>>=◌}
use plv.Records.{Record}
use plv.Rspamd.{enrich_with_rspamd}
use plv.Store.{Store, delivery_key, persisting}
use plv.Store.Merge.{merge_delivery_leg}
use plv.Store.Add.{
  Work, put_record, snapshot, subsume, standalone_leg, register_delivery, apply_pending, settle,
}
use plv.Store.Index.{IsIndexed, Extends, Extends-refl, Extends-trans, Extends-put, Extends-index}
use plv.Store.Lines.{Kept-merge_delivery_leg, Kept-enrich}

-- Keys of row i are keys of row i afterwards.
abbrev pub KeepsIndex : ℕ → Store → Store → Type 0
KeepsIndex i s t = (k : Text) → lookup k s.by_queue_id ≡ some i → lookup k t.by_queue_id ≡ some i

-- A step on row i of a store returns, with the store extended.
abbrev pub Returns : ℕ → Store → Option Work → Type 0
Returns i s o = (w : Work) × (o ≡ some w) × Extends s w.0 × KeepsIndex i s w.0

pub snapshot-Returns :
    (i : ℕ) (s : Store) (up : List Record)
    → IsIndexed s
    → i < length s.records
    → Returns i s (snapshot i (s, up))
unfolding snapshot
snapshot-Returns i s up h lt =
    let (r, p) = get_elem?_of_lt s.records i lt in
    ((s, if persisting s then up ++ r ∷ [] else up), rw (p, ◌>>=◌), Extends-refl s h, λ k q. q)

KeepsIndex-insert :
    (i : ℕ) (k : Text) (s : Store)
    → KeepsIndex i s (record s { by_queue_id = insert k i s.by_queue_id })
KeepsIndex-insert i k s j q = ground (arith, lookup-insert k j i s.by_queue_id)

Extends-subsume :
    (env : Env) (i o : ℕ) (r leg : Record) (s : Store) (up : List Record)
    → IsIndexed s
    → get_elem? s.records i ≡ some r
    → get_elem? s.records o ≡ some leg
    → i ≢ o
    → Extends s (subsume env i r o leg (s, up)).0
unfolding subsume put_record
Extends-subsume env i o r leg s up h p q ne =
    let m = merge_delivery_leg env r leg in
    let s1 = put_record s i m in
    let a = Extends-put s i r m h p (Kept-merge_delivery_leg env r leg).0 in
    let gone = record leg { subsumed = true } in
    let b =
      Extends-put s1 o leg gone a.0 (get_elem?-set_ne s.records i o m ne ∙ q)
        (refl, refl, λ l x. x) in
    let s2 = put_record s1 o gone in
    let lt = lt_of_get_elem? s.records i r p in
    let c = Extends-index s2 (delivery_key r) i b.0 (omega (arith, a.1, b.1)) in
    let s3 = record s2 { by_queue_id = insert (delivery_key r) i s2.by_queue_id } in
    Extends-trans s s1 s3 a (Extends-trans s1 s2 s3 b c)

standalone_leg-cases :
    (s : Store) (i : ℕ) (k : Text)
    → IsIndexed s
    → (standalone_leg s i k ≡ some none)
      ⊎ ((o : ℕ) × (leg : Record) × (standalone_leg s i k ≡ some (some (o, leg)))
          × (i ≢ o)
          × (get_elem? s.records o ≡ some leg))
unfolding standalone_leg
standalone_leg-cases s i k h = elim (Option-cases (lookup k s.by_queue_id)) [
  | inl miss ↦ inl (ground arith)
  | inr (o, hit) ↦
      let (leg, q) = get_elem?_of_lt s.records o (h k o hit) in
      elim (Bool-cases (o == i)) [
        | inl same ↦ inl (ground arith)
        | inr other ↦ elim (Bool-cases leg.subsumed) [
          | inl gone ↦ inl (ground arith)
          | inr there ↦ inr (o, leg, ground arith, ground arith, q)
        ]
      ]
]

pub register_delivery-Returns :
    (env : Env) (i : ℕ) (s : Store) (up : List Record)
    → IsIndexed s
    → i < length s.records
    → Returns i s (register_delivery env i (s, up))
unfolding register_delivery
register_delivery-Returns env i s up h lt =
    let (r, p) = get_elem?_of_lt s.records i lt in
    let s1 = record s { by_delivery = insert (delivery_key r) i s.by_delivery } in
    elim (standalone_leg-cases s1 i (delivery_key r) h) [
      | inl e ↦ ((s1, up), rw (p, e), Extends-refl s h, λ k q. q)
      | inr (o, leg, e, ne, q) ↦ (
        subsume env i r o leg (s1, up),
        rw (p, e),
        Extends-subsume env i o r leg s1 up h p q ne,
        unfold subsume in KeepsIndex-insert i (delivery_key r) s,
      )
    ]

pub apply_pending-Returns :
    (i : ℕ) (s : Store) (up : List Record)
    → IsIndexed s
    → i < length s.records
    → Returns i s (apply_pending i (s, up))
unfolding apply_pending
apply_pending-Returns i s up h lt =
    let (r, p) = get_elem?_of_lt s.records i lt in
    elim (Option-cases (lookup r.queue_id s.rspamd_pending)) [
      | inl miss ↦ ((s, up), ground arith, Extends-refl s h, λ k q. q)
      | inr (v, hit) ↦ (
        (
          record (put_record s i (enrich_with_rspamd r v)) {
            rspamd_pending = delete r.queue_id s.rspamd_pending;
          },
          up,
        ),
        ground arith,
        Extends-put s i r (enrich_with_rspamd r v) h p (Kept-enrich r v),
        unfold put_record in λ k q. q,
      )
    ]

-- Steps on row i one after the other.
Returns-bind :
    (i : ℕ) (s : Store) (o : Option Work) (f : Work → Option Work)
    → Returns i s o
    → ((w : Work) → Extends s w.0 → Returns i w.0 (f w))
    → Returns i s (o >>= f)
Returns-bind i s o f (w, e, x, k) g =
    let (w2, e2, y, k2) = g w x in (w2, rw e e2, Extends-trans s w.0 w2.0 x y, λ j q. k2 j (k j q))

pub settle-Returns :
    (env : Env) (i : ℕ) (did : Text) (s : Store) (up : List Record)
    → IsIndexed s
    → i < length s.records
    → Returns i s (settle env i did (s, up))
unfolding settle
settle-Returns env i did s up h lt =
    Returns-bind i s (if is_empty did then some (s, up) else register_delivery env i (s, up)) _
      (elim (Bool-cases (is_empty did)) [
        | inl e ↦ rw e ((s, up), refl, Extends-refl s h, λ k q. q)
        | inr e ↦ rw e (register_delivery-Returns env i s up h lt)
      ])
      λ w x.
        Returns-bind i w.0 (apply_pending i w) _
          (apply_pending-Returns i w.0 w.1 x.0 (omega (arith, x.1)))
          λ w2 y. snapshot-Returns i w2.0 w2.1 y.0 (omega (arith, x.1, y.1))
