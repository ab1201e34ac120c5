-- ===== src/Database/Upsert.antt =====
-- UpsertRecords of db.go: what the table holds afterwards, whatever calls of the server fail.
use plv.Prelude.{
  ℕ, zero, suc, ◌+◌, ◌*◌, ◌≤◌, ◌≡◌, refl, ap, ◌∙◌, ◌⊎◌, inl, inr, Bool, true, false, List, [], ◌∷◌,
  ◌++◌, arith, length, take, drop, take-append-drop, length-drop,
}
use mathlib.Core.Path.{subst}
use plv.Records.{Record}
use plv.Database.{Row, Postgres, upsert_batch, upsert_batches, batches, batch_size, upsert_records}
use plv.Database.Laws.{IsPostgres}
use plv.Database.Views.{view, replay, replay-append, take_nil, take-add}
use plv.Database.Atomic.{and_then_cases, IsAtomic, upsert_batch-IsAtomic}

module _ {D : Type 0} (pg : Postgres D) (laws : IsPostgres pg) where
  open laws use {keep_time, saved}

  -- A whole number of batches is in the table, and all of them if there was no error.
  abbrev IsPrefix : ℕ → List Record → List Row → D × Bool → Type 0
  IsPrefix size rs before w =
      (m : ℕ) × (view (saved w.0) ≡ replay keep_time (take (m * size) rs) (view before))
      × ((w.1 ≡ false) ⊎ (take (m * size) rs ≡ rs))

  nothing_written :
      (size : ℕ) (before : List Row) (w : D × Bool) → saved w.0 ≡ before → IsPrefix size [] before w
  unfolding replay
  nothing_written size before w e =
      (0, rw (take_nil (0 * size)) (ap view e), inr (take_nil (0 * size)))

  -- The first batch failed.
  only_one :
      (size : ℕ) (l : List Record) (before : List Row) (w : D × Bool)
      → w.1 ≡ false
      → IsAtomic pg laws (take size l) before w
      → IsPrefix size l before w
  only_one size l before w k (inl e) = (
    1,
    subst (λ z. view (saved w.0) ≡ replay keep_time (take z l) (view before)) (omega arith) e,
    inl k,
  )
  only_one size l before w k (inr (bad, e)) =
      let z : 0 ≡ 0 * size = omega arith in
      (
        0,
        subst (λ z. view (saved w.0) ≡ replay keep_time (take z l) (view before)) z
            (unfold replay in ap view e),
        inl k,
      )

  -- The first batch is in the table, and the others ended in w.
  one_more :
      (size : ℕ) (l : List Record) (before : List Row) (first w : D × Bool)
      → first.1 ≡ true
      → IsAtomic pg laws (take size l) before first
      → IsPrefix size (drop size l) (saved first.0) w
      → IsPrefix size l before w
  one_more size l before first w k (inr (bad, e)) next = absurd (ground arith)
  one_more size l before first w k (inl e) (m, f, c) =
      let z : size + m * size ≡ suc m * size = omega arith in
      let t : take (suc m * size) l ≡ take size l ++ take (m * size) (drop size l) =
        subst (λ y. take y l ≡ take size l ++ take (m * size) (drop size l)) z
          (take-add size (m * size) l) in
      (
        suc m,
        rw (t, replay-append) (f ∙ ap (replay keep_time (take (m * size) (drop size l))) e),
        elim c [
          | inl bad ↦ inl bad
          | inr all ↦ inr (t ∙ ap (λ x. take size l ++ x) all ∙ take-append-drop size l)
        ],
      )

  upsert_batches-IsPrefix :
      (size n : ℕ) (rs : List Record) (d : D)
      → 1 ≤ size
      → length rs ≤ n
      → IsPrefix size rs (saved d) (upsert_batches pg (batches size n rs) d)
  unfolding upsert_batches batches replay
  upsert_batches-IsPrefix size zero [] d p h = nothing_written size (saved d) (d, true) refl
  upsert_batches-IsPrefix size zero (r ∷ rs) d p h = absurd (omega arith)
  upsert_batches-IsPrefix size (suc n) [] d p h = nothing_written size (saved d) (d, true) refl
  upsert_batches-IsPrefix size (suc n) (r ∷ rs) d p h =
      let l = r ∷ rs in
      let w = upsert_batch pg (take size l) d in
      elim (and_then_cases (upsert_batches pg (batches size n (drop size l))) w) [
        | inl (k, f) ↦
            let short : length (drop size l) ≤ n = omega (arith, length-drop size l) in
            rw f (
              one_more size l (saved d) w _ k (upsert_batch-IsAtomic pg laws (take size l) d)
                (upsert_batches-IsPrefix size n (drop size l) w.0 p short))
        | inr (k, f) ↦
            rw f (only_one size l (saved d) w k (upsert_batch-IsAtomic pg laws (take size l) d))
      ]

-- UpsertRecords ends, whatever calls of the server fail, with a whole number of the batches of 500 in
-- the table, in their order, each record in place of what was there under its origin and queue id,
-- and the rest of the table as it was. If there is no error, all of the records are in the table.
pub upsert_records-IsPrefix :
    {D : Type 0} (pg : Postgres D) (laws : IsPostgres pg) (rs : List Record) (d : D)
    → (m : ℕ) × (view (laws.saved (upsert_records pg rs d).0)
        ≡ replay laws.keep_time (take (m * batch_size) rs) (view (laws.saved d)))
      × (((upsert_records pg rs d).1 ≡ false) ⊎ (take (m * batch_size) rs ≡ rs))
unfolding upsert_records
upsert_records-IsPrefix pg laws rs d =
    upsert_batches-IsPrefix pg laws batch_size (length rs) rs d (omega arith) (omega arith)
