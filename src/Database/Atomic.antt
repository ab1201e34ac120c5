-- ===== src/Database/Atomic.antt =====
-- upsertBatch of db.go: a batch is in the table whole or not at all.
use plv.Prelude.{
  ◌≡◌, refl, ap, ◌∙◌, fun_ext, ◌⊎◌, inl, inr, Bool, true, false, List, [], ◌∷◌, some, Bool-cases,
  arith,
}
use mathlib.Core.Path.{subst}
use plv.Records.{Record}
use plv.Database.{
  Row, Postgres, row_args, and_then, deferred, in_transaction, exec_all, run_insert,
  upsert_batch_fallback, after_copy, upsert_batch,
}
use plv.Database.Laws.{has_key, stored_row, IsPostgres}
use plv.Database.Views.{view, write, replay, put_whole}

pub and_then_cases :
    {D : Type 0} (f : D → D × Bool) (w : D × Bool)
    → ((w.1 ≡ true) × (and_then f w ≡ f w.0)) ⊎ ((w.1 ≡ false) × (and_then f w ≡ w))
unfolding and_then
and_then_cases f (d, true) = inl (refl, refl)
and_then_cases f (d, false) = inr (refl, refl)

module _ {D : Type 0} (pg : Postgres D) (laws : IsPostgres pg) where
  open laws use {keep_time, rows, saved}

  exec_write :
      (r : Record) (d : D)
      → (pg.exec (row_args r) d).1 ≡ true
      → view (rows (pg.exec (row_args r) d).0) ≡ write keep_time r (view (rows d))
  unfolding write stored_row has_key
  exec_write r d e = fun_ext λ o. fun_ext λ q.
      laws.exec_rows (row_args r) d e o q ∙ elim (Bool-cases (has_key o q (row_args r))) [
        | inl h ↦ rw h (ap some (put_whole o q (stored_row keep_time (row_args r)) (rows d) h))
        | inr h ↦ rw h refl
      ]

  exec_all-saved : (rs : List Record) (d : D) → saved (exec_all pg rs d).0 ≡ saved d
  unfolding exec_all
  exec_all-saved [] d = refl
  exec_all-saved (r ∷ rs) d = elim (and_then_cases (exec_all pg rs) (pg.exec (row_args r) d)) [
    | inl (h, e) ↦ rw e (exec_all-saved rs _ ∙ laws.exec_saved (row_args r) d)
    | inr (h, e) ↦ rw e (laws.exec_saved (row_args r) d)
  ]

  exec_all-rows :
      (rs : List Record) (d : D)
      → (exec_all pg rs d).1 ≡ true
      → view (rows (exec_all pg rs d).0) ≡ replay keep_time rs (view (rows d))
  unfolding exec_all replay
  exec_all-rows [] d h = refl
  exec_all-rows (r ∷ rs) d h = elim (and_then_cases (exec_all pg rs) (pg.exec (row_args r) d)) [
    | inl (k, e) ↦
        let done = subst (λ w. w.1 ≡ true) e h in
        rw e (exec_all-rows rs _ done ∙ ap (replay keep_time rs) (exec_write r d k))
    | inr (k, e) ↦ absurd (let done = subst (λ w. w.1 ≡ true) e h in ground arith)
  ]

  -- From these committed rows, all of the records are in the table, or none and there was an error; a
  -- commit whose reply is lost may be either.
  abbrev pub IsAtomic : List Record → List Row → D × Bool → Type 0
  IsAtomic rs before w =
      (view (saved w.0) ≡ replay keep_time rs (view before))
      ⊎ ((w.1 ≡ false) × (saved w.0 ≡ before))

  deferred-IsAtomic :
      (rs : List Record) (before : List Row) (f : D → D) (w : D × Bool)
      → ((d : D) → saved (f d) ≡ saved d)
      → IsAtomic rs before w
      → IsAtomic rs before (deferred f w)
  unfolding deferred
  deferred-IsAtomic rs before f (d, done) same (inl e) = inl (ap view (same d) ∙ e)
  deferred-IsAtomic rs before f (d, done) same (inr (h, e)) = inr (h, same d ∙ e)

  commit-IsAtomic :
      (rs : List Record) (before : List Row) (d : D)
      → saved d ≡ before
      → view (rows d) ≡ replay keep_time rs (view before)
      → IsAtomic rs before (pg.commit d)
  commit-IsAtomic rs before d s e = elim (Bool-cases (pg.commit d).1) [
    | inl h ↦ inl (ap view (laws.commit_saved d h) ∙ e)
    | inr h ↦ elim (laws.commit_lost d h) [
      | inl same ↦ inr (h, same ∙ s)
      | inr gone ↦ inl (ap view gone ∙ e)
    ]
  ]

  run_insert-IsAtomic :
      (rs : List Record) (before : List Row) (d : D)
      → saved d ≡ before
      → rows d ≡ before
      → IsAtomic rs before (run_insert pg rs d)
  unfolding run_insert
  run_insert-IsAtomic rs before d s e =
      let s1 = exec_all-saved rs d ∙ s in
      deferred-IsAtomic rs before pg.close _ laws.close_saved
        (elim (and_then_cases pg.commit (exec_all pg rs d)) [
          | inl (h, f) ↦ rw f (
              commit-IsAtomic rs before _ s1
                (exec_all-rows rs d h ∙ ap (λ x. replay keep_time rs (view x)) e))
          | inr (h, f) ↦ rw f (inr (h, s1))
        ])

  in_transaction-IsAtomic :
      (rs : List Record) (body : D → D × Bool) (d : D)
      → ((x : D) → saved x ≡ saved d → rows x ≡ saved d → IsAtomic rs (saved d) (body x))
      → IsAtomic rs (saved d) (in_transaction pg body d)
  unfolding in_transaction
  in_transaction-IsAtomic rs body d h =
      elim (and_then_cases (λ d1. deferred pg.rollback (body d1)) (pg.begin d)) [
        | inl (k, f) ↦ rw f (
            deferred-IsAtomic rs (saved d) pg.rollback _ laws.rollback_saved
              (h _ (laws.begin_saved d) (laws.begin_rows d k)))
        | inr (k, f) ↦ rw f (inr (k, laws.begin_saved d))
      ]

  fallback-IsAtomic :
      (rs : List Record) (before : List Row) (d : D)
      → saved d ≡ before
      → IsAtomic rs before (upsert_batch_fallback pg rs d)
  unfolding upsert_batch_fallback
  fallback-IsAtomic rs before d e =
      subst (λ b. IsAtomic rs b (upsert_batch_fallback pg rs d)) e
        (in_transaction-IsAtomic rs _ d λ x s t.
          elim (and_then_cases (run_insert pg rs) (pg.prepare x)) [
            | inl (k, f) ↦ rw f (
                run_insert-IsAtomic rs (saved d) _ (laws.prepare_saved x ∙ s)
                  (laws.prepare_rows x ∙ t))
            | inr (k, f) ↦ rw f (inr (k, laws.prepare_saved x ∙ s))
          ])

  after_copy-IsAtomic :
      (rs : List Record) (before : List Row) (w : D × Bool)
      → saved w.0 ≡ before
      → IsAtomic rs before (after_copy pg rs w)
  unfolding after_copy
  after_copy-IsAtomic rs before (d, false) e = fallback-IsAtomic rs before d e
  after_copy-IsAtomic rs before (d, true) e =
      fallback-IsAtomic rs before _ (laws.rollback_saved _ ∙ laws.close_saved d ∙ e)

  pub upsert_batch-IsAtomic :
      (rs : List Record) (d : D) → IsAtomic rs (saved d) (upsert_batch pg rs d)
  unfolding upsert_batch replay
  upsert_batch-IsAtomic [] d = inl refl
  upsert_batch-IsAtomic (r ∷ rs) d =
      in_transaction-IsAtomic (r ∷ rs) _ d
        λ x s t. after_copy-IsAtomic (r ∷ rs) (saved d) _ (laws.prepare_copy_saved x ∙ s)
