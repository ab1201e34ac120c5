-- ===== src/Database/Laws.antt =====
-- What PostgreSQL documents of the calls of db.go: the rows that the open transaction sees, those that
-- are committed, and what each call does to the two.
use plv.Prelude.{
  ◌≡◌, ◌⊎◌, true, false, Bool, ◌&&◌, any, ◌==◌, List, [], ◌∷◌, Option, none, some, if◌then◌else◌,
}
use mathlib.Core.Option
use plv.Go.Text.{Text, text_eq}
use plv.Go.Time.{Time}
use plv.Database.{Row, Postgres, on_conflict}

unfoldable pub has_key : Text → Text → Row → Bool
has_key o q row = text_eq row.origin o && text_eq row.queue_id q

-- The row of an origin and a queue id, which are the primary key.
unfoldable pub find_row : Text → Text → List Row → Option Row
find_row o q [] = none
find_row o q (row ∷ rows) =
    let rest = find_row o q rows in if has_key o q row then some row else rest

-- TIMESTAMPTZ keeps microseconds of an instant.
unfoldable pub stored_row : (Time → Time) → Row → Row
stored_row keep_time row = record row { timestamp = Option.map keep_time row.timestamp }

-- INSERT with its ON CONFLICT, by what the table has under the key
unfoldable pub put_row : Row → Option Row → Row
put_row row none = row
put_row row (some old) = on_conflict row old

pub record IsPostgres {D : Type 0} (pg : Postgres D) : Type 0 where
  pub keep_time : Time → Time
  pub rows : D → List Row
  pub saved : D → List Row
  pub begin_saved : (d : D) → saved (pg.begin d).0 ≡ saved d
  pub begin_rows : (d : D) → (pg.begin d).1 ≡ true → rows (pg.begin d).0 ≡ saved d
  pub prepare_copy_saved : (d : D) → saved (pg.prepare_copy d).0 ≡ saved d
  pub prepare_saved : (d : D) → saved (pg.prepare d).0 ≡ saved d
  pub prepare_rows : (d : D) → rows (pg.prepare d).0 ≡ rows d
  pub exec_saved : (row : Row) (d : D) → saved (pg.exec row d).0 ≡ saved d
  pub exec_rows :
      (row : Row) (d : D)
      → (pg.exec row d).1 ≡ true
      → (o q : Text)
      → find_row o q (rows (pg.exec row d).0) ≡ (
          if has_key o q row
          then some (put_row (stored_row keep_time row) (find_row o q (rows d)))
          else find_row o q (rows d))
  pub close_saved : (d : D) → saved (pg.close d) ≡ saved d
  pub rollback_saved : (d : D) → saved (pg.rollback d) ≡ saved d
  pub commit_saved : (d : D) → (pg.commit d).1 ≡ true → saved (pg.commit d).0 ≡ rows d
  -- The reply of a commit may be lost.
  pub commit_lost :
      (d : D)
      → (pg.commit d).1 ≡ false
      → (saved (pg.commit d).0 ≡ saved d) ⊎ (saved (pg.commit d).0 ≡ rows d)
  pub select_saved :
      (d : D) (l : List Row) (o q : Text)
      → (pg.select d).1 ≡ some l
      → find_row o q l ≡ find_row o q (saved d)
  -- A text of PostgreSQL holds no zero byte.
  pub select_text :
      (d : D) (l : List Row)
      → (pg.select d).1 ≡ some l
      → any (λ row. any (λ c. c == 0) row.origin) l ≡ false
