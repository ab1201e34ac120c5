-- ===== src/Database/Views.antt =====
-- What a table holds under each key, and how records written one after the other change it.
use plv.Prelude.{
  ℕ, zero, suc, ◌+◌, ◌≡◌, refl, sym, ap, ◌∙◌, inl, inr, true, List, [], ◌∷◌, ◌++◌, Option, some,
  if◌then◌else◌, Option-cases, arith, take, drop,
}
use plv.Go.Text.{Text, text_eq_iff}
use plv.Go.Time.{Time}
use plv.Records.{Record}
use plv.Database.{Row, row_args, on_conflict}
use plv.Database.Laws.{has_key, find_row, stored_row, put_row}

-- What a table has under each primary key.
abbrev pub View : Type 0
View = Text → Text → Option Row

abbrev pub view : List Row → View
view rows o q = find_row o q rows

-- The record in the table, whatever was there.
unfoldable pub write : (Time → Time) → Record → View → View
write keep_time r v o q =
    if has_key o q (row_args r) then some (stored_row keep_time (row_args r)) else v o q

unfoldable pub replay : (Time → Time) → List Record → View → View
replay keep_time [] v = v
replay keep_time (r ∷ rs) v = replay keep_time rs (write keep_time r v)

pub replay-append :
    (keep_time : Time → Time) (xs ys : List Record) (v : View)
    → replay keep_time (xs ++ ys) v ≡ replay keep_time ys (replay keep_time xs v)
unfolding replay
replay-append keep_time [] ys v = refl
replay-append keep_time (x ∷ xs) ys v = replay-append keep_time xs ys (write keep_time x v)

pub find_row-key :
    (o q : Text) (rows : List Row) (row : Row)
    → find_row o q rows ≡ some row
    → has_key o q row ≡ true
unfolding find_row
find_row-key o q [] row h = ground arith
find_row-key o q (x ∷ xs) row h = ground (arith, find_row-key o q xs row)

pub has_key→eq :
    (o q : Text) (row : Row) → has_key o q row ≡ true → (row.origin ≡ o) × (row.queue_id ≡ q)
unfolding has_key
has_key→eq o q row h = ground (arith, text_eq_iff row.origin o, text_eq_iff row.queue_id q)

-- The update leaves the two columns of the key, which are the same, and sets all others.
on_conflict_whole :
    (row old : Row)
    → old.origin ≡ row.origin
    → old.queue_id ≡ row.queue_id
    → on_conflict row old ≡ row
unfolding on_conflict
on_conflict_whole row old e f = λ i. record row { origin = e i; queue_id = f i }

pub put_whole :
    (o q : Text) (row : Row) (rows : List Row)
    → has_key o q row ≡ true
    → put_row row (find_row o q rows) ≡ row
unfolding put_row
put_whole o q row rows h = elim (Option-cases (find_row o q rows)) [
  | inl n ↦ rw n refl
  | inr (old, e) ↦
      let (a, b) = has_key→eq o q row h in
      let (c, d) = has_key→eq o q old (find_row-key o q rows old e) in
      rw e (on_conflict_whole row old (c ∙ sym a) (d ∙ sym b))
]

pub take_nil : (n : ℕ) → take {A = Record} n [] ≡ []
take_nil zero = refl
take_nil (suc n) = refl

pub take-add : (a b : ℕ) (xs : List Record) → take (a + b) xs ≡ take a xs ++ take b (drop a xs)
take-add zero b xs = ap (λ n. take n xs) (omega arith)
take-add (suc a) b [] = rw (take_nil b) (take_nil (suc a + b))
take-add (suc a) b (x ∷ xs) =
    let e : suc a + b ≡ suc (a + b) = omega arith in
    ap (λ n. take n (x ∷ xs)) e ∙ ap (λ l. x ∷ l) (take-add a b xs)
