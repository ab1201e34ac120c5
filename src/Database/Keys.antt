-- ===== src/Database/Keys.antt =====
-- The record that a row gives back, the last record of a key, and a table read by joined keys.
use plv.Prelude.{
  ◌≡◌, refl, sym, ap, ◌∙◌, inl, inr, Bool, true, false, not, ◌==◌, List, [], ◌∷◌, Option, none,
  some, if◌then◌else◌, if_true, if_false, Bool-cases, Option-cases, arith, map, any,
}
use mathlib.Core.Path.{subst}
use mathlib.Core.Option
use mathlib.Core.Option.{some-injective}
use plv.Go.Text.{Text, text_eq, text_eq_iff}
use plv.Go.Time.{Time}
use plv.Records.{Record}
use plv.Store.{rec_key, key_of}
use plv.Database.{Row, row_args, scan_time, scan_row}
use plv.Database.Laws.{has_key, find_row, stored_row}
use plv.Database.Views.{View, write, replay}

-- A record as the database gives it back: its time is kept to the precision of the column.
unfoldable pub restored : (Time → Time) → Record → Record
restored keep_time r = record r {
  timestamp = if r.timestamp == 0 then 0 else keep_time r.timestamp;
}

scan_stored_time :
    (keep_time : Time → Time) (t : Time)
    → scan_time (Option.map keep_time (if t == 0 then none else some t))
      ≡ (if t == 0 then 0 else keep_time t)
unfolding scan_time
scan_stored_time keep_time t = elim (Bool-cases (t == 0)) [ inl e ↦ rw e refl | inr e ↦ rw e refl ]

pub scan-stored :
    (keep_time : Time → Time) (r : Record)
    → scan_row (stored_row keep_time (row_args r)) ≡ restored keep_time r
unfolding scan_row stored_row row_args restored scan_time
scan-stored keep_time r = λ i. record r { timestamp = scan_stored_time keep_time r.timestamp i }

-- The last record of a key.
unfoldable pub last_of : Text → Text → List Record → Option Record
last_of o q [] = none
last_of o q (r ∷ rs) = elim (last_of o q rs) [
  | none ↦ if has_key o q (row_args r) then some r else none
  | some x ↦ some x
]

replay_other :
    (keep_time : Time → Time) (o q : Text) (rs : List Record) (v : View)
    → last_of o q rs ≡ none
    → replay keep_time rs v o q ≡ v o q
unfolding replay last_of write
replay_other keep_time o q [] v h = refl
replay_other keep_time o q (x ∷ xs) v h = elim (Option-cases (last_of o q xs)) [
  | inl n ↦
      replay_other keep_time o q xs (write keep_time x v) n
      ∙ if_false (has_key o q (row_args x)) _ _ (ground arith)
  | inr (y, e) ↦ absurd (ground arith)
]

written_last :
    (keep_time : Time → Time) (o q : Text) (x : Record) (v : View) (r : Record)
    → (if has_key o q (row_args x) then some x else none) ≡ some r
    → write keep_time x v o q ≡ some (stored_row keep_time (row_args r))
unfolding write
written_last keep_time o q x v r h = elim (Bool-cases (has_key o q (row_args x))) [
  | inl e ↦
      let f = some-injective x r (sym (if_true (has_key o q (row_args x)) _ _ e) ∙ h) in
      if_true (has_key o q (row_args x)) _ _ e
      ∙ ap (λ z. some (stored_row keep_time (row_args z))) f
  | inr e ↦ absurd (ground arith)
]

pub replay-last :
    (keep_time : Time → Time) (o q : Text) (rs : List Record) (v : View) (r : Record)
    → last_of o q rs ≡ some r
    → replay keep_time rs v o q ≡ some (stored_row keep_time (row_args r))
unfolding replay last_of write
replay-last keep_time o q [] v r h = absurd (ground arith)
replay-last keep_time o q (x ∷ xs) v r h = elim (Option-cases (last_of o q xs)) [
  | inl n ↦
      let e : (if has_key o q (row_args x) then some x else none) ≡ some r = rw n at h in
      replay_other keep_time o q xs (write keep_time x v) n ∙ written_last keep_time o q x v r e
  | inr (y, e) ↦
      let f : some y ≡ some r = rw e at h in
      replay-last keep_time o q xs (write keep_time x v) r (e ∙ f)
]

-- A key of which the record is the first, and the row.
unfoldable pub first_key : Text → List Record → Option Record
first_key k [] = none
first_key k (r ∷ rs) = let rest = first_key k rs in if text_eq (key_of r) k then some r else rest

-- A text without a zero byte.
unfoldable pub plain : Text → Bool
plain o = not (any (λ c. c == 0) o)

rec_key-plain :
    (o p s t : Text)
    → plain o ≡ true
    → plain p ≡ true
    → rec_key o s ≡ rec_key p t
    → (o ≡ p) × (s ≡ t)
unfolding rec_key plain
rec_key-plain [] [] s t a b h = ground arith
rec_key-plain [] (c ∷ p) s t a b h = absurd (ground arith)
rec_key-plain (c ∷ o) [] s t a b h = absurd (ground arith)
rec_key-plain (c ∷ o) (e ∷ p) s t a b h =
    let (x, y) = rec_key-plain o p s t (ground arith) (ground arith) (ground arith) in
    (ground arith, y)

-- Where origins are plain, a row has the joined key exactly if it has its two parts.
text_eq-scan :
    (o q : Text) (row : Row)
    → plain o ≡ true
    → plain row.origin ≡ true
    → text_eq (key_of (scan_row row)) (rec_key o q) ≡ has_key o q row
unfolding key_of scan_row has_key
text_eq-scan o q row a b = ground (
  arith,
  text_eq_iff (rec_key row.origin row.queue_id) (rec_key o q),
  text_eq_iff row.origin o,
  text_eq_iff row.queue_id q,
  rec_key-plain row.origin o row.queue_id q b a,
)

pub first_key-scan :
    (o q : Text) (l : List Row)
    → plain o ≡ true
    → any (λ row. any (λ c. c == 0) row.origin) l ≡ false
    → first_key (rec_key o q) (map scan_row l) ≡ Option.map scan_row (find_row o q l)
unfolding first_key find_row plain
first_key-scan o q [] a b = refl
first_key-scan o q (row ∷ l) a b =
    let e : any (λ c. c == 0) row.origin ≡ false = ground arith in
    let rest : any (λ x. any (λ c. c == 0) x.origin) l ≡ false = ground arith in
    let same = text_eq-scan o q row a (ap not e) in
    elim (Bool-cases (has_key o q row)) [
      | inl h ↦ rw (first_key, find_row, same, h) refl
      | inr h ↦ rw (first_key, find_row, same, h) (first_key-scan o q l a rest)
    ]

pub find_row-plain :
    (o q : Text) (l : List Row) (row : Row)
    → find_row o q l ≡ some row
    → any (λ x. any (λ c. c == 0) x.origin) l ≡ false
    → plain row.origin ≡ true
unfolding find_row plain
find_row-plain o q [] row h b = absurd (ground arith)
find_row-plain o q (x ∷ l) row h b = elim (Bool-cases (has_key o q x)) [
  | inl e ↦
      let f = some-injective x row (sym (if_true (has_key o q x) _ _ e) ∙ h) in
      subst (λ z. plain z.origin ≡ true) f (ground arith)
  | inr e ↦ find_row-plain o q l row (sym (if_false (has_key o q x) _ _ e) ∙ h) (ground arith)
]
