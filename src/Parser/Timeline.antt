-- ===== src/Parser/Timeline.antt =====
-- sortRawByTime of parser.go: the lines of a merged record.
use plv.Prelude.{
  inr, inl, Bool-cases, ◌∙◌, ◌≡◌, refl, Bool, true, false, List, [], ◌∷◌, ◌++◌, arith, ◌||◌,
}
use plv.Go.Text.{Text, elem, text_eq, text_eq_iff}
use plv.Go.Sort.{
  any-insert_by, insert_by, sort_stable, any-sort_stable, IsSorted, IsOrder, sort_stable-IsSorted,
}
use plv.Go.Time.{Env}
use plv.Parser.Verdict.{unique_from, sort_raw_by_time, before}

pub elem-append : (l : Text) (xs ys : List Text) → elem l (xs ++ ys) ≡ (elem l xs || elem l ys)
unfolding elem
elem-append l [] ys = refl
elem-append l (x ∷ xs) ys = ground (arith, elem-append l xs ys)

elem_head : (x : Text) (xs : List Text) → elem x (x ∷ xs) ≡ true
unfolding elem
elem_head x xs = ground (arith, text_eq_iff x x)

elem_tail : (l x : Text) (xs : List Text) → elem l (x ∷ xs) ≡ false → elem l xs ≡ false
unfolding elem
elem_tail l x xs h = ground arith

elem_insert :
    (less : Text → Text → Bool) (x y : Text) (ys : List Text)
    → elem x (y ∷ ys) ≡ false
    → elem y ys ≡ false
    → elem y (insert_by less x ys) ≡ false
unfolding elem
elem_insert less x y ys h d =
    ground (arith, any-insert_by (λ s. text_eq s y) less x ys, text_eq_iff x y, text_eq_iff y x)

elem_unique :
    (l : Text) (seen xs : List Text)
    → (elem l seen || elem l (unique_from seen xs)) ≡ (elem l seen || elem l xs)
unfolding elem unique_from
elem_unique l seen [] = refl
elem_unique l seen (x ∷ xs) =
    ground (arith, elem_unique l seen xs, elem_unique l (x ∷ seen) xs, text_eq_iff x l)

elem-sort_stable :
    (less : Text → Text → Bool) (l : Text) (xs : List Text)
    → elem l (sort_stable less xs) ≡ elem l xs
unfolding elem
elem-sort_stable less l xs = any-sort_stable (λ s. text_eq s l) less xs

-- The lines are those that were given.
pub elem-sort_raw_by_time :
    (env : Env) (l : Text) (xs : List Text) → elem l (sort_raw_by_time env xs) ≡ elem l xs
unfolding sort_raw_by_time
elem-sort_raw_by_time env l xs =
    elem-sort_stable (before env) l (unique_from [] xs) ∙ (unfold elem in elem_unique l [] xs)

-- No line stands twice.
abbrev pub IsDistinct : List Text → Type 0
IsDistinct [] = Unit {0}
IsDistinct (x ∷ xs) = (elem x xs ≡ false) × IsDistinct xs

not_again :
    (l : Text) (seen xs : List Text) → elem l seen ≡ true → elem l (unique_from seen xs) ≡ false
unfolding elem unique_from
not_again l seen [] h = refl
not_again l seen (x ∷ xs) h =
    ground (arith, not_again l seen xs h, not_again l (x ∷ seen) xs, text_eq_iff x l)

unique_from-IsDistinct : (seen xs : List Text) → IsDistinct (unique_from seen xs)
unfolding unique_from
unique_from-IsDistinct seen [] = tt
unique_from-IsDistinct seen (x ∷ xs) = elim (Bool-cases (elem x seen)) [
  | inl e ↦ rw e (unique_from-IsDistinct seen xs)
  | inr e ↦
      rw e (not_again x (x ∷ seen) xs (elem_head x seen), unique_from-IsDistinct (x ∷ seen) xs)
]

insert_by-IsDistinct :
    (less : Text → Text → Bool) (x : Text) (xs : List Text)
    → elem x xs ≡ false
    → IsDistinct xs
    → IsDistinct (insert_by less x xs)
unfolding insert_by
insert_by-IsDistinct less x [] h d = (h, tt)
insert_by-IsDistinct less x (y ∷ ys) h d = elim (Bool-cases (less y x)) [
  | inl e ↦
      rw e (elem_insert less x y ys h d.0, insert_by-IsDistinct less x ys (elem_tail x y ys h) d.1)
  | inr e ↦ rw e (h, d)
]

sort_stable-IsDistinct :
    (less : Text → Text → Bool) (xs : List Text) → IsDistinct xs → IsDistinct (sort_stable less xs)
unfolding sort_stable
sort_stable-IsDistinct less [] d = tt
sort_stable-IsDistinct less (x ∷ xs) d =
    insert_by-IsDistinct less x (sort_stable less xs) (elem-sort_stable less x xs ∙ d.0)
      (sort_stable-IsDistinct less xs d.1)

before-IsOrder : (env : Env) → IsOrder (before env)
before-IsOrder env = record { asym = λ a b h. ground arith; trans = λ a b c h k. ground arith }

-- The merged timeline is in the order of the lines' times, has no line twice, and has exactly the
-- lines that were given.
pub sort_raw_by_time-IsTimeline :
    (env : Env) (xs : List Text)
    → IsSorted (before env) (sort_raw_by_time env xs)
      × IsDistinct (sort_raw_by_time env xs)
      × ((l : Text) → elem l (sort_raw_by_time env xs) ≡ elem l xs)
sort_raw_by_time-IsTimeline env xs = (
  unfold sort_raw_by_time in
      sort_stable-IsSorted (before env) (before-IsOrder env) (unique_from [] xs),
  unfold sort_raw_by_time in
      sort_stable-IsDistinct (before env) (unique_from [] xs) (unique_from-IsDistinct [] xs),
  λ l. elem-sort_raw_by_time env l xs,
)
