-- ===== src/Search/Paging.antt =====
-- Search of store.go: its pages and its counts.
use plv.Prelude.{
  ℤ, pos, negsuc, ◌⊎◌, ℕ, zero, suc, ◌+◌, ◌^◌, ◌≤◌, ◌<◌, ◌≡◌, refl, ap, List, [], ◌∷◌, arith, none,
  some, min, length, length-drop, take, drop, map, length-keep-le, inl, inr,
}
use plv.Go.Text.{Text}
use plv.Go.Sort.{length-sort_stable}
use plv.Records.{Record}
use plv.Store.{Store}
use plv.Search.{
  result_at, SearchResult, visible, filtered, ordered, mid_origins, table_row, search, passes,
}
use plv.Search.Params.{SearchParams}
use plv.Search.Order.{sort_rows, cluster}
use plv.Search.Page.{bounds, slice}
use plv.Direction.Resolver.{direction_resolver}

module _ {ℓ} {A : Type ℓ} where
  take-clamp : (n k : ℕ) (xs : List A) → n ≡ min k (length xs) → take n xs ≡ take k xs
  take-clamp zero zero xs h = refl
  take-clamp zero (suc k) [] h = refl
  take-clamp zero (suc k) (x ∷ xs) h = absurd (omega arith)
  take-clamp (suc n) zero xs h = absurd (omega arith)
  take-clamp (suc n) (suc k) [] h = refl
  take-clamp (suc n) (suc k) (x ∷ xs) h = ap (◌∷◌ x) (take-clamp n k xs (omega arith))

  drop-clamp : (n k : ℕ) (xs : List A) → n ≡ min k (length xs) → drop n xs ≡ drop k xs
  drop-clamp zero zero xs h = refl
  drop-clamp zero (suc k) [] h = refl
  drop-clamp zero (suc k) (x ∷ xs) h = absurd (omega arith)
  drop-clamp (suc n) zero xs h = absurd (omega arith)
  drop-clamp (suc n) (suc k) [] h = refl
  drop-clamp (suc n) (suc k) (x ∷ xs) h = drop-clamp n k xs (omega arith)

  slice-clamped :
      (s len : ℕ) (xs : List A)
      → slice (min s (length xs)) (min (s + len) (length xs)) xs ≡ take len (drop s xs)
  unfolding slice
  slice-clamped s len xs =
      rw (drop-clamp (min s (length xs)) s xs refl)
        (take-clamp _ len (drop s xs) (omega (arith, length-drop s xs)))

length-sort_rows :
    (direction : Record → Text) (p : SearchParams) (rows : List Record)
    → length (sort_rows direction p rows) ≡ length rows
unfolding sort_rows
length-sort_rows direction p rows = length-sort_stable _ rows

length-cluster : (rows : List Record) → length (cluster rows) ≡ length rows
unfolding cluster
length-cluster rows = length-sort_stable _ rows

length-ordered : (s : Store) (p : SearchParams) → length (ordered s p) ≡ length (filtered s p)
unfolding ordered
length-ordered s p =
    let rows = sort_rows (direction_resolver s) p (filtered s p) in
    ground (arith, length-cluster rows, length-sort_rows (direction_resolver s) p (filtered s p))

bounds-in_range :
    (start : ℤ) (n len total : ℕ)
    → start ≡ pos n
    → n + len < 2 ^ 63
    → bounds start len total ≡ some (min n total, min (n + len) total)
unfolding bounds
bounds-in_range start n len total e h = rw e (ground arith)

filtered-le-visible : (s : Store) (p : SearchParams) → length (filtered s p) ≤ length (visible s)
unfolding filtered
filtered-le-visible s p = length-keep-le (passes (direction_resolver s) p) (visible s)

-- For a start from 0 and a page that ends below 2^63, Search returns the rows of the table from that
-- start, as many as the page holds and the table has; it reports the number of records that pass the
-- filters, and at least as many visible records.
pub search-page :
    (s : Store) (p : SearchParams) (n : ℕ)
    → p.start ≡ pos n
    → n + p.page_length < 2 ^ 63
    → (res : SearchResult) × (search s p ≡ some res)
      × (res.rows
          ≡ map
              (table_row s (mid_origins [] s.records))
              (take p.page_length (drop n (ordered s p))))
      × (res.records_filtered ≡ length (filtered s p))
      × (res.records_filtered ≤ res.records_total)
unfolding search result_at
search-page s p n e h =
    let rows = ordered s p in
    let b : ℕ × ℕ = (min n (length rows), min (n + p.page_length) (length rows)) in
    (
      result_at s p b,
      rw (bounds-in_range p.start n p.page_length (length rows) e h),
      ap (map (table_row s (mid_origins [] s.records))) (slice-clamped n p.page_length rows),
      length-ordered s p,
      omega (arith, length-ordered s p, filtered-le-visible s p),
    )

-- A start below 0, and a page whose end passes 2^63 - 1, make Search panic on every store.
pub search_panics :
    (s : Store) (p : SearchParams) (n : ℕ)
    → (p.start ≡ negsuc n) ⊎ ((p.start ≡ pos n) × (2 ^ 63 ≤ n + p.page_length))
    → search s p ≡ none
unfolding search bounds
search_panics s p n (inl e) = rw e
search_panics s p n (inr (e, h)) = rw e (ground arith)
