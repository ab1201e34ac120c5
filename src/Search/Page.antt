-- ===== src/Search/Page.antt =====
-- The page of Search in store.go: start and end as int64, and the slice between them.
use plv.Prelude.{
  ℤ, pos, negsuc, ℕ, ◌+◌, ◌-◌, ◌^◌, ltb, if◌then◌else◌, List, Option, none, some, min, take, drop,
}

-- A slice needs 0 ≤ start ≤ end. A sum from 2 ^ 63 on wraps round to a negative end.
unfoldable pub bounds : ℤ → ℕ → ℕ → Option (ℕ × ℕ)
bounds (negsuc n) len total = none
bounds (pos s) len total =
    if ltb (s + len) (2 ^ 63) then some (min s total, min (s + len) total) else none

unfoldable pub slice {ℓ} : {A : Type ℓ} → ℕ → ℕ → List A → List A
slice start end rows = take (end - start) (drop start rows)
