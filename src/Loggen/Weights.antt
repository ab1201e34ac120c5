-- ===== src/Loggen/Weights.antt =====
-- What the weighted draws of tools/loggen come to, and the times in the files.
use plv.Prelude.{
  ℕ, suc, ◌+◌, ◌-◌, ◌≤◌, ◌<◌, ◌≡◌, refl, List, [], ◌∷◌, some, arith, take, get_elem?, ltb,
  Bool-cases, inl, inr, ltb→lt,
}
use plv.Loggen.{weighted, total_weight, sum}

-- The entry that a number below the total falls into: its share of the numbers is its weight.
abbrev pub IsDrawn {ℓ} : {A : Type ℓ} → List (A × ℕ) → ℕ → A → Type ℓ
IsDrawn {A = A} ws n a =
    (i : ℕ) × (w : ℕ) × (get_elem? ws i ≡ some (a, w))
    × (total_weight (take i ws) ≤ n)
    × (n < total_weight (take i ws) + w)

pub weighted-IsDrawn {ℓ} :
    {A : Type ℓ} (d : A) (ws : List (A × ℕ)) (n : ℕ)
    → n < total_weight ws
    → IsDrawn ws n (weighted d ws n)
unfolding weighted total_weight sum
weighted-IsDrawn d [] n h = absurd (omega arith)
weighted-IsDrawn d ((a, w) ∷ ws) n h = elim (Bool-cases (ltb n w)) [
  | inl e ↦ let lt = ltb→lt n w e in rw e (0, w, refl, omega arith, omega arith)
  | inr e ↦
      let (i, v, p, lo, hi) = weighted-IsDrawn d ws (n - w) (ground arith) in
      rw e (suc i, v, p, ground arith, ground arith)
]
