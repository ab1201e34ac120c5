-- ===== src/Go/Sort.antt =====
-- sort.SliceStable by a "less" function. The stable order is the only one when "less" is a strict
-- weak order, so insertion sort stands for it.
use plv.Prelude.{
  inr, inl, Bool-cases, true, suc, ◌≡◌, refl, Bool, false, List, [], ◌∷◌, arith, if◌then◌else◌,
  length, any,
}

module _ {ℓ} {A : Type ℓ} where
  unfoldable pub insert_by : (A → A → Bool) → A → List A → List A
  insert_by less x [] = x ∷ []
  insert_by less x (y ∷ ys) =
      let rest = insert_by less x ys in if less y x then y ∷ rest else x ∷ y ∷ ys

  unfoldable pub sort_stable : (A → A → Bool) → List A → List A
  sort_stable less [] = []
  sort_stable less (x ∷ xs) = insert_by less x (sort_stable less xs)

  -- No later element is less than an earlier one.
  abbrev pub IsSorted : (A → A → Bool) → List A → Type 0
  IsSorted less [] = Unit {0}
  IsSorted less (x ∷ xs) = (any (λ y. less y x) xs ≡ false) × IsSorted less xs

  length-insert_by :
      (less : A → A → Bool) (x : A) (xs : List A) → length (insert_by less x xs) ≡ suc (length xs)
  unfolding insert_by
  length-insert_by less x [] = refl
  length-insert_by less x (y ∷ ys) = ground (arith, length-insert_by less x ys)

  pub length-sort_stable :
      (less : A → A → Bool) (xs : List A) → length (sort_stable less xs) ≡ length xs
  unfolding sort_stable
  length-sort_stable less [] = refl
  length-sort_stable less (x ∷ xs) =
      ground (arith, length-insert_by less x (sort_stable less xs), length-sort_stable less xs)

  pub any-insert_by :
      (p : A → Bool) (less : A → A → Bool) (x : A) (xs : List A)
      → any p (insert_by less x xs) ≡ any p (x ∷ xs)
  unfolding insert_by
  any-insert_by p less x [] = refl
  any-insert_by p less x (y ∷ ys) = ground (arith, any-insert_by p less x ys)

  -- Sorting keeps which elements there are.
  pub any-sort_stable :
      (p : A → Bool) (less : A → A → Bool) (xs : List A) → any p (sort_stable less xs) ≡ any p xs
  unfolding sort_stable
  any-sort_stable p less [] = refl
  any-sort_stable p less (x ∷ xs) =
      ground (arith, any-insert_by p less x (sort_stable less xs), any-sort_stable p less xs)

module _ {ℓ} {A : Type ℓ} (less : A → A → Bool) where
  -- A strict weak order, as sort.SliceStable asks for.
  pub record IsOrder : Type ℓ where
    pub asym : (a b : A) → less a b ≡ true → less b a ≡ false
    pub trans : (a b c : A) → less b a ≡ false → less c b ≡ false → less c a ≡ false

  none_less :
      (o : IsOrder) (x y : A) (ys : List A)
      → less y x ≡ false
      → any (λ z. less z y) ys ≡ false
      → any (λ z. less z x) ys ≡ false
  none_less o x y [] h k = refl
  none_less o x y (z ∷ zs) h k = ground (arith, o.trans x y z h, none_less o x y zs h)

  insert_by-IsSorted :
      (o : IsOrder) (x : A) (xs : List A) → IsSorted less xs → IsSorted less (insert_by less x xs)
  unfolding insert_by
  insert_by-IsSorted o x [] h = (refl, tt)
  insert_by-IsSorted o x (y ∷ ys) h = elim (Bool-cases (less y x)) [
    | inl e ↦ rw e (
      rw (any-insert_by (λ z. less z y) less x ys) (ground (arith, o.asym y x e, h.0)),
      insert_by-IsSorted o x ys h.1,
    )
    | inr e ↦ rw e (ground (arith, none_less o x y ys e h.0), h)
  ]

  -- A sort by a strict weak order is sorted.
  pub sort_stable-IsSorted : (o : IsOrder) (xs : List A) → IsSorted less (sort_stable less xs)
  unfolding sort_stable
  sort_stable-IsSorted o [] = tt
  sort_stable-IsSorted o (x ∷ xs) =
      insert_by-IsSorted o x (sort_stable less xs) (sort_stable-IsSorted o xs)
