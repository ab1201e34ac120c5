-- ===== src/Watch/Bytes.antt =====
-- The bytes that a tick of watcher.go consumes.
use plv.Prelude.{
  length-drop, ℕ, zero, suc, ◌+◌, ◌≡◌, ◌≤◌, refl, ◌∙◌, sym, ap, Bool, false, ◌||◌, ◌==◌, List, [],
  ◌∷◌, ◌++◌, any, length, drop, arith, append_assoc, append-nil, length-append, Bool-cases, inl,
  inr,
}
use plv.Go.Text.{Text}
use plv.Watch.{whole_lines_from}

abbrev pub has_newline : Text → Bool
has_newline = any (λ c. c == 10)

-- One text after another.
unfoldable pub flat : List Text → Text
flat [] = []
flat (l ∷ ls) = l ++ flat ls

unfoldable pub total : List Text → ℕ
total [] = 0
total (l ∷ ls) = length l + total ls

length-flat : (ls : List Text) → length (flat ls) ≡ total ls
unfolding flat total
length-flat [] = refl
length-flat (l ∷ ls) = omega (arith, length-append l (flat ls), length-flat ls)

drop-append : (s t : Text) → drop (length s) (s ++ t) ≡ t
drop-append [] t = refl
drop-append (c ∷ s) t = drop-append s t

drop-nil : (m : ℕ) → drop {A = ℕ} m [] ≡ []
drop-nil zero = refl
drop-nil (suc m) = refl

drop-drop : (n m : ℕ) (s : Text) → drop (n + m) s ≡ drop m (drop n s)
drop-drop zero m s = let e : 0 + m ≡ m = omega arith in ap (λ k. drop k s) e
drop-drop (suc n) m [] = drop-nil (suc n + m) ∙ sym (drop-nil m)
drop-drop (suc n) m (c ∷ s) =
    let e : suc n + m ≡ suc (n + m) = omega arith in ap (λ k. drop k (c ∷ s)) e ∙ drop-drop n m s

any-append : (s t : Text) → has_newline (s ++ t) ≡ (has_newline s || has_newline t)
any-append [] t = ground arith
any-append (c ∷ s) t = ground (arith, any-append s t)

-- The whole lines and a rest without a newline make up the text.
abbrev IsSplit : Text → List Text → Type 0
IsSplit s ls = (rest : Text) × (s ≡ flat ls ++ rest) × (has_newline rest ≡ false)

whole_lines_from-IsSplit :
    (word s : Text) → has_newline word ≡ false → IsSplit (word ++ s) (whole_lines_from word s)
unfolding whole_lines_from flat
whole_lines_from-IsSplit word [] h = (word, append-nil word, h)
whole_lines_from-IsSplit word (c ∷ s) h = elim (Bool-cases (c == 10)) [
  | inl e ↦
      let (rest, p, q) = whole_lines_from-IsSplit [] s refl in
      rw e (
        rest,
        sym (append_assoc word (c ∷ []) s)
            ∙ ap (λ t. (word ++ c ∷ []) ++ t) p
            ∙ sym (append_assoc (word ++ c ∷ []) (flat (whole_lines_from [] s)) rest),
        q,
      )
  | inr e ↦
      let (rest, p, q) =
        whole_lines_from-IsSplit (word ++ c ∷ []) s (ground (arith, any-append word (c ∷ []))) in
      rw e (rest, sym (append_assoc word (c ∷ []) s) ∙ p, q)
]

-- Behind the whole lines from an offset on, there is no newline.
pub drop-whole_lines :
    (n : ℕ) (s : Text)
    → n ≤ length s
    → (n + total (whole_lines_from [] (drop n s)) ≤ length s)
      × (has_newline (drop (n + total (whole_lines_from [] (drop n s))) s) ≡ false)
drop-whole_lines n s h =
    let t = drop n s in
    let ls = whole_lines_from [] t in
    let (rest, p, q) = whole_lines_from-IsSplit [] t refl in
    let e : drop (n + total ls) s ≡ rest =
      drop-drop n (total ls) s
      ∙ ap (drop (total ls)) p
      ∙ ap (λ k. drop k (flat ls ++ rest)) (sym (length-flat ls))
      ∙ drop-append (flat ls) rest in
    (
      omega (arith, length-drop n s, ap length p, length-append (flat ls) rest, length-flat ls),
      rw e q,
    )
