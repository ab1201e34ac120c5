-- ===== src/Go/Regexp.antt =====
-- Package regexp by backtracking in continuation passing: the leftmost match, with Perl's
-- preferences among alternatives and repetitions. A pattern is a matcher; classes are tests of bytes.
use plv.Prelude.{
  ℕ, zero, suc, ◌-◌, Bool, true, false, not, ◌&&◌, ◌||◌, List, [], ◌∷◌, Option, none, some, leb,
  ltb, ◌==◌, if◌then◌else◌, length, take, ◌++◌,
}
use plv.Go.Text.{Text}

-- Where a match stands: the byte before, what is left, and the groups captured so far, newest first.
pub record State : Type 0 where
  pub before : Option ℕ
  pub rest : Text
  pub groups : List (ℕ × Text)

abbrev pub Pattern : Type 0
Pattern = State → (State → Option State) → Option State

unfoldable pub step_over : State → ℕ → Text → State
step_over s c r = record s { before = some c; rest = r }

unfoldable pub one : (ℕ → Bool) → Pattern
one p s k = elim s.rest [ [] ↦ none | c ∷ r ↦ if p c then k (step_over s c r) else none ]

unfoldable pub nothing : Pattern
nothing s k = k s

infixr 40 ◌⋅◌
unfoldable pub ◌⋅◌ : Pattern → Pattern → Pattern
◌⋅◌ p q s k = p s (λ t. q t k)

unfoldable pub or_else : Pattern → Pattern → Pattern
or_else p q s k = elim (p s k) [ none ↦ q s k | some t ↦ some t ]

unfoldable pub text : Text → Pattern
text [] = nothing
text (c ∷ l) = one (λ d. d == c) ⋅ text l

-- A round that consumes nothing is not repeated, so the bytes left bound the rounds.
unfoldable pub star_from : ℕ → Pattern → Pattern
star_from zero p s k = k s
star_from (suc n) p s k =
    elim (p s (λ t. if ltb (length t.rest) (length s.rest) then star_from n p t k else none)) [
      | none ↦ k s
      | some t ↦ some t
    ]

unfoldable pub star : Pattern → Pattern
star p s k = star_from (length s.rest) p s k

unfoldable pub lazy_from : ℕ → Pattern → Pattern
lazy_from zero p s k = k s
lazy_from (suc n) p s k = elim (k s) [
  | none ↦ p s (λ t. if ltb (length t.rest) (length s.rest) then lazy_from n p t k else none)
  | some t ↦ some t
]

unfoldable pub lazy_star : Pattern → Pattern
lazy_star p s k = lazy_from (length s.rest) p s k

unfoldable pub plus : Pattern → Pattern
plus p = p ⋅ star p

unfoldable pub optional : Pattern → Pattern
optional p = or_else p nothing

-- p{n}
unfoldable pub times : ℕ → Pattern → Pattern
times zero p = nothing
times (suc n) p = p ⋅ times n p

-- At most n more, as many as possible.
unfoldable pub up_to : ℕ → Pattern → Pattern
up_to zero p = nothing
up_to (suc n) p = optional (p ⋅ up_to n p)

unfoldable pub group : ℕ → Pattern → Pattern
group i p s k =
    p s (λ t. k (record t { groups = (i, take (length s.rest - length t.rest) s.rest) ∷ t.groups }))

-- ^ without the multi-line flag.
unfoldable pub at_start : Pattern
at_start s k = elim s.before [ none ↦ k s | some c ↦ none ]

unfoldable pub is_digit : ℕ → Bool
is_digit c = leb b'0' c && leb c b'9'

unfoldable pub is_alpha : ℕ → Bool
is_alpha c = (leb b'a' c && leb c b'z') || (leb b'A' c && leb c b'Z')

unfoldable pub is_hex : ℕ → Bool
is_hex c = is_digit c || (leb b'A' c && leb c b'F') || (leb b'a' c && leb c b'f')

unfoldable pub is_word : ℕ → Bool
is_word c = is_digit c || is_alpha c || c == b'_'

-- \s
unfoldable pub is_blank : ℕ → Bool
is_blank c = c == 9 || c == 10 || c == 12 || c == 13 || c == 32

-- .
unfoldable pub is_any : ℕ → Bool
is_any c = not (c == 10)

-- One of the bytes of a text.
unfoldable pub among : Text → ℕ → Bool
among [] c = false
among (d ∷ l) c = c == d || among l c

unfoldable pub except : Text → ℕ → Bool
except l c = not (among l c)

is_word_at : Option ℕ → Bool
is_word_at none = false
is_word_at (some c) = is_word c

head : Text → Option ℕ
head [] = none
head (c ∷ r) = some c

-- \b
unfoldable pub word_edge : Pattern
unfolding is_word_at head
word_edge s k =
    let a = is_word_at s.before in
    let b = is_word_at (head s.rest) in if (a && not b) || (not a && b) then k s else none

-- The leftmost match from here on: the state at its end.
unfoldable pub find_from : Pattern → Option ℕ → Text → Option State
find_from p b [] = p (record { before = b; rest = []; groups = [] }) some
find_from p b (c ∷ r) = elim (p (record { before = b; rest = c ∷ r; groups = [] }) some) [
  | none ↦ find_from p (some c) r
  | some t ↦ some t
]

unfoldable pub find : Pattern → Text → Option State
find p s = find_from p none s

unfoldable pub matches : Pattern → Text → Bool
matches p s = elim (find p s) [ none ↦ false | some t ↦ true ]

unfoldable pub group_in : ℕ → List (ℕ × Text) → Text
group_in i [] = []
group_in i ((j, t) ∷ gs) = let rest = group_in i gs in if i == j then t else rest

-- The text of group i, empty if the group took no part.
unfoldable pub sub : State → ℕ → Text
sub m i = group_in i m.groups

-- ReplaceAllStringFunc for a pattern that matches no empty text. Each round leaves a shorter text.
unfoldable pub replace_from : ℕ → Pattern → (Text → Text) → Option ℕ → Text → Text
replace_from zero p f b s = s
replace_from (suc n) p f b [] = []
replace_from (suc n) p f b (c ∷ r) =
    elim (p (record { before = b; rest = c ∷ r; groups = [] }) some) [
      | none ↦ c ∷ replace_from n p f (some c) r
      | some t ↦
          f (take (length (c ∷ r) - length t.rest) (c ∷ r)) ++ replace_from n p f t.before t.rest
    ]

unfoldable pub replace_all : Pattern → (Text → Text) → Text → Text
replace_all p f s = replace_from (suc (length s)) p f none s

-- FindAllStringSubmatch for a pattern that matches no empty text: the last match.
unfoldable pub find_last_from : ℕ → Pattern → Option ℕ → Text → Option State
find_last_from zero p b s = none
find_last_from (suc n) p b s = elim (find_from p b s) [
  | none ↦ none
  | some m ↦ elim (find_last_from n p m.before m.rest) [ none ↦ some m | some m' ↦ some m' ]
]

unfoldable pub find_last : Pattern → Text → Option State
find_last p s = find_last_from (suc (length s)) p none s
