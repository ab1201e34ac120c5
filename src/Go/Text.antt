-- ===== src/Go/Text.antt =====
-- Go strings as lists of bytes, and the functions of package strings that the program calls.
-- Letters and white space are those of ASCII.
use Prim.Native.Char.{code}
use plv.Prelude.{
  ℕ, ◌+◌, ◌-◌, String, ◌≡◌, refl, ◌↔◌, Bool, true, false, ◌&&◌, ◌||◌, List, [], ◌∷◌, ◌++◌, map,
  Option, none, some, arith, ltb, leb, ◌==◌, if◌then◌else◌, length, drop, any,
}

abbrev pub Text : Type 0
Text = List ℕ

-- A literal: the code points of an ASCII text are its bytes.
unfoldable pub lit : String → Text
lit String.[] = []
lit (String.◌∷◌ c s) = code c ∷ lit s

abbrev pub is_empty : Text → Bool
is_empty [] = true
is_empty (c ∷ s) = false

unfoldable pub text_eq : Text → Text → Bool
text_eq [] [] = true
text_eq [] (d ∷ t) = false
text_eq (c ∷ s) [] = false
text_eq (c ∷ s) (d ∷ t) = let rest = text_eq s t in if c == d then rest else false

pub text_eq_iff : (s t : Text) → (text_eq s t ≡ true) ↔ (s ≡ t)
unfolding text_eq
text_eq_iff [] [] = ground arith
text_eq_iff [] (d ∷ t) = ground arith
text_eq_iff (c ∷ s) [] = ground arith
text_eq_iff (c ∷ s) (d ∷ t) = ground (arith, text_eq_iff s t)

pub text_eq_refl : (s : Text) → text_eq s s ≡ true
text_eq_refl s = (text_eq_iff s s).1 refl

unfoldable pub has_prefix : Text → Text → Bool
has_prefix s [] = true
has_prefix [] (d ∷ t) = false
has_prefix (c ∷ s) (d ∷ t) = let rest = has_prefix s t in if c == d then rest else false

unfoldable pub contains : Text → Text → Bool
unfolding has_prefix
contains [] t = has_prefix [] t
contains (c ∷ s) t = let rest = contains s t in if has_prefix (c ∷ s) t then true else rest

unfoldable pub has_suffix : Text → Text → Bool
unfolding text_eq
has_suffix s t = leb (length t) (length s) && text_eq (drop (length s - length t) s) t

unfoldable pub lower_byte : ℕ → ℕ
lower_byte c = if leb b'A' c && leb c b'Z' then c + 32 else c

unfoldable pub to_lower : Text → Text
unfolding lower_byte
to_lower = map lower_byte

unfoldable pub equal_fold : Text → Text → Bool
unfolding to_lower text_eq
equal_fold s t = text_eq (to_lower s) (to_lower t)

unfoldable pub is_space : ℕ → Bool
is_space c = (leb 9 c && leb c 13) || c == 32

-- Drops a prefix of bytes that pass the test.
unfoldable pub drop_while : (ℕ → Bool) → Text → Text
drop_while p [] = []
drop_while p (c ∷ s) = let rest = drop_while p s in if p c then rest else c ∷ s

-- Drops the bytes at the end that pass the test.
unfoldable pub trim_right : (ℕ → Bool) → Text → Text
trim_right p [] = []
trim_right p (c ∷ s) = elim (trim_right p s) [ [] ↦ if p c then [] else c ∷ [] | d ∷ r ↦ c ∷ d ∷ r ]

unfoldable pub trim_func : (ℕ → Bool) → Text → Text
unfolding drop_while trim_right
trim_func p s = trim_right p (drop_while p s)

unfoldable pub trim_space : Text → Text
unfolding trim_func is_space
trim_space = trim_func is_space

unfoldable pub trim_prefix : Text → Text → Text
unfolding has_prefix
trim_prefix s t = if has_prefix s t then drop (length t) s else s

-- strings.FieldsFunc: the maximal runs of bytes that fail the test.
unfoldable pub fields_from : (ℕ → Bool) → Text → Text → List Text
fields_from p word [] = if is_empty word then [] else word ∷ []
fields_from p word (c ∷ s) =
    let next = fields_from p [] s in
    let more = fields_from p (word ++ c ∷ []) s in
    if p c then (if is_empty word then next else word ∷ next) else more

unfoldable pub fields_func : (ℕ → Bool) → Text → List Text
unfolding fields_from
fields_func p s = fields_from p [] s

unfoldable pub fields : Text → List Text
unfolding fields_func is_space
fields = fields_func is_space

-- strings.Split by one byte: always at least one part.
unfoldable pub split_byte_from : ℕ → Text → Text → List Text
split_byte_from sep word [] = word ∷ []
split_byte_from sep word (c ∷ s) =
    let next = split_byte_from sep [] s in
    let more = split_byte_from sep (word ++ c ∷ []) s in if c == sep then word ∷ next else more

unfoldable pub split_byte : ℕ → Text → List Text
unfolding split_byte_from
split_byte sep s = split_byte_from sep [] s

unfoldable pub join : List Text → Text → Text
join [] sep = []
join (s ∷ []) sep = s
join (s ∷ t ∷ r) sep = s ++ (sep ++ join (t ∷ r) sep)

-- strings.Compare: bytewise.
pub data Cmp : Type 0 where
  less equal greater : Cmp

unfoldable pub compare_text : Text → Text → Cmp
compare_text [] [] = equal
compare_text [] (d ∷ t) = less
compare_text (c ∷ s) [] = greater
compare_text (c ∷ s) (d ∷ t) =
    let rest = compare_text s t in if ltb c d then less else if ltb d c then greater else rest

-- What follows the last occurrence of a byte, if it occurs (strings.LastIndexByte).
unfoldable pub after_last : ℕ → Text → Option Text
after_last c [] = none
after_last c (d ∷ s) = elim (after_last c s) [
  | none ↦ if d == c then some s else none
  | some t ↦ some t
]

-- What stands before and after the first occurrence of a byte (strings.IndexByte).
unfoldable pub cut : ℕ → Text → Option (Text × Text)
cut c [] = none
cut c (d ∷ s) =
    let rest = cut c s in
    if d == c then some ([], s) else elim rest [ none ↦ none | some (a, b) ↦ some (d ∷ a, b) ]

unfoldable pub elem : Text → List Text → Bool
elem t = any (λ s. text_eq s t)
