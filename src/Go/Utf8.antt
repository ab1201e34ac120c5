-- ===== src/Go/Utf8.antt =====
-- Package utf8 and strings.ToValidUTF8, over bytes.
use plv.Prelude.{
  ℕ, zero, suc, ◌-◌, Bool, true, false, ◌&&◌, ◌==◌, leb, ltb, if◌then◌else◌, [], ◌∷◌, ◌++◌,
}
use plv.Go.Text.{Text}

abbrev between : ℕ → ℕ → ℕ → Bool
between lo hi c = leb lo c && leb c hi

tail_byte : ℕ → Bool
tail_byte c = between 0x80 0xBF c

-- The second byte's range depends on the first.
second_byte : ℕ → ℕ → Bool
second_byte a b =
    if a == 0xE0
    then between 0xA0 0xBF b
    else if a == 0xED
    then between 0x80 0x9F b
    else if a == 0xF0
    then between 0x90 0xBF b
    else if a == 0xF4
    then between 0x80 0x8F b
    else tail_byte b

two : Text → Bool
two (a ∷ b ∷ s) = between 0xC2 0xDF a && tail_byte b
two s = false

three : Text → Bool
three (a ∷ b ∷ c ∷ s) = between 0xE0 0xEF a && second_byte a b && tail_byte c
three s = false

four : Text → Bool
four (a ∷ b ∷ c ∷ d ∷ s) = between 0xF0 0xF4 a && second_byte a b && tail_byte c && tail_byte d
four s = false

-- The width of the rune at the head, 0 if the bytes there are not valid.
unfoldable pub rune_width : Text → ℕ
unfolding tail_byte second_byte two three four
rune_width [] = 0
rune_width (a ∷ s) =
    if ltb a 0x80
    then 1
    else if two (a ∷ s)
    then 2
    else if three (a ∷ s)
    then 3
    else if four (a ∷ s)
    then 4
    else 0

-- `left` bytes of a valid rune are still to be copied; `bad` is set inside a run of invalid bytes.
repair : Text → ℕ → Bool → Text → Text
repair mark left bad [] = []
repair mark (suc left) bad (c ∷ s) = c ∷ repair mark left false s
repair mark zero bad (c ∷ s) =
    let w = rune_width (c ∷ s) in
    let invalid = repair mark zero true s in
    let valid = repair mark (w - 1) false s in
    if w == 0 then (if bad then invalid else mark ++ invalid) else c ∷ valid

-- A valid text is returned as it is.
unfoldable pub to_valid_utf8 : Text → Text → Text
unfolding repair rune_width
to_valid_utf8 mark s = repair mark zero false s
