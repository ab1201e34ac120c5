-- ===== src/Go/Strconv.antt =====
-- Package strconv: Atoi and Itoa; hex.EncodeToString and DecodeString.
pub mod Hex
use plv.Prelude.{
  ℤ, pos, negsuc, ℕ, zero, suc, ◌+◌, ◌-◌, ◌*◌, ◌/◌, ◌%◌, ◌^◌, Bool, true, false, ◌&&◌, ltb, leb,
  ◌==◌, if◌then◌else◌, [], ◌∷◌, Option, none, some,
}
use plv.Go.Text.{Text}
use plv.Go.Regexp.{is_digit}
use plv.Go.Time.Parse.{◌>>=◌}
use plv.Go.Time.Format.{decimal}

-- The value of digits behind a value; none at a byte that is no digit.
unfoldable pub digits_value : ℕ → Text → Option ℕ
digits_value v [] = some v
digits_value v (c ∷ s) =
    let rest = digits_value (v * 10 + (c - b'0')) s in if is_digit c then rest else none

abbrev pub negative : ℕ → ℤ
negative zero = pos 0
negative (suc n) = negsuc n

-- A value out of range gives the nearest one, and an error.
unfoldable pub signed : Bool → ℕ → ℤ × Bool
signed true v = if leb v (2 ^ 63) then (negative v, true) else (negsuc (2 ^ 63 - 1), false)
signed false v = if ltb v (2 ^ 63) then (pos v, true) else (pos (2 ^ 63 - 1), false)

unfoldable pub unsigned_part : Bool → Text → ℤ × Bool
unsigned_part minus [] = (pos 0, false)
unsigned_part minus (c ∷ s) = elim (digits_value 0 (c ∷ s)) [
  | none ↦ (pos 0, false)
  | some v ↦ signed minus v
]

-- The number, and whether there was no error.
unfoldable pub atoi : Text → ℤ × Bool
unfolding signed unsigned_part
atoi [] = (pos 0, false)
atoi (c ∷ s) =
    if c == b'-'
    then unsigned_part true s
    else if c == b'+'
    then unsigned_part false s
    else unsigned_part false (c ∷ s)

unfoldable pub itoa : ℤ → Text
itoa (pos n) = decimal n
itoa (negsuc n) = b'-' ∷ decimal (suc n)

unfoldable pub hex_digit : ℕ → ℕ
hex_digit d = if ltb d 10 then b'0' + d else b'a' + (d - 10)

unfoldable pub hex_encode : Text → Text
unfolding hex_digit
hex_encode [] = []
hex_encode (c ∷ s) = hex_digit (c / 16) ∷ hex_digit (c % 16) ∷ hex_encode s

-- The value of a digit, in either case.
unfoldable pub hex_value : ℕ → Option ℕ
hex_value c =
    if is_digit c
    then some (c - b'0')
    else if leb b'a' c && leb c b'f'
    then some (c - b'a' + 10)
    else if leb b'A' c && leb c b'F'
    then some (c - b'A' + 10)
    else none

unfoldable pub hex_decode : Text → Option Text
hex_decode [] = some []
hex_decode (c ∷ []) = none
hex_decode (c ∷ d ∷ s) = do
  rest ← hex_decode s
  hi ← hex_value c
  lo ← hex_value d
  some ((hi * 16 + lo) ∷ rest)
