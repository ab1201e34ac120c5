-- ===== src/Go/Strconv/Hex.antt =====
-- What hex.DecodeString makes of hex.EncodeToString.
use plv.Prelude.{ℕ, ◌+◌, ◌*◌, ◌/◌, ◌%◌, ◌<◌, ◌≡◌, refl, false, [], ◌∷◌, some, arith, any}
use plv.Go.Text.{Text, is_space, drop_while, trim_right, trim_func, trim_space}
use plv.Go.Regexp.{is_digit}
use plv.Go.Strconv.{hex_digit, hex_encode, hex_value, hex_decode}

-- Every element is a byte.
abbrev pub IsBytes : Text → Type 0
IsBytes [] = Unit
IsBytes (c ∷ s) = (c < 256) × IsBytes s

hex_value-hex_digit : (d : ℕ) → d < 16 → hex_value (hex_digit d) ≡ some d
unfolding hex_value hex_digit is_digit
hex_value-hex_digit d h = ground arith

pub hex_decode-hex_encode : (s : Text) → IsBytes s → hex_decode (hex_encode s) ≡ some s
unfolding hex_decode hex_encode
hex_decode-hex_encode [] h = refl
hex_decode-hex_encode (c ∷ s) (b, h) =
    let whole : c / 16 * 16 + c % 16 ≡ c = omega arith in
    rw
      (
        hex_decode-hex_encode s h,
        hex_value-hex_digit (c / 16) (omega arith),
        hex_value-hex_digit (c % 16) (omega arith),
        whole,
      )
      refl

-- No digit is a space.
is_space-hex_digit : (d : ℕ) → d < 16 → is_space (hex_digit d) ≡ false
unfolding is_space hex_digit
is_space-hex_digit d h = ground arith

trim_right_clean : (s : Text) → any is_space s ≡ false → trim_right is_space s ≡ s
unfolding trim_right
trim_right_clean [] h = refl
trim_right_clean (c ∷ []) h = ground arith
trim_right_clean (c ∷ d ∷ s) h = let rest = trim_right_clean (d ∷ s) (ground arith) in ground arith

any-hex_encode : (s : Text) → IsBytes s → any is_space (hex_encode s) ≡ false
unfolding hex_encode
any-hex_encode [] h = refl
any-hex_encode (c ∷ s) (b, h) =
    rw
      (
        is_space-hex_digit (c / 16) (omega arith),
        is_space-hex_digit (c % 16) (omega arith),
        any-hex_encode s h,
      )
      refl

drop_while_clean : (s : Text) → any is_space s ≡ false → drop_while is_space s ≡ s
unfolding drop_while
drop_while_clean [] h = refl
drop_while_clean (c ∷ s) h = ground arith

pub trim_space-hex_encode : (s : Text) → IsBytes s → trim_space (hex_encode s) ≡ hex_encode s
unfolding trim_space trim_func
trim_space-hex_encode s h =
    let clean = any-hex_encode s h in
    rw (drop_while_clean (hex_encode s) clean) (trim_right_clean (hex_encode s) clean)
