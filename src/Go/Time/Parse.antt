-- ===== src/Go/Time/Parse.antt =====
-- time.Parse for the layouts RFC3339Nano, Stamp and "2006-01-02 15:04:05".
use plv.Prelude.{
  ℕ, zero, suc, ◌+◌, ◌-◌, ◌*◌, Bool, ◌&&◌, ◌||◌, ◌==◌, ltb, leb, if◌then◌else◌, List, [], ◌∷◌,
  Option, none, some, length, take,
}
use plv.Go.Text.{Text, lit, to_lower, text_eq}
use plv.Go.Regexp.{is_digit}
use plv.Go.Time.{Time, Wall, days_in, wall_of, minute}

infixl 5 ◌>>=◌ ◌>>◌
abbrev pub ◌>>=◌ {ℓ κ} : {A : Type ℓ} {B : Type κ} → Option A → (A → Option B) → Option B
none >>= f = none
some a >>= f = f a

abbrev pub ◌>>◌ {ℓ} : {B : Type ℓ} → Option (Unit {0}) → Option B → Option B
m >> k = m >>= λ _. k

abbrev pub check : Bool → Option (Unit {0})
check b = if b then some tt else none

-- A parser returns its value and the rest.
abbrev Parser : Type 0
Parser = Text → Option (ℕ × Text)

abbrev digit : ℕ → ℕ
digit c = c - 48

-- getnum with fixed width 2.
two_digits : Parser
two_digits (a ∷ b ∷ s) = if is_digit a && is_digit b then some (digit a * 10 + digit b, s) else none
two_digits s = none

-- getnum without fixed width: a second digit is taken if there is one.
one_or_two : Parser
one_or_two [] = none
one_or_two (a ∷ []) = if is_digit a then some (digit a, []) else none
one_or_two (a ∷ b ∷ s) =
    if is_digit a
    then (if is_digit b then some (digit a * 10 + digit b, s) else some (digit a, b ∷ s))
    else none

four_digits : Parser
four_digits s = do (hi, s) ← two_digits s; (lo, s) ← two_digits s; some (hi * 100 + lo, s)

skip : ℕ → Text → Option Text
skip d [] = none
skip d (c ∷ s) = if c == d then some s else none

-- The leading digits: their value, how many, and the rest.
digits_from : ℕ → ℕ → Text → ℕ × ℕ × Text
digits_from v n [] = (v, n, [])
digits_from v n (c ∷ s) =
    let more = digits_from (v * 10 + digit c) (n + 1) s in
    if is_digit c then more else (v, n, c ∷ s)

-- 10 to the n
ten_to : ℕ → ℕ
ten_to zero = 1
ten_to (suc n) = 10 * ten_to n

-- At most nine digits count; the others are dropped.
fraction_of : Text → ℕ × Text
fraction_of s =
    let (v, n, rest) = digits_from 0 0 s in
    let (v9, n9, _) = digits_from 0 0 (take 9 s) in (v9 * ten_to (9 - n9), rest)

-- An optional fraction: a point or comma with a digit behind it.
fraction : Text → ℕ × Text
fraction (p ∷ c ∷ s) =
    if (p == b'.' || p == b',') && is_digit c then fraction_of (c ∷ s) else (0, p ∷ c ∷ s)
fraction s = (0, s)

-- hh:mm:ss, the hour in one digit or two.
clock : Text → Option (ℕ × Text)
clock s = do
  (h, s) ← one_or_two s
  check (ltb h 24)
  s ← skip b':' s
  (m, s) ← two_digits s
  check (ltb m 60)
  s ← skip b':' s
  (sec, s) ← two_digits s
  check (ltb sec 60)
  some ((h * 60 + m) * 60 + sec, s)

abbrev is_date : ℕ → ℕ → ℕ → Bool
is_date y m d = leb 1 m && leb m 12 && leb 1 d && leb d (days_in m y)

date : Text → Option (ℕ × ℕ × ℕ × Text)
date s = do
  (y, s) ← four_digits s
  s ← skip b'-' s
  (m, s) ← two_digits s
  s ← skip b'-' s
  (d, s) ← two_digits s
  check (is_date y m d)
  some (y, m, d, s)

-- Z, or an offset: whether it is east of UTC, and its nanoseconds.
offset : Text → Option (Bool × ℕ)
offset (c ∷ []) = do check (c == b'Z'); some (Bool.true, 0)
offset (sign ∷ s) = do
  check (sign == b'+' || sign == b'-')
  (h, s) ← two_digits s
  check (leb h 24)
  s ← skip b':' s
  (m, s) ← two_digits s
  check (leb m 60)
  check (length s == 0)
  some (sign == b'+', (h * 60 + m) * minute)
offset [] = none

-- The wall clock and the offset of an RFC3339 stamp.
unfoldable pub parse_rfc3339_parts : Text → Option (Wall × Bool × ℕ)
unfolding two_digits one_or_two four_digits skip digits_from ten_to fraction_of fraction clock date
    offset
parse_rfc3339_parts s = do
  (y, m, d, s) ← date s
  s ← skip b'T' s
  (t, s) ← clock s
  let (ns, s) = fraction s
  (east, off) ← offset s
  some (wall_of y m d 0 0 t ns, east, off)

-- The instant in UTC.
unfoldable pub parse_rfc3339 : Text → Option Time
unfolding parse_rfc3339_parts
parse_rfc3339 s = do
  (w, east, off) ← parse_rfc3339_parts s
  some (if east then w - off else w + off)

month_index : ℕ → List Text → Text → Option ℕ
month_index i [] s = none
month_index i (m ∷ ms) s =
    let rest = month_index (i + 1) ms s in
    if text_eq (to_lower m) (to_lower (take 3 s)) then some i else rest

abbrev short_months : List Text
short_months =
    lit "Jan"
    ∷ lit "Feb"
    ∷ lit "Mar"
    ∷ lit "Apr"
    ∷ lit "May"
    ∷ lit "Jun"
    ∷ lit "Jul"
    ∷ lit "Aug"
    ∷ lit "Sep"
    ∷ lit "Oct"
    ∷ lit "Nov"
    ∷ lit "Dec"
    ∷ []

drop3 : Text → Text
drop3 (a ∷ b ∷ c ∷ s) = s
drop3 s = []

-- One space or more.
spaces : Text → Option Text
spaces [] = none
spaces (c ∷ s) = elim (spaces s) [
  | none ↦ if c == b' ' then some s else none
  | some r ↦ if c == b' ' then some r else none
]

-- A time.Stamp: month, day and second of the day. Its year is 0, a leap year.
unfoldable pub parse_stamp : Text → Option (ℕ × ℕ × ℕ)
unfolding two_digits one_or_two skip clock month_index drop3 spaces
parse_stamp s = do
  m ← month_index 1 short_months s
  s ← spaces (drop3 s)
  (d, s) ← one_or_two s
  s ← spaces s
  (t, s) ← clock s
  check (length s == 0)
  check (leb 1 d && leb d (days_in m 0))
  some (m, d, t)

-- "2006-01-02 15:04:05"
unfoldable pub parse_date_time : Text → Option Wall
unfolding two_digits one_or_two four_digits skip clock date spaces
parse_date_time s = do
  (y, m, d, s) ← date s
  s ← spaces s
  (t, s) ← clock s
  check (length s == 0)
  some (wall_of y m d 0 0 t 0)
