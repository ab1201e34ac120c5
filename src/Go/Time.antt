-- ===== src/Go/Time.antt =====
-- Package time: an instant is the number of nanoseconds since the zero time, the first of January of
-- year 1 in UTC, so 0 is the zero time; instants before it do not occur. Zone data is a parameter.
pub mod Parse
pub mod Format
use plv.Prelude.{
  ℤ, pos, negsuc, ◌^◌, ℕ, zero, suc, ◌+◌, ◌-◌, ◌*◌, ◌/◌, ◌%◌, Bool, ◌&&◌, ◌||◌, not, ◌==◌, ltb, leb,
  if◌then◌else◌, min, List, [], ◌∷◌,
}

abbrev pub Time : Type 0
Time = ℕ

-- A wall clock is counted as if it were UTC.
abbrev pub Wall : Type 0
Wall = ℕ

-- time.Local: the zone of the machine.
pub record Zone : Type 0 where
  pub instant : Wall → Time
  pub wall : Time → Wall

abbrev pub utc : Zone
utc = record { instant = λ w. w; wall = λ t. t }

-- What a run reads of its surroundings: time.Now and time.Local.
pub record Env : Type 0 where
  pub now : Time
  pub local : Zone

abbrev pub second : ℕ
second = 1_000_000_000

abbrev pub minute : ℕ
minute = 60 * second

abbrev pub hour : ℕ
hour = 60 * minute

abbrev pub is_zero : Time → Bool
is_zero t = t == 0

-- A time.Duration: nanoseconds in an int64.
abbrev pub Duration : Type 0
Duration = ℤ

-- t.Add(-d), not before the zero time; the least int64 is its own negation.
unfoldable pub ago : Time → Duration → Time
ago t (pos n) = t - n
ago t (negsuc n) = if n == 2 ^ 63 - 1 then t - 2 ^ 63 else t + suc n

-- An int64 product of natural numbers, with its wrap-around.
unfoldable pub int64 : ℕ → ℤ
int64 n = let m = n % 2 ^ 64 in if ltb m (2 ^ 63) then pos m else negsuc (2 ^ 64 - 1 - m)

-- Sub followed by the absolute value.
abbrev pub distance : Time → Time → ℕ
distance a b = (a - b) + (b - a)

unfoldable pub is_leap : ℕ → Bool
is_leap y = (y % 4 == 0) && (not (y % 100 == 0) || y % 400 == 0)

unfoldable pub days_in : ℕ → ℕ → ℕ
days_in m y =
    if m == 2
    then (if is_leap y then 29 else 28)
    else if m == 4 || m == 6 || m == 9 || m == 11
    then 30
    else 31

-- Days of the year before month m, counted from 1.
unfoldable pub days_before_month : ℕ → ℕ → ℕ
days_before_month zero y = 0
days_before_month (suc zero) y = 0
days_before_month (suc (suc m)) y = days_in (suc m) y + days_before_month (suc m) y

-- Days from the zero time to the year y, for y from 1.
unfoldable pub days_before_year : ℕ → ℕ
days_before_year y = let n = y - 1 in 365 * n + n / 4 - n / 100 + n / 400

-- time.Date over a wall clock, for years from 1.
unfoldable pub wall_of : ℕ → ℕ → ℕ → ℕ → ℕ → ℕ → ℕ → Wall
wall_of y mon d h m s ns =
    let days = days_before_year y + days_before_month mon y + (d - 1) in
    ((days * 24 + h) * 60 + m) * minute + s * second + ns

-- The year of a wall clock.
unfoldable pub year_of : Wall → ℕ
year_of w =
    let d = w / (24 * hour) in
    let n400 = d / 146097 in
    let d1 = d % 146097 in
    let n100 = min 3 (d1 / 36524) in
    let d2 = d1 - n100 * 36524 in
    let n4 = d2 / 1461 in
    let d3 = d2 % 1461 in let n1 = min 3 (d3 / 365) in 400 * n400 + 100 * n100 + 4 * n4 + n1 + 1
