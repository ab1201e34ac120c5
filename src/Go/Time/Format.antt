-- ===== src/Go/Time/Format.antt =====
-- Time.Format in UTC for the layouts RFC3339, "2006-01-02 15:04:05" and "2006-01-02 15".
use plv.Prelude.{ℕ, zero, suc, ◌+◌, ◌-◌, ◌*◌, ◌/◌, ◌%◌, ltb, if◌then◌else◌, [], ◌∷◌, ◌++◌}
use plv.Go.Text.{Text}
use plv.Go.Time.{Time, second, minute, hour, days_in, days_before_year, year_of}

-- The decimal digits of a number, with enough fuel for its size.
digits_of : ℕ → ℕ → Text → Text
digits_of zero n acc = acc
digits_of (suc f) n acc =
    let more = digits_of f (n / 10) ((48 + n % 10) ∷ acc) in
    if ltb n 10 then (48 + n) ∷ acc else more

-- strconv.Itoa for a number below 10 ^ 20.
unfoldable pub decimal : ℕ → Text
unfolding digits_of
decimal n = digits_of 20 n []

unfoldable pub pad2 : ℕ → Text
pad2 n = (48 + n / 10) ∷ (48 + n % 10) ∷ []

pad4 : ℕ → Text
pad4 n = if ltb n 10000 then pad2 (n / 100) ++ pad2 (n % 100) else decimal n

-- The month and day of a day of the year, both from 1.
month_day : ℕ → ℕ → ℕ → ℕ → ℕ × ℕ
month_day zero m y d = (m, d + 1)
month_day (suc left) m y d =
    let next = month_day left (m + 1) y (d - days_in m y) in
    if ltb d (days_in m y) then (m, d + 1) else next

unfoldable pub format_date : Time → Text
unfolding pad2 pad4 decimal month_day
format_date t =
    let y = year_of t in
    let (m, d) = month_day 11 1 y (t / (24 * hour) - days_before_year y) in
    pad4 y ++ (b'-' ∷ (pad2 m ++ (b'-' ∷ pad2 d)))

unfoldable pub format_clock : Time → Text
unfolding pad2
format_clock t =
    pad2 (t / hour % 24) ++ (b':' ∷ (pad2 (t / minute % 60) ++ (b':' ∷ pad2 (t / second % 60))))

unfoldable pub format_rfc3339 : Time → Text
unfolding format_date format_clock
format_rfc3339 t = format_date t ++ (b'T' ∷ (format_clock t ++ (b'Z' ∷ [])))

unfoldable pub format_date_time : Time → Text
unfolding format_date format_clock
format_date_time t = format_date t ++ (b' ' ∷ format_clock t)

unfoldable pub format_date_hour : Time → Text
unfolding format_date pad2
format_date_hour t = format_date t ++ (b' ' ∷ pad2 (t / hour % 24))
