-- ===== src/Parser/Extract.antt =====
-- The extract functions of parser.go.
use plv.Prelude.{
  ℕ, ◌+◌, ◌-◌, ◌*◌, ◌^◌, ◌&&◌, ◌||◌, not, ◌==◌, ltb, if◌then◌else◌, [], ◌∷◌, min, Option, none,
  some,
}
use plv.Go.Text.{Text, trim_space, is_empty}
use plv.Go.Regexp.{State, Pattern, find, find_last, sub}
use plv.Go.Time.{Time, Env, hour, wall_of, year_of}
use plv.Go.Time.Parse.{parse_rfc3339, parse_stamp}
use plv.Go.Utf8.{to_valid_utf8}
use plv.Parser.Patterns.{
  re_to, re_from, re_subject, re_size, re_message_id, re_status, re_relay, re_client,
  re_orig_client, re_connect, re_tls, re_timestamp, re_bsd_stamp,
}

-- What a pattern's match gives, or a default.
abbrev pub on_match {ℓ} : {A : Type ℓ} → Pattern → Text → A → (State → A) → A
on_match p s d f = elim (find p s) [ none ↦ d | some m ↦ f m ]

abbrev field : State → ℕ → Text
field m i = trim_space (sub m i)

unfoldable pub extract_to : Text → Text
extract_to s = on_match re_to s [] λ m.
    if not (is_empty (sub m 3))
    then field m 3
    else if not (is_empty (sub m 1))
    then field m 1
    else field m 2

unfoldable pub extract_from : Text → Text
extract_from s = on_match re_from s [] λ m. field m 1

-- The control characters of a valid text: dropped, but line breaks and tabs become spaces.
unfoldable pub fold_controls : Text → Text
fold_controls [] = []
fold_controls (c ∷ []) =
    if c == 10 || c == 13 || c == 9 then b' ' ∷ [] else if ltb c 32 || c == 127 then [] else c ∷ []
fold_controls (c ∷ d ∷ s) =
    let from_d = fold_controls (d ∷ s) in
    let from_s = fold_controls s in
    if c == 10 || c == 13 || c == 9
    then b' ' ∷ from_d
    else if ltb c 32 || c == 127
    then from_d
    else if c == 0xC2 && ltb d 0xA0
    then from_s
    else c ∷ from_d

unfoldable pub sanitize_text : Text → Text
sanitize_text s = trim_space (fold_controls (to_valid_utf8 (0xEF ∷ 0xBF ∷ 0xBD ∷ []) s))

-- `decode` is mime.WordDecoder's DecodeHeader; none is its error.
unfoldable pub extract_subject : (Text → Option Text) → Text → Text
extract_subject decode s =
    on_match re_subject s []
      λ m. let raw = field m 1 in sanitize_text (elim (decode raw) [ none ↦ raw | some d ↦ d ])

unfoldable pub decimal_value : ℕ → Text → ℕ
decimal_value n [] = n
decimal_value n (c ∷ s) = decimal_value (n * 10 + (c - 48)) s

abbrev pub max_int64 : ℕ
max_int64 = 2 ^ 63 - 1

-- strconv.ParseInt of digits stops at the largest value.
unfoldable pub extract_size : Text → ℕ
extract_size s = on_match re_size s 0 λ m. min max_int64 (decimal_value 0 (field m 1))

unfoldable pub extract_message_id : Text → Text
extract_message_id s = on_match re_message_id s [] λ m. field m 1

-- The last status of the text: its code and detail.
unfoldable pub extract_status : Text → Text × Text
extract_status s = elim (find_last re_status s) [
  | none ↦ ([], [])
  | some m ↦ if is_empty (field m 1) then (field m 3, field m 4) else (field m 1, field m 2)
]

unfoldable pub extract_relay : Text → Text × Text × Text
extract_relay s = on_match re_relay s ([], [], []) λ m. (field m 1, field m 2, field m 3)

unfoldable pub extract_client : Text → Text × Text
extract_client s = on_match re_client s ([], []) λ m. (field m 1, field m 2)

unfoldable pub extract_connect : Text → Text × Text
extract_connect s = on_match re_connect s ([], []) λ m. (field m 1, field m 2)

unfoldable pub extract_orig_client : Text → Text × Text
extract_orig_client s = on_match re_orig_client s ([], []) λ m. (field m 1, field m 2)

unfoldable pub extract_tls : Text → Text × Text × Text
extract_tls s = on_match re_tls s ([], [], []) λ m. (field m 1, field m 2, field m 3)

-- A stamp with no year, read at `ref` in the local zone: not more than a day after `ref`.
unfoldable pub infer_year : Env → ℕ × ℕ × ℕ → Time
infer_year env (m, d, t) =
    let zone = env.local in
    let y = year_of (zone.wall env.now) in
    let got = zone.instant (wall_of y m d 0 0 t 0) in
    if ltb (env.now + 24 * hour) got then zone.instant (wall_of (y - 1) m d 0 0 t 0) else got

unfoldable pub bsd_timestamp : Env → Text → Time
bsd_timestamp env s =
    on_match re_bsd_stamp s 0
      λ m. elim (parse_stamp (sub m 1)) [ none ↦ 0 | some p ↦ infer_year env p ]

-- extractTimestamp: RFC3339 first, then the stamp of traditional syslog, else the zero time.
unfoldable pub extract_timestamp : Env → Text → Time
extract_timestamp env s =
    on_match re_timestamp s (bsd_timestamp env s)
      λ m. elim (parse_rfc3339 (sub m 1)) [ none ↦ bsd_timestamp env s | some t ↦ t ]
