-- ===== src/Parser/NoQueue.antt =====
-- Rejections at SMTP time, which have no queue id: parseNoQueueReject and syntheticID of parser.go.
use Prim.Native.Nat.{bit_xor}
use plv.Prelude.{
  ℕ, zero, suc, ◌+◌, ◌*◌, ◌/◌, ◌%◌, ◌^◌, ◌&&◌, ltb, if◌then◌else◌, [], ◌∷◌, ◌++◌, Option, none,
  some,
}
use plv.Go.Text.{Text, lit, is_empty, trim_space}
use plv.Go.Regexp.{find, sub}
use plv.Go.Time.{Env}
use plv.Records.{Record, blank}
use plv.Parser.Patterns.{re_no_queue}
use plv.Parser.Extract.{extract_timestamp, extract_from, extract_to}

-- fnv.New64a: 64-bit FNV-1a.
fnv_from : ℕ → Text → ℕ
fnv_from h [] = h
fnv_from h (c ∷ s) = fnv_from (bit_xor h c * 1099511628211 % 2 ^ 64) s

unfoldable pub fnv64a : Text → ℕ
unfolding fnv_from
fnv64a = fnv_from 14695981039346656037

hex_digit : ℕ → ℕ
hex_digit d = if ltb d 10 then 48 + d else 55 + d

-- Sixteen digits are enough for 64 bits.
hex_from : ℕ → ℕ → Text → Text
hex_from zero n acc = acc
hex_from (suc f) n acc =
    let more = hex_from f (n / 16) (hex_digit (n % 16) ∷ acc) in
    if ltb n 16 then hex_digit n ∷ acc else more

-- %X
unfoldable pub upper_hex : ℕ → Text
unfolding hex_digit hex_from
upper_hex n = hex_from 16 n []

unfoldable pub synthetic_id : Text → Text → Text
synthetic_id prefix line = prefix ++ upper_hex (fnv64a line)

unfoldable pub bracket : Text → Text → Text
bracket host ip = if is_empty host && is_empty ip then [] else host ++ (lit "[" ++ (ip ++ lit "]"))

unfoldable pub parse_noqueue_reject : Env → Text → Option Record
parse_noqueue_reject env line = elim (find re_no_queue line) [
  | none ↦ none
  | some m ↦ some (record blank {
    timestamp = extract_timestamp env line;
    queue_id = synthetic_id (lit "N") line;
    from = extract_from line;
    to = extract_to line;
    status = lit "reject";
    status_detail = trim_space (sub m 4);
    client = bracket (sub m 2) (sub m 3);
    disposition = lit "rejected";
    filter_action = lit "noqueue-reject";
    filter_rule = sub m 1;
    raw_lines = line ∷ [];
  })
]
