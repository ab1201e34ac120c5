-- ===== src/Watch.antt =====
-- watcher.go: the live tail of the mail log. The watcher goes with the store and the snapshots that
-- are to be persisted; a panic of the store is none. A file is its
-- bytes; one that cannot be opened leaves the watcher as it is.
pub mod Bytes
pub mod Tail
pub mod Flush
pub mod Groups
pub mod Held
pub mod Finished
pub mod Scanner
pub mod Scans
use plv.Prelude.{
  ℕ, ◌+◌, ◌-◌, ◌*◌, ◌==◌, Bool, not, ◌||◌, ltb, if◌then◌else◌, List, [], ◌∷◌, ◌++◌, map, Option,
  none, some, length, drop,
}
use plv.Go.Text.{Text, lit, contains, join, trim_right}
use plv.Go.Map.{Map, lookup, lookup_or, insert, delete}
use plv.Go.Time.{Env, Time}
use plv.Go.Time.Parse.{◌>>=◌}
use plv.Records.{Record}
use plv.Parser.Extract.{extract_timestamp}
use plv.Parser.Verdict.{FilterVerdict, no_verdict, merge_verdict}
use plv.Parser.Lines.{
  Kind, connect, tls, verdict, noqueue, other, queued, pending_line, kind_of, correlate,
  parse_lines,
}
use plv.Store.Add.{Work, add_all}

pub record Watcher : Type 0 where
  pub offset : ℕ
  pub pending : Map (List Text)
  pub pending_connect : Text
  pub pending_tls : Text
  pub verdicts : Map FilterVerdict
  pub verdict_ts : Map Time

unfoldable pub new_watcher : ℕ → Watcher
new_watcher offset = record {
  offset = offset;
  pending = [];
  pending_connect = [];
  pending_tls = [];
  verdicts = [];
  verdict_ts = [];
}

-- The watcher, and the store with its snapshots.
abbrev pub Live : Type 0
Live = Watcher × Work

-- AddRecords with the snapshots behind the earlier ones.
unfoldable pub add_live : Env → Watcher → List Record → Work → Option Live
add_live env w rs work = do out ← add_all env rs work; some (w, out)

unfoldable pub finalize : Env → (Text → Option Text) → Text → Live → Option Live
finalize env decode qid (w, work) = elim (lookup qid w.pending) [
  | none ↦ some (w, work)
  | some lines ↦
      let records =
        map (λ r. correlate env w.verdicts (join r.raw_lines (lit " ")) r)
          (parse_lines env decode lines) in
      add_live env (record w { pending = delete qid w.pending }) records work
]

-- A line of a queue id: a pending connection opens a new group, a pending TLS line joins any.
unfoldable pub hold_line : Text → Text → Watcher → Watcher
hold_line line qid w = elim (lookup qid w.pending) [
  | none ↦ record w {
    pending =
        insert qid (pending_line w.pending_connect ++ (pending_line w.pending_tls ++ line ∷ []))
          w.pending;
    pending_connect = [];
    pending_tls = [];
  }
  | some ls ↦ record w {
    pending = insert qid (ls ++ (pending_line w.pending_tls ++ line ∷ [])) w.pending;
    pending_tls = [];
  }
]

unfoldable pub process_kind : Env → (Text → Option Text) → Text → Kind → Live → Option Live
process_kind env decode line connect (w, work) = some (record w { pending_connect = line }, work)
process_kind env decode line tls (w, work) = some (record w { pending_tls = line }, work)
process_kind env decode line (verdict fid v) (w, work) =
    let w' = record w {
      verdicts = insert fid (merge_verdict (lookup_or fid no_verdict w.verdicts) v) w.verdicts;
      verdict_ts = insert fid (extract_timestamp env line) w.verdict_ts;
    } in
    some (w', work)
process_kind env decode line (noqueue none) (w, work) = some (w, work)
process_kind env decode line (noqueue (some rec)) (w, work) = add_live env w (rec ∷ []) work
process_kind env decode line other (w, work) = some (w, work)
process_kind env decode line (queued qid) (w, work) =
    let w' = hold_line line qid w in
    if contains line (lit ": removed") then finalize env decode qid (w', work) else some (w', work)

unfoldable pub process_line : Env → (Text → Option Text) → Text → Live → Option Live
process_line env decode line = process_kind env decode line (kind_of env line)

-- The whole lines of a text, each with its newline; what follows the last newline is left out.
unfoldable pub whole_lines_from : Text → Text → List Text
whole_lines_from word [] = []
whole_lines_from word (c ∷ s) =
    let next = whole_lines_from [] s in
    let more = whole_lines_from (word ++ c ∷ []) s in
    if c == 10 then (word ++ c ∷ []) ∷ next else more

unfoldable pub advance : ℕ → Watcher → Watcher
advance n w = record w { offset = w.offset + n }

-- The loop of a tick: the offset moves past a line before the line is processed.
unfoldable pub process_lines : Env → (Text → Option Text) → List Text → Live → Option Live
process_lines env decode [] live = some live
process_lines env decode (l ∷ ls) (w, work) = do
  live ←
      process_line env decode (trim_right (λ c. c == 10 || c == 13) l) (advance (length l) w, work)
  process_lines env decode ls live

-- A file that shrank is read from its start.
unfoldable pub rewind : Text → Watcher → Watcher
rewind file w = if ltb (length file) w.offset then record w { offset = 0 } else w

unfoldable pub tick : Env → (Text → Option Text) → Text → Live → Option Live
tick env decode file (w, work) =
    let w' = rewind file w in
    process_lines env decode (whole_lines_from [] (drop w'.offset file)) (w', work)

abbrev five_minutes : ℕ
five_minutes = 5 * 60 * 1_000_000_000

unfoldable pub is_old : Env → Time → Bool
is_old env ts = ts == 0 || ltb five_minutes (env.now - ts)

-- The loop over the pending groups, in the order of the map.
unfoldable pub flush_groups : Env → (Text → Option Text) → Map (List Text) → Live → Option Live
flush_groups env decode [] live = some live
flush_groups env decode ((qid, []) ∷ m) live = flush_groups env decode m live
flush_groups env decode ((qid, l ∷ ls) ∷ m) live = do
  next ← (if is_old env (extract_timestamp env l) then finalize env decode qid live else some live)
  flush_groups env decode m next

unfoldable pub prune_verdicts : Env → Map Time → Watcher → Watcher
prune_verdicts env [] w = w
prune_verdicts env ((fid, ts) ∷ m) w = prune_verdicts env m (
    if is_old env ts
    then record w { verdicts = delete fid w.verdicts; verdict_ts = delete fid w.verdict_ts }
    else w)

unfoldable pub flush_stale : Env → (Text → Option Text) → Live → Option Live
flush_stale env decode (w, work) = do
  (v, out) ← flush_groups env decode w.pending (w, work)
  some (prune_verdicts env v.verdict_ts v, out)
