-- ===== src/Watch/Scanner.antt =====
-- rspamd.go: the live tail of the scanner's log. The state is the offset of the watcher, the store, and
-- the snapshots that were flushed.
use plv.Prelude.{
  ℕ, ◌+◌, ◌*◌, Bool, false, ◌||◌, ◌==◌, ltb, if◌then◌else◌, List, [], ◌∷◌, ◌++◌, none, some, length,
  drop,
}
use plv.Go.Text.{Text, trim_right}
use plv.Go.Time.{Env, minute}
use plv.Records.{Record}
use plv.Rspamd.{parse_rspamd_line}
use plv.Store.{Store}
use plv.Store.Verdicts.{apply_rspamd_verdict, prune_rspamd_pending}
use plv.Watch.{whole_lines_from}

-- The store and the flushed snapshots.
abbrev pub Scan : Type 0
Scan = Store × List Record

-- A line's verdict is applied, and the Boolean tells whether a record had it.
unfoldable pub scan_line : Text → Scan → Scan × Bool
scan_line line (s, up) = elim (parse_rspamd_line line) [
  | none ↦ ((s, up), false)
  | some found ↦ let (t, out, hit) = apply_rspamd_verdict found.0 found.1 s in ((t, up ++ out), hit)
]

-- parseRspamdFile over the lines of its scanner: the number of verdicts that a record had.
unfoldable pub scan_lines : List Text → Scan → Scan × ℕ
scan_lines [] sc = (sc, 0)
scan_lines (l ∷ ls) sc =
    let (sc1, hit) = scan_line l sc in
    let (sc2, n) = scan_lines ls sc1 in (sc2, if hit then n + 1 else n)

unfoldable pub scan_tail : List Text → ℕ × Scan → ℕ × Scan
scan_tail [] w = w
scan_tail (l ∷ ls) (off, sc) =
    scan_tail ls (off + length l, (scan_line (trim_right (λ c. c == 10 || c == 13) l) sc).0)

-- A file that shrank is read from its start.
unfoldable pub scan_tick : Text → ℕ × Scan → ℕ × Scan
scan_tick file (off, sc) =
    let from = if ltb (length file) off then 0 else off in
    scan_tail (whole_lines_from [] (drop from file)) (from, sc)

-- The case of the second ticker in Run.
unfoldable pub scan_prune : Env → ℕ × Scan → ℕ × Scan
scan_prune env (off, (s, up)) = (off, (prune_rspamd_pending env (15 * minute) s, up))
