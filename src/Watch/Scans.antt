-- ===== src/Watch/Scans.antt =====
-- The live tail of rspamd.go on a store whose indexes are in range.
use plv.Prelude.{
  ℕ, ◌+◌, ◌≡◌, ◌≤◌, false, ◌||◌, ◌==◌, List, [], ◌∷◌, some, length, drop, arith, Option-cases, inl,
  inr, ltb, get_elem?, if◌then◌else◌,
}
use plv.Go.Text.{Text, trim_right}
use plv.Go.Map.{lookup}
use plv.Records.{Record}
use plv.Rspamd.{enrich_with_rspamd, parse_rspamd_line}
use plv.Store.{Store, rec_key}
use plv.Store.Index.{IsIndexed, Extends, Extends-refl, Extends-trans, Extends-put}
use plv.Store.Lines.{Kept-enrich}
use plv.Store.Verdicts.{local_row, apply_rspamd_verdict}
use plv.Watch.{whole_lines_from}
use plv.Watch.Bytes.{has_newline, total, drop-whole_lines}
use plv.Watch.Scanner.{scan_line, scan_lines, scan_tail, scan_tick}

get_elem?-local_row :
    (s : Store) (qid : Text) (i : ℕ) (r : Record)
    → local_row s qid ≡ some (i, r)
    → get_elem? s.records i ≡ some r
unfolding local_row
get_elem?-local_row s qid i r e = elim (Option-cases (lookup (rec_key [] qid) s.by_queue_id)) [
  | inl n ↦ absurd (ground arith)
  | inr (j, p) ↦ elim (Option-cases (get_elem? s.records j)) [
    | inl n ↦ absurd (ground arith)
    | inr (row, q) ↦ ground arith
  ]
]

scan_line-Extends :
    (line : Text) (s : Store) (up : List Record)
    → IsIndexed s
    → Extends s (scan_line line (s, up)).0.0
unfolding scan_line apply_rspamd_verdict
scan_line-Extends line s up h = elim (Option-cases (parse_rspamd_line line)) [
  | inl e ↦ rw (scan_line, e) (Extends-refl s h)
  | inr ((qid, v), e) ↦ elim (Option-cases (local_row s qid)) [
    | inl n ↦ rw (scan_line, e, apply_rspamd_verdict, n) (Extends-refl s h)
    | inr ((i, r), n) ↦
        rw (scan_line, e, apply_rspamd_verdict, n)
          (Extends-put s i r (enrich_with_rspamd r v) h (get_elem?-local_row s qid i r n)
            (Kept-enrich r v))
  ]
]

-- parseRspamdFile
pub scan_lines-Extends :
    (ls : List Text) (s : Store) (up : List Record)
    → IsIndexed s
    → Extends s (scan_lines ls (s, up)).0.0
unfolding scan_lines
scan_lines-Extends [] s up h = Extends-refl s h
scan_lines-Extends (l ∷ ls) s up h =
    let sc = (scan_line l (s, up)).0 in
    let x = scan_line-Extends l s up h in
    Extends-trans s sc.0 (scan_lines ls sc).0.0 x (scan_lines-Extends ls sc.0 sc.1 x.0)

scan_tail-Extends :
    (ls : List Text) (off : ℕ) (s : Store) (up : List Record)
    → IsIndexed s
    → Extends s (scan_tail ls (off, (s, up))).1.0
      × ((scan_tail ls (off, (s, up))).0 ≡ off + total ls)
unfolding scan_tail total
scan_tail-Extends [] off s up h = (Extends-refl s h, omega arith)
scan_tail-Extends (l ∷ ls) off s up h =
    let sc = (scan_line (trim_right (λ c. c == 10 || c == 13) l) (s, up)).0 in
    let x = scan_line-Extends (trim_right (λ c. c == 10 || c == 13) l) s up h in
    let (y, e) = scan_tail-Extends ls (off + length l) sc.0 sc.1 x.0 in
    (Extends-trans s sc.0 (scan_tail ls (off + length l, sc)).1.0 x y, omega (arith, e))

-- On a store whose indexes are in range, a tick over the scanner's log, whatever it holds, loses no
-- key, row or line of the store, and the offset then stands in the file, behind its last newline.
pub scan_tick-Extends :
    (file : Text) (off : ℕ) (s : Store) (up : List Record)
    → IsIndexed s
    → Extends s (scan_tick file (off, (s, up))).1.0
      × ((scan_tick file (off, (s, up))).0 ≤ length file)
      × (has_newline (drop (scan_tick file (off, (s, up))).0 file) ≡ false)
unfolding scan_tick
scan_tick-Extends file off s up h =
    let from : ℕ = if ltb (length file) off then 0 else off in
    let (x, e) = scan_tail-Extends (whole_lines_from [] (drop from file)) from s up h in
    let (le, clean) = drop-whole_lines from file (ground arith) in (x, rw e le, rw e clean)
