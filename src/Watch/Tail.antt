-- ===== src/Watch/Tail.antt =====
-- tick and processLine of watcher.go on a store whose indexes are in range.
use plv.Prelude.{
  ◌==◌, ◌||◌, ℕ, ◌+◌, ◌≡◌, ◌≤◌, refl, ◌∙◌, false, List, [], ◌∷◌, Option, none, some, length, drop,
  arith, Bool-cases, Option-cases, inl, inr, ltb, lt→ltb,
}
use plv.Go.Text.{Text, lit, contains, trim_right}
use plv.Go.Map.{lookup}
use plv.Go.Time.{Env}
use plv.Records.{Record}
use plv.Parser.Lines.{Kind, connect, tls, verdict, noqueue, other, queued, kind_of}
use plv.Store.{Store}
use plv.Store.Index.{IsIndexed, Extends, Extends-refl, Extends-trans}
use plv.Store.Total.{add_all-total}
use plv.Watch.{
  Watcher, Live, add_live, finalize, hold_line, process_kind, process_line, advance, process_lines,
  rewind, tick,
}
use plv.Watch.Bytes.{has_newline, total, drop-whole_lines}

-- The result is there, extends the store s, and leaves the offset at n.
abbrev Goes : Store → ℕ → Option Live → Type 0
Goes s n o = (l : Live) × (o ≡ some l) × Extends s l.1.0 × (l.0.offset ≡ n)

add_live-Goes :
    (env : Env) (w : Watcher) (rs : List Record) (s : Store) (up : List Record)
    → IsIndexed s
    → Goes s w.offset (add_live env w rs (s, up))
unfolding add_live
add_live-Goes env w rs s up h =
    let (out, e, x, filed) = add_all-total env rs s up h in rw e ((w, out), refl, x, refl)

finalize-Goes :
    (env : Env) (decode : Text → Option Text) (qid : Text) (w : Watcher) (s : Store)
    (up : List Record)
    → IsIndexed s
    → Goes s w.offset (finalize env decode qid (w, (s, up)))
unfolding finalize
finalize-Goes env decode qid w s up h = elim (Option-cases (lookup qid w.pending)) [
  | inl e ↦ rw (e, finalize) ((w, (s, up)), refl, Extends-refl s h, refl)
  | inr (lines, e) ↦ rw (e, finalize) (add_live-Goes env _ _ s up h)
]

pub hold_line-offset : (line qid : Text) (w : Watcher) → (hold_line line qid w).offset ≡ w.offset
unfolding hold_line
hold_line-offset line qid w = elim (Option-cases (lookup qid w.pending)) [
  | inl e ↦ rw (e, hold_line) refl
  | inr (ls, e) ↦ rw (e, hold_line) refl
]

process_kind-Goes :
    (env : Env) (decode : Text → Option Text) (line : Text) (k : Kind) (w : Watcher) (s : Store)
    (up : List Record)
    → IsIndexed s
    → Goes s w.offset (process_kind env decode line k (w, (s, up)))
unfolding process_kind
process_kind-Goes env decode line connect w s up h = (_, refl, Extends-refl s h, refl)
process_kind-Goes env decode line tls w s up h = (_, refl, Extends-refl s h, refl)
process_kind-Goes env decode line (verdict fid v) w s up h = (_, refl, Extends-refl s h, refl)
process_kind-Goes env decode line (noqueue none) w s up h = (_, refl, Extends-refl s h, refl)
process_kind-Goes env decode line (noqueue (some rec)) w s up h = add_live-Goes env w _ s up h
process_kind-Goes env decode line other w s up h = (_, refl, Extends-refl s h, refl)
process_kind-Goes env decode line (queued qid) w s up h =
    let v = hold_line line qid w in
    let same = hold_line-offset line qid w in
    let (l, e, x, o) = finalize-Goes env decode qid v s up h in
    elim (Bool-cases (contains line (lit ": removed"))) [
      | inl e1 ↦ rw e1 (l, e, x, o ∙ same)
      | inr e1 ↦ rw e1 ((v, (s, up)), refl, Extends-refl s h, same)
    ]

process_lines-Goes :
    (env : Env) (decode : Text → Option Text) (ls : List Text) (w : Watcher) (s : Store)
    (up : List Record)
    → IsIndexed s
    → Goes s (w.offset + total ls) (process_lines env decode ls (w, (s, up)))
unfolding process_lines total process_line advance
process_lines-Goes env decode [] w s up h = ((w, (s, up)), refl, Extends-refl s h, omega arith)
process_lines-Goes env decode (l ∷ ls) w s up h =
    let line = trim_right (λ c. c == 10 || c == 13) l in
    let (live, e, x, o) =
      process_kind-Goes env decode line (kind_of env line) (advance (length l) w) s up h in
    let (v, out) = live in
    let (live', e', x', o') = process_lines-Goes env decode ls v out.0 out.1 x.0 in
    rw e (live', e', Extends-trans s out.0 live'.1.0 x x', omega (arith, o, o'))

rewind-offset : (file : Text) (w : Watcher) → (rewind file w).offset ≤ length file
unfolding rewind
rewind-offset file w = elim (Bool-cases (ltb (length file) w.offset)) [
  | inl e ↦ rw e (omega arith)
  | inr e ↦ rw e (ground (arith, lt→ltb (length file) w.offset))
]

-- On a store whose indexes are in range, a tick returns whatever the file holds: no key, row or line
-- of the store is lost, and the offset then stands in the file, behind its last newline.
pub tick-total :
    (env : Env) (decode : Text → Option Text) (file : Text) (w : Watcher) (s : Store)
    (up : List Record)
    → IsIndexed s
    → (l : Live) × (tick env decode file (w, (s, up)) ≡ some l)
      × Extends s l.1.0
      × (l.0.offset ≤ length file)
      × (has_newline (drop l.0.offset file) ≡ false)
unfolding tick
tick-total env decode file w s up h =
    let v = rewind file w in
    let (l, e, x, o) = process_lines-Goes env decode _ v s up h in
    let (le, clean) = drop-whole_lines v.offset file (rewind-offset file w) in
    (l, e, x, rw o le, rw o clean)
