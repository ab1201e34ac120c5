-- ===== src/Watch/Held.antt =====
-- processLine of watcher.go on lines of messages that are not finished: they are held in memory, while
-- the offset goes on. A restart (bringUpParsing of main.go) resumes at the offset with a new watcher.
use plv.Prelude.{
  ◌+◌, ◌≡◌, refl, ◌∙◌, sym, false, List, [], ◌∷◌, ◌++◌, append-nil, length, map, any, keep, Option,
  none, some, arith,
}
use plv.Go.Text.{Text}
use plv.Go.Time.{Env}
use plv.Parser.Lines.{Kind, connect, tls, verdict, noqueue, other, queued, kind_of}
use plv.Store.Add.{Work}
use plv.Watch.Bytes.{total}
use plv.Watch.Tail.{hold_line-offset}
use plv.Watch.{Watcher, Live, hold_line, process_kind, process_line, advance, process_lines}
use plv.Watch.Groups.{
  bare, files_kind, is_filing, is_of, group_lines, IsOpen, append-keep, keep-pending_line,
  hold_line-group_lines, hold_line-IsOpen,
}

-- What a line that files nothing leaves: the work as it was, and the line in its group.
abbrev Joins : Env → List Text → Watcher → Work → Option Live → Type 0
Joins env ls w work o =
    (v : Watcher) × (o ≡ some (v, work))
    × (v.offset ≡ w.offset)
    × IsOpen env v
    × ((k : Text) → group_lines env k v ≡ group_lines env k w ++ keep (is_of env k) ls)

-- A line of no queue id that leaves the groups and the offset.
quiet-Joins :
    (env : Env) (line : Text) (w v : Watcher) (work : Work)
    → ((k : Text) → is_of env k line ≡ false)
    → v.offset ≡ w.offset
    → IsOpen env v
    → v.pending ≡ w.pending
    → Joins env (line ∷ []) w work (some (v, work))
quiet-Joins env line w v work quiet o h same =
    (v, refl, o, h, λ k. rw (same, quiet k) (sym (append-nil _)))

process_kind-Joins :
    (env : Env) (decode : Text → Option Text) (line : Text) (k : Kind) (w : Watcher) (work : Work)
    → kind_of env line ≡ k
    → files_kind line k ≡ false
    → IsOpen env w
    → Joins env (line ∷ []) w work (process_kind env decode line k (w, work))
unfolding process_kind
process_kind-Joins env decode line connect w work e f h =
    quiet-Joins env line w _ work (λ k. rw e refl) refl
      (λ k. (keep-pending_line (is_of env k) line (rw e refl), (h k).1)) refl
process_kind-Joins env decode line tls w work e f h =
    quiet-Joins env line w _ work (λ k. rw e refl) refl
      (λ k. ((h k).0, keep-pending_line (is_of env k) line (rw e refl))) refl
process_kind-Joins env decode line (verdict fid v) w work e f h =
    quiet-Joins env line w _ work (λ k. rw e refl) refl h refl
process_kind-Joins env decode line (noqueue none) w work e f h =
    quiet-Joins env line w _ work (λ k. rw e refl) refl h refl
process_kind-Joins env decode line (noqueue (some r)) w work e f h = absurd cc
process_kind-Joins env decode line other w work e f h =
    quiet-Joins env line w _ work (λ k. rw e refl) refl h refl
process_kind-Joins env decode line (queued qid) w work e f h = rw f (
  hold_line line qid w,
  refl,
  hold_line-offset line qid w,
  hold_line-IsOpen env line qid w h,
  λ k. hold_line-group_lines env line qid k w h e,
)

pub process_lines-IsOpen :
    (env : Env) (decode : Text → Option Text) (ls : List Text) (w : Watcher) (work : Work)
    → any (is_filing env) (map bare ls) ≡ false
    → IsOpen env w
    → (v : Watcher) × (process_lines env decode ls (w, work) ≡ some (v, work))
      × (v.offset ≡ w.offset + total ls)
      × IsOpen env v
      × ((qid : Text)
          → group_lines env qid v ≡ group_lines env qid w ++ keep (is_of env qid) (map bare ls))
unfolding process_lines process_line advance total
process_lines-IsOpen env decode [] w work f h = (w, refl, omega arith, h, λ k. sym (append-nil _))
process_lines-IsOpen env decode (l ∷ ls) w work f h =
    let line = bare l in
    let f1 : is_filing env line ≡ false = ground arith in
    let f2 : any (is_filing env) (map bare ls) ≡ false = ground arith in
    let (v, e, o, plain, g) =
      process_kind-Joins env decode line (kind_of env line) (advance (length l) w) work refl f1 h in
    let (u, e', o', still, g') = process_lines-IsOpen env decode ls v work f2 plain in
    rw e (
      u,
      e',
      omega (arith, o, o'),
      still,
      λ k. g' k ∙ rw (g k) (append-keep (is_of env k) (group_lines env k w) line (map bare ls)),
    )

-- While the watcher reads lines none of which files a record (a rejection that is understood, or a line
-- of a queue id that says "removed"), from a state whose pending lines of a connection and of TLS belong
-- to no queue id, the store and its snapshots stay as they are, although the offset moves past all of
-- them; and for every queue id the pending group has, of the lines that belong to it, its earlier ones and
-- then just those of its own that were read, in their order.
pub process_lines-IsHeld :
    (env : Env) (decode : Text → Option Text) (ls : List Text) (w : Watcher) (work : Work)
    → any (is_filing env) (map bare ls) ≡ false
    → IsOpen env w
    → (v : Watcher) × (process_lines env decode ls (w, work) ≡ some (v, work))
      × (v.offset ≡ w.offset + total ls)
      × ((qid : Text)
          → group_lines env qid v ≡ group_lines env qid w ++ keep (is_of env qid) (map bare ls))
process_lines-IsHeld env decode ls w work f h =
    let (v, e, o, still, g) = process_lines-IsOpen env decode ls w work f h in (v, e, o, g)
