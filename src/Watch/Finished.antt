-- ===== src/Watch/Finished.antt =====
-- processLine of watcher.go on the lines of a message up to its last one: what is filed.
use mathlib.Core.Path.{subst}
use mathlib.Core.Option.{some-injective}
use plv.Prelude.{
  if_true, none, length, none, ◌+◌, ◌≡◌, refl, ◌∙◌, true, false, List, [], ◌∷◌, ◌++◌, map, any,
  keep, Option, some, inl, inr, arith, Option-cases, sym, ap,
}
use plv.Go.Text.{Text, lit, contains}
use plv.Go.Map.{lookup, lookup-insert_self}
use plv.Go.Time.{Env}
use plv.Go.Time.Parse.{◌>>=◌}
use plv.Records.{Record}
use plv.Parser.Lines.{queued, kind_of}
use plv.Store.{Store}
use plv.Store.Index.{IsIndexed, Extends}
use plv.Store.Total.{AllFiled}
use plv.Watch.Bytes.{total}
use plv.Watch.Tail.{hold_line-offset}
use plv.Watch.Flush.{messages_of, finalize-IsFinal}
use plv.Watch.Groups.{
  is_of-queued, bare, is_filing, is_of, group_lines, IsOpen, lookup_or-some, hold_line-group_lines,
}
use plv.Watch.Held.{process_lines-IsOpen}
use plv.Watch.{Watcher, Live, hold_line, process_kind, process_line, advance, process_lines}

bind-agree :
    (o : Option Live) (f g : Live → Option Live) (b : Live) (r : Option Live)
    → (o >>= f) ≡ some b
    → ((m : Live) → f m ≡ some b → g m ≡ r)
    → (o >>= g) ≡ r
bind-agree none f g b r e h = absurd cc
bind-agree (some m) f g b r e h = h m e

process_lines-append :
    (env : Env) (decode : Text → Option Text) (xs ys : List Text) (a b : Live)
    → process_lines env decode xs a ≡ some b
    → process_lines env decode (xs ++ ys) a ≡ process_lines env decode ys b
unfolding process_lines
process_lines-append env decode [] ys a b e =
    ap (process_lines env decode ys) (some-injective a b e)
process_lines-append env decode (x ∷ xs) ys a b e =
    bind-agree (process_line env decode (bare x) (advance (length x) a.0, a.1))
      (process_lines env decode xs) (process_lines env decode (xs ++ ys)) b
      (process_lines env decode ys b) e (λ m. process_lines-append env decode xs ys m b)

hold_line-holds :
    (line qid : Text) (w : Watcher)
    → (group : List Text) × (lookup qid (hold_line line qid w).pending ≡ some group)
      × ((hold_line line qid w).verdicts ≡ w.verdicts)
unfolding hold_line
hold_line-holds line qid w = elim (Option-cases (lookup qid w.pending)) [
  | inl e ↦ rw (hold_line, e) (_, lookup-insert_self qid _ w.pending, refl)
  | inr (ls, e) ↦ rw (hold_line, e) (_, lookup-insert_self qid _ w.pending, refl)
]

-- The last line of a message: its group, with this line behind, is gone and filed.
last_line-IsFiled :
    (env : Env) (decode : Text → Option Text) (line qid : Text) (w : Watcher) (s : Store)
    (up : List Record)
    → IsIndexed s
    → IsOpen env w
    → kind_of env line ≡ queued qid
    → contains line (lit ": removed") ≡ true
    → (l : Live) × (group : List Text) × (process_line env decode line (w, (s, up)) ≡ some l)
      × Extends s l.1.0
      × (l.0.offset ≡ w.offset)
      × (lookup qid l.0.pending ≡ none)
      × (keep (is_of env qid) group ≡ group_lines env qid w ++ keep (is_of env qid) (line ∷ []))
      × AllFiled l.1.0 (messages_of env decode w.verdicts group)
unfolding process_line process_kind
last_line-IsFiled env decode line qid w s up h o k r =
    let v = hold_line line qid w in
    let (group, there, vs) = hold_line-holds line qid w in
    let (l, e, (x, off, vs'), (gone, filed), others) =
      finalize-IsFinal env decode qid group v s up h there in
    (
      l,
      group,
      ap (λ z. process_kind env decode line z (w, (s, up))) k ∙ if_true _ _ _ r ∙ e,
      x,
      off ∙ hold_line-offset line qid w,
      gone,
      ap (keep (is_of env qid)) (sym (lookup_or-some qid v.pending group there))
          ∙ hold_line-group_lines env line qid qid w o k,
      subst (λ z. AllFiled l.1.0 (messages_of env decode z group)) vs filed,
    )

-- The watcher reads lines none of which files a record, from a state whose pending lines of a connection
-- and of TLS belong to no queue id, and then a line of a queue id that says "removed", on a store whose
-- indexes are in range. It returns, loses no key, row or line of the store, and has moved past all the
-- lines. The group of this queue id is gone: it held, of the lines that belong to the queue id, its earlier
-- ones and then just those that were read, in their order, and every message that the parser yields of
-- the group, with the verdicts that the watcher had before the last line, is filed.
pub process_lines-IsFiled :
    (env : Env) (decode : Text → Option Text) (ls : List Text) (last qid : Text) (w : Watcher)
    (s : Store) (up : List Record)
    → IsIndexed s
    → any (is_filing env) (map bare ls) ≡ false
    → IsOpen env w
    → kind_of env (bare last) ≡ queued qid
    → contains (bare last) (lit ": removed") ≡ true
    → (v : Watcher) × (l : Live) × (group : List Text) × (process_lines env decode ls (w, (s, up))
        ≡ some (v, (s, up)))
      × (process_lines env decode (ls ++ last ∷ []) (w, (s, up)) ≡ some l)
      × Extends s l.1.0
      × (l.0.offset ≡ w.offset + (total ls + length last))
      × (lookup qid l.0.pending ≡ none)
      × (keep (is_of env qid) group
          ≡ (group_lines env qid w ++ keep (is_of env qid) (map bare ls)) ++ bare last ∷ [])
      × AllFiled l.1.0 (messages_of env decode v.verdicts group)
unfolding process_lines advance
process_lines-IsFiled env decode ls last qid w s up h f o k r =
    let (v, e, off, still, g) = process_lines-IsOpen env decode ls w (s, up) f o in
    let next = advance (length last) v in
    let (l, group, made, x, off2, gone, own, filed) =
      last_line-IsFiled env decode (bare last) qid next s up h still k r in
    (
      v,
      l,
      group,
      e,
      process_lines-append env decode ls (last ∷ []) (w, (s, up)) (v, (s, up)) e
          ∙ ap (λ z. z >>= (λ m. some m)) made,
      x,
      omega (arith, off, off2),
      gone,
      own
          ∙ ap (λ t. t ++ keep (is_of env qid) (bare last ∷ [])) (g qid)
          ∙ ap (λ t. (group_lines env qid w ++ keep (is_of env qid) (map bare ls)) ++ t)
              (if_true _ _ _ (is_of-queued env (bare last) qid k)),
      filed,
    )
