-- ===== src/Watch/Groups.antt =====
-- The groups of lines that the watcher of watcher.go holds, and what holding one more line does to them.
use plv.Prelude.{
  ◌==◌, ◌≡◌, refl, ◌∙◌, sym, Bool, true, false, ◌||◌, List, [], ◌∷◌, ◌++◌, append-nil, append_assoc,
  ap, keep, none, some, arith, Option-cases, Bool-cases, inl, inr, if◌then◌else◌,
}
use plv.Go.Text.{text_eq_refl, Text, lit, contains, text_eq, text_eq_iff, trim_right}
use plv.Go.Map.{Map, lookup, lookup_or, insert, lookup-insert}
use plv.Go.Time.{Env}
use plv.Parser.Lines.{Kind, connect, tls, verdict, noqueue, other, queued, pending_line, kind_of}
use plv.Watch.{Watcher, hold_line}

-- A line of a file without its end.
abbrev pub bare : Text → Text
bare l = trim_right (λ c. c == 10 || c == 13) l

-- A kind of line that files a record: a rejection, or the last line of a message.
abbrev pub files_kind : Text → Kind → Bool
files_kind line connect = false
files_kind line tls = false
files_kind line (verdict fid v) = false
files_kind line (noqueue none) = false
files_kind line (noqueue (some r)) = true
files_kind line other = false
files_kind line (queued qid) = contains line (lit ": removed")

abbrev pub is_filing : Env → Text → Bool
is_filing env line = files_kind line (kind_of env line)

abbrev of_kind : Text → Kind → Bool
of_kind qid connect = false
of_kind qid tls = false
of_kind qid (verdict fid v) = false
of_kind qid (noqueue r) = false
of_kind qid other = false
of_kind qid (queued q) = text_eq q qid

-- The line belongs to the queue id.
abbrev pub is_of : Env → Text → Text → Bool
is_of env qid line = of_kind qid (kind_of env line)

pub is_of-queued :
    (env : Env) (line qid : Text) → kind_of env line ≡ queued qid → is_of env qid line ≡ true
is_of-queued env line qid e = rw e (text_eq_refl qid)

-- The lines of its own that the pending group of a queue id holds, in their order: all but those of
-- connections and of TLS, which have no queue id.
abbrev pub group_lines : Env → Text → Watcher → List Text
group_lines env qid w = keep (is_of env qid) (lookup_or qid [] w.pending)

-- The pending lines of a connection and of TLS belong to no queue id.
abbrev pub IsOpen : Env → Watcher → Type 0
IsOpen env w =
    (qid : Text)
    → (keep (is_of env qid) (pending_line w.pending_connect) ≡ [])
      × (keep (is_of env qid) (pending_line w.pending_tls) ≡ [])

keep-append : (p : Text → Bool) (xs ys : List Text) → keep p (xs ++ ys) ≡ keep p xs ++ keep p ys
keep-append p [] ys = refl
keep-append p (x ∷ xs) ys = ground (arith, keep-append p xs ys)

pub append-keep :
    (p : Text → Bool) (xs : List Text) (line : Text) (ys : List Text)
    → (xs ++ keep p (line ∷ [])) ++ keep p ys ≡ xs ++ keep p (line ∷ ys)
append-keep p xs line ys =
    append_assoc xs (keep p (line ∷ [])) (keep p ys)
    ∙ ap (λ t. xs ++ t) (sym (keep-append p (line ∷ []) ys))

pub keep-pending_line :
    (p : Text → Bool) (line : Text) → p line ≡ false → keep p (pending_line line) ≡ []
keep-pending_line p line e = ground arith

keep-held :
    (p : Text → Bool) (xs ys zs : List Text) (line : Text)
    → keep p ys ≡ []
    → keep p zs ≡ []
    → keep p (xs ++ (ys ++ (zs ++ line ∷ []))) ≡ keep p xs ++ keep p (line ∷ [])
keep-held p xs ys zs line e f = rw (keep-append p xs, keep-append p ys, keep-append p zs, e, f) refl

lookup_or-insert :
    (k j : Text) (ls : List Text) (m : Map (List Text))
    → lookup_or j [] (insert k ls m) ≡ (if text_eq k j then ls else lookup_or j [] m)
unfolding lookup_or
lookup_or-insert k j ls m = ground (arith, lookup-insert k j ls m)

lookup_or-none : (k : Text) (m : Map (List Text)) → lookup k m ≡ none → lookup_or k [] m ≡ []
unfolding lookup_or
lookup_or-none k m e = rw (lookup_or, e) refl

pub lookup_or-some :
    (k : Text) (m : Map (List Text)) (ls : List Text) → lookup k m ≡ some ls → lookup_or k [] m ≡ ls
unfolding lookup_or
lookup_or-some k m ls e = rw (lookup_or, e) refl

-- A group that was given `ls` for its lines has one more of its own, and the others are as they were.
keep-insert :
    (env : Env) (line qid k : Text) (ls : List Text) (m : Map (List Text))
    → kind_of env line ≡ queued qid
    → keep (is_of env qid) ls
      ≡ keep (is_of env qid) (lookup_or qid [] m) ++ keep (is_of env qid) (line ∷ [])
    → keep (is_of env k) (lookup_or k [] (insert qid ls m))
      ≡ keep (is_of env k) (lookup_or k [] m) ++ keep (is_of env k) (line ∷ [])
keep-insert env line qid k ls m e h = elim (Bool-cases (text_eq qid k)) [
  | inl same ↦ rw (lookup_or-insert qid k ls m, same) (rw (← (text_eq_iff qid k).0 same) h)
  | inr ne ↦ rw (lookup_or-insert qid k ls m, ne, e, ne) (sym (append-nil _))
]

-- A line that is held joins the group of its queue id, behind its earlier lines, and no other group.
pub hold_line-group_lines :
    (env : Env) (line qid k : Text) (w : Watcher)
    → IsOpen env w
    → kind_of env line ≡ queued qid
    → group_lines env k (hold_line line qid w)
      ≡ group_lines env k w ++ keep (is_of env k) (line ∷ [])
unfolding hold_line
hold_line-group_lines env line qid k w h e =
    let (c, t) = h qid in
    elim (Option-cases (lookup qid w.pending)) [
      | inl e1 ↦
          rw (hold_line, e1)
            (keep-insert env line qid k _ w.pending e (
              rw (lookup_or-none qid w.pending e1) (
                keep-held (is_of env qid) [] (pending_line w.pending_connect)
                  (pending_line w.pending_tls) line c t)))
      | inr (ls, e1) ↦
          rw (hold_line, e1)
            (keep-insert env line qid k _ w.pending e (
              rw (lookup_or-some qid w.pending ls e1)
                (keep-held (is_of env qid) ls [] (pending_line w.pending_tls) line refl t)))
    ]

pub hold_line-IsOpen :
    (env : Env) (line qid : Text) (w : Watcher) → IsOpen env w → IsOpen env (hold_line line qid w)
unfolding hold_line
hold_line-IsOpen env line qid w h = elim (Option-cases (lookup qid w.pending)) [
  | inl e ↦ rw (hold_line, e) (λ k. (refl, refl))
  | inr (ls, e) ↦ rw (hold_line, e) (λ k. ((h k).0, refl))
]
