-- ===== src/Watch/Flush.antt =====
-- flushStale of watcher.go: which groups it finalizes, and which it keeps.
use mathlib.Core.Option.{some-injective}
use plv.Prelude.{
  if_true, sym, if_false, ◌≡◌, refl, ◌∙◌, true, false, List, [], ◌∷◌, map, Option, none, some,
  arith, Bool-cases, inl, inr, ◌⊎◌,
}
use plv.Go.Text.{Text, lit, join, text_eq, text_eq_iff, text_eq_refl}
use plv.Go.Map.{Map, IsMap, lookup, delete, lookup-delete}
use plv.Go.Time.{Env, Time}
use plv.Records.{Record}
use plv.Parser.Extract.{extract_timestamp}
use plv.Parser.Verdict.{FilterVerdict}
use plv.Parser.Lines.{correlate, parse_lines}
use plv.Store.{Store}
use plv.Store.Index.{IsIndexed, Extends, Extends-refl, Extends-trans}
use plv.Store.Total.{AllFiled, AllFiled-Extends, add_all-total}
use plv.Watch.{Watcher, Live, add_live, finalize, is_old, flush_groups, prune_verdicts, flush_stale}

-- What the parser yields of a group of lines, with the verdicts that were seen before.
abbrev pub messages_of : Env → (Text → Option Text) → Map FilterVerdict → List Text → List Record
messages_of env decode verdicts ls =
    map (λ r. correlate env verdicts (join r.raw_lines (lit " ")) r) (parse_lines env decode ls)

-- The store extends s, and the offset and the verdicts are those of w.
abbrev pub Follows : Store → Watcher → Live → Type 0
Follows s w l = Extends s l.1.0 × (l.0.offset ≡ w.offset) × (l.0.verdicts ≡ w.verdicts)

-- The group of lines under a queue id was finalized: it is gone, and its messages are filed.
abbrev pub IsFinal :
    Env → (Text → Option Text) → Map FilterVerdict → Text → List Text → Live → Type 0
IsFinal env decode verdicts qid ls l =
    (lookup qid l.0.pending ≡ none) × AllFiled l.1.0 (messages_of env decode verdicts ls)

pub finalize-IsFinal :
    (env : Env) (decode : Text → Option Text) (qid : Text) (ls : List Text) (w : Watcher)
    (s : Store) (up : List Record)
    → IsIndexed s
    → lookup qid w.pending ≡ some ls
    → (l : Live) × (finalize env decode qid (w, (s, up)) ≡ some l)
      × Follows s w l
      × IsFinal env decode w.verdicts qid ls l
      × ((k : Text) → text_eq qid k ≡ false → lookup k l.0.pending ≡ lookup k w.pending)
unfolding finalize add_live
finalize-IsFinal env decode qid ls w s up h e =
    let (out, made, x, filed) = add_all-total env (messages_of env decode w.verdicts ls) s up h in
    rw (e, finalize)
      (rw made (
        (record w { pending = delete qid w.pending }, out),
        refl,
        (x, refl, refl),
        (rw (lookup-delete, text_eq_refl qid) refl, filed),
        λ k ne. rw (lookup-delete, ne) refl,
      ))

-- What became of a group: with an old first line it was finalized, else it is there as it was.
abbrev pub IsTreated :
    Env → (Text → Option Text) → Map FilterVerdict → Text → Text → List Text → Live → Type 0
IsTreated env decode verdicts qid first rest l =
    ((is_old env (extract_timestamp env first) ≡ true)
      × IsFinal env decode verdicts qid (first ∷ rest) l)
    ⊎ ((is_old env (extract_timestamp env first) ≡ false)
        × (lookup qid l.0.pending ≡ some (first ∷ rest)))

-- Every group of `m` was dealt with, and w's groups under other queue ids are untouched.
abbrev IsSwept : Env → (Text → Option Text) → Map (List Text) → Watcher → Live → Type 0
IsSwept env decode m w l =
    (qid : Text)
    → (lookup qid m ≡ none → lookup qid l.0.pending ≡ lookup qid w.pending)
      × ((first : Text) (rest : List Text)
          → lookup qid m ≡ some (first ∷ rest)
          → IsTreated env decode w.verdicts qid first rest l)

-- The first group was dealt with on the way from w to v, and the others from there.
IsSwept-first :
    (env : Env) (decode : Text → Option Text) (k : Text) (g : List Text) (m : Map (List Text))
    (w v : Watcher) (l : Live)
    → ((qid : Text) → text_eq k qid ≡ false → lookup qid v.pending ≡ lookup qid w.pending)
    → v.verdicts ≡ w.verdicts
    → ((first : Text) (rest : List Text)
        → g ≡ first ∷ rest
        → IsTreated env decode w.verdicts k first rest l)
    → IsSwept env decode m v l
    → IsSwept env decode ((k, g) ∷ m) w l
unfolding lookup
IsSwept-first env decode k g m w v l others same head sw qid = elim (Bool-cases (text_eq k qid)) [
  | inl e ↦ (
    λ none_there. absurd (ground arith),
    λ first rest p.
        rw (← (text_eq_iff k qid).0 e)
          (head first rest (some-injective g (first ∷ rest) (sym (if_true _ _ _ e) ∙ p))),
  )
  | inr e ↦ (
    λ none_there. (sw qid).0 (sym (if_false _ _ _ e) ∙ none_there) ∙ others qid e,
    λ first rest p. rw (← same) ((sw qid).1 first rest (sym (if_false _ _ _ e) ∙ p)),
  )
]

IsTreated-same :
    (env : Env) (decode : Text → Option Text) (verdicts : Map FilterVerdict) (k a first : Text)
    (g rest : List Text) (l : Live)
    → a ∷ g ≡ first ∷ rest
    → IsTreated env decode verdicts k a g l
    → IsTreated env decode verdicts k first rest l
IsTreated-same env decode verdicts k a first g rest l e h =
    let heads : a ≡ first = cc in let tails : g ≡ rest = cc in rw (← heads, ← tails) h

lookup-later :
    (k qid : Text) (g : List Text) (m : Map (List Text)) (ls : List Text)
    → lookup k m ≡ none
    → lookup qid m ≡ some ls
    → (text_eq k qid ≡ false) × (lookup qid ((k, g) ∷ m) ≡ some ls)
unfolding lookup
lookup-later k qid g m ls new p = elim (Bool-cases (text_eq k qid)) [
  | inl e ↦ let same = (text_eq_iff k qid).0 e in absurd cc
  | inr e ↦ (e, if_false _ _ _ e ∙ p)
]

-- The loop deals with every group of `m`, which w has, and with no other.
flush_groups-IsSwept :
    (env : Env) (decode : Text → Option Text) (m : Map (List Text)) (w : Watcher) (s : Store)
    (up : List Record)
    → IsIndexed s
    → IsMap m
    → ((k : Text) (ls : List Text) → lookup k m ≡ some ls → lookup k w.pending ≡ some ls)
    → (l : Live) × (flush_groups env decode m (w, (s, up)) ≡ some l)
      × Follows s w l
      × IsSwept env decode m w l
unfolding flush_groups
flush_groups-IsSwept env decode [] w s up h distinct has = (
  _,
  refl,
  (Extends-refl s h, refl, refl),
  λ qid. (λ e. refl, λ first rest e. absurd (unfold lookup in cc)),
)
flush_groups-IsSwept env decode ((k, []) ∷ m) w s up h (new, distinct) has =
    let (l, e, fo, sw) =
      flush_groups-IsSwept env decode m w s up h distinct
        (λ q ls p. has q ls (lookup-later k q [] m ls new p).1) in
    (
      l,
      e,
      fo,
      IsSwept-first env decode k [] m w w l (λ qid ne. refl) refl (λ first rest p. absurd cc) sw,
    )
flush_groups-IsSwept env decode ((k, a ∷ g) ∷ m) w s up h (new, distinct) has =
    let there : lookup k w.pending ≡ some (a ∷ g) =
      has k (a ∷ g) (unfold lookup in rw (text_eq_refl k) refl) in
    elim (Bool-cases (is_old env (extract_timestamp env a))) [
      | inl old ↦
          let ((v, (t, up')), made, (x, o, vs), (gone, filed), others) =
            finalize-IsFinal env decode k (a ∷ g) w s up h there in
          let (l, e, (y, o', vs'), sw) =
            flush_groups-IsSwept env decode m v t up' x.0 distinct (λ q ls p.
              let (ne, q_there) = lookup-later k q (a ∷ g) m ls new p in
              others q ne ∙ has q ls q_there) in
          rw old (
            rw made (
              l,
              e,
              (Extends-trans s t l.1.0 x y, o' ∙ o, vs' ∙ vs),
              IsSwept-first env decode k (a ∷ g) m w v l others vs
                  (λ first rest p.
                    IsTreated-same env decode w.verdicts k a first g rest l p
                      (inl (old, ((sw k).0 new ∙ gone, AllFiled-Extends t l.1.0 _ filed y))))
                  sw,
            ))
      | inr fresh ↦
          let (l, e, fo, sw) =
            flush_groups-IsSwept env decode m w s up h distinct
              (λ q ls p. has q ls (lookup-later k q (a ∷ g) m ls new p).1) in
          rw fresh (
            l,
            e,
            fo,
            IsSwept-first env decode k (a ∷ g) m w w l (λ qid ne. refl) refl
                (λ first rest p.
                  IsTreated-same env decode w.verdicts k a first g rest l p
                    (inr (fresh, (sw k).0 new ∙ there)))
                sw,
          )
    ]

prune_verdicts-same :
    (env : Env) (m : Map Time) (w : Watcher)
    → ((prune_verdicts env m w).offset ≡ w.offset) × ((prune_verdicts env m w).pending ≡ w.pending)
unfolding prune_verdicts
prune_verdicts-same env [] w = (refl, refl)
prune_verdicts-same env ((fid, ts) ∷ m) w = elim (Bool-cases (is_old env ts)) [
  | inl e1 ↦ rw (e1, prune_verdicts) (prune_verdicts-same env m _)
  | inr e1 ↦ rw (e1, prune_verdicts) (prune_verdicts-same env m w)
]

-- On a store whose indexes are in range, with one group for a queue id, flushStale returns, loses no key,
-- row or line of the store, and leaves the offset. A pending group whose first line is old (more than
-- five minutes before now, or without a time) is gone afterwards, and all the messages that the parser
-- yields of its lines, with the verdicts seen so far, are filed: the key of each resolves, and one row holds
-- all its lines. Every other group with a line is still there, as it was.
pub flush_stale-IsTreated :
    (env : Env) (decode : Text → Option Text) (w : Watcher) (s : Store) (up : List Record)
    (qid first : Text) (rest : List Text)
    → IsIndexed s
    → IsMap w.pending
    → lookup qid w.pending ≡ some (first ∷ rest)
    → (l : Live) × (flush_stale env decode (w, (s, up)) ≡ some l)
      × Extends s l.1.0
      × (l.0.offset ≡ w.offset)
      × IsTreated env decode w.verdicts qid first rest l
unfolding flush_stale
flush_stale-IsTreated env decode w s up qid first rest h distinct p =
    let ((v, out), e, (x, o, vs), sw) =
      flush_groups-IsSwept env decode w.pending w s up h distinct (λ k ls q. q) in
    let (same, groups) = prune_verdicts-same env v.verdict_ts v in
    rw e (
      (prune_verdicts env v.verdict_ts v, out),
      refl,
      x,
      same ∙ o,
      rw groups ((sw qid).1 first rest p),
    )
