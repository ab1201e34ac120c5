-- ===== src/Stats/Tally.antt =====
-- Stats of store.go: the sums of its cards, and the rows of Search.
use plv.Prelude.{ℕ, ◌+◌, ◌≡◌, refl, Bool, ◌&&◌, List, [], ◌∷◌, arith, if◌then◌else◌, keep, length}
use plv.Go.Text.{Text, lit, text_eq, is_empty, elem}
use plv.Records.{Record, disposition_or_status}
use plv.Store.{Store}
use plv.Direction.{Signals, classify_direction}
use plv.Direction.Resolver.{direction_resolver, resolve}
use plv.Search.{visible, passes, filtered}
use plv.Search.Params.{SearchParams}
use plv.Search.Match.{record_matches}
use plv.Stats.{
  Tallies, no_tallies, tally_direction, tally_disposition, tally_rest, in_direction, tally_record,
  tally_all, tallies,
}

-- The four direction cards together, and the outcome cards together.
abbrev pub directed : Tallies → ℕ
directed t = t.inbound + t.outbound + t.internal + t.relayed

abbrev pub outcomes : Tallies → ℕ
outcomes t = t.sent + t.spam + t.blocked + t.rejected + t.bounced + t.deferred + t.other

tally_direction-directed :
    (g : Signals) (t : Tallies)
    → directed (tally_direction (classify_direction g) t) ≡ directed t + 1
unfolding tally_direction classify_direction lit text_eq
tally_direction-directed g t = ground arith

tally_direction-frame :
    (d : Text) (t : Tallies)
    → (outcomes (tally_direction d t) ≡ outcomes t) × ((tally_direction d t).total ≡ t.total)
unfolding tally_direction
tally_direction-frame d t = ground arith

tally_disposition-outcomes :
    (d : Text) (t : Tallies)
    → outcomes (tally_disposition d t) ≡ outcomes t + (if is_empty d then 0 else 1)
tally_disposition-outcomes [] t = unfold tally_disposition lit text_eq elem in omega arith
tally_disposition-outcomes (c ∷ s) t = unfold tally_disposition in ground arith

tally_disposition-frame :
    (d : Text) (t : Tallies)
    → (directed (tally_disposition d t) ≡ directed t) × ((tally_disposition d t).total ≡ t.total)
unfolding tally_disposition
tally_disposition-frame d t = ground arith

-- What one record adds to the three sums.
abbrev Adds : (Record → Text) → SearchParams → Record → Tallies → Tallies → Type 0
Adds direction p r t u =
    (directed u ≡ directed t + (if record_matches r p then 1 else 0))
    × (u.total ≡ t.total + (if passes direction p r then 1 else 0))
    × (outcomes u + (if passes direction p r && is_empty (disposition_or_status r) then 1 else 0)
        ≡ outcomes t + (if passes direction p r then 1 else 0))

tally_rest-frame :
    (r : Record) (t : Tallies)
    → (directed (tally_rest r t) ≡ directed t)
      × (outcomes (tally_rest r t) ≡ outcomes t)
      × ((tally_rest r t).total ≡ t.total + 1)
unfolding tally_rest
tally_rest-frame r t = (refl, refl, refl)

direction-directed :
    (d : Text) (g : Signals) (t : Tallies)
    → d ≡ classify_direction g
    → directed (tally_direction d t) ≡ directed t + 1
direction-directed d g t e = rw e (tally_direction-directed g t)

tally_record-Adds :
    (direction : Record → Text) (p : SearchParams) (r : Record) (t : Tallies) (g : Signals)
    → direction r ≡ classify_direction g
    → Adds direction p r t (tally_record direction p r t)
unfolding tally_record passes in_direction
tally_record-Adds direction p r t g e =
    let t1 = tally_direction (direction r) t in
    let t2 = tally_rest r t1 in
    let d = disposition_or_status r in
    ground (
      arith,
      direction-directed (direction r) g t e,
      tally_direction-frame (direction r) t,
      tally_rest-frame r t1,
      tally_disposition-outcomes d t2,
      tally_disposition-frame d t2,
    )

abbrev pub uncounted : (Record → Text) → SearchParams → Record → Bool
uncounted direction p r = passes direction p r && is_empty (disposition_or_status r)

tally_all-sums :
    (direction : Record → Text) (p : SearchParams)
    → ((r : Record) → (g : Signals) × (direction r ≡ classify_direction g))
    → (rs : List Record) (t : Tallies)
    → (directed (tally_all direction p t rs)
        ≡ directed t + length (keep (λ r. record_matches r p) rs))
      × ((tally_all direction p t rs).total ≡ t.total + length (keep (passes direction p) rs))
      × (outcomes (tally_all direction p t rs) + length (keep (uncounted direction p) rs)
          ≡ outcomes t + length (keep (passes direction p) rs))
unfolding tally_all
tally_all-sums direction p known [] t = omega arith
tally_all-sums direction p known (r ∷ rs) t =
    let (g, e) = known r in
    let u = tally_record direction p r t in
    ground (arith, tally_record-Adds direction p r t g e, tally_all-sums direction p known rs u)

resolver-known :
    (s : Store) (r : Record) → (g : Signals) × (direction_resolver s r ≡ classify_direction g)
unfolding direction_resolver resolve
resolver-known s r = (_, refl)

-- For every store and all parameters: the four direction cards together count the visible records
-- that pass the filters other than the direction; the total is the number of rows that the table
-- shows for the same parameters; and the seven outcome cards together count those rows, except the
-- ones that have no outcome yet.
pub tallies_sums :
    (s : Store) (p : SearchParams)
    → (directed (tallies s p) ≡ length (keep (λ r. record_matches r p) (visible s)))
      × ((tallies s p).total ≡ length (filtered s p))
      × (outcomes (tallies s p) + length (keep (uncounted (direction_resolver s) p) (visible s))
          ≡ length (filtered s p))
unfolding tallies filtered
tallies_sums s p =
    let sums = tally_all-sums (direction_resolver s) p (resolver-known s) (visible s) no_tallies in
    omega (arith, sums)
