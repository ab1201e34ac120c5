-- ===== src/Direction/Agree.antt =====
-- directionResolver of direction.go and the pass of GetDetail in store.go, compared.
use plv.Prelude.{
  sym, inr, inl, ap, Bool-cases, ◌≡◌, refl, ◌∙◌, Bool, true, false, ◌||◌, List, [], ◌∷◌, arith,
  if◌then◌else◌,
}
use plv.Go.Text.{Text, is_empty, text_eq, text_eq_iff}
use plv.Go.Map.{Map, lookup, lookup_or, lookup-insert}
use plv.Records.{Record}
use plv.Store.{Store, conf_for}
use plv.Direction.{Signals, silent, signals_of, join, classify_direction}
use plv.Direction.Resolver.{
  aggregate_one, collect_one, SignalMaps, no_signals, mark, add_signals, collect, look_up, resolve,
  direction_resolver, aggregate, detail_direction,
}

lookup_or-mark :
    (b : Bool) (k j : Text) (m : Map Bool)
    → lookup_or j false (mark b k m)
      ≡ (if text_eq k j then lookup_or j false m || b else lookup_or j false m)
unfolding lookup_or mark
lookup_or-mark true k j m = ground (arith, lookup-insert k j true m)
lookup_or-mark false k j m = ground arith

look_up-add_signals :
    (g : Signals) (k j : Text) (m : SignalMaps)
    → look_up (add_signals g k m) j ≡ (if text_eq k j then join (look_up m j) g else look_up m j)
unfolding look_up add_signals
look_up-add_signals g k j m = ground (
  arith,
  lookup_or-mark g.inbound k j m.mid_in,
  lookup_or-mark g.outbound k j m.mid_out,
  lookup_or-mark g.local k j m.mid_local,
  lookup_or-mark g.relay k j m.mid_relay,
  lookup_or-mark g.from_local k j m.mid_from_local,
  lookup_or-mark g.to_local k j m.mid_to_local,
)

look_up-collect_one :
    (s : Store) (mid : Text) (m : SignalMaps) (r : Record)
    → is_empty mid ≡ false
    → look_up (collect_one s m r) mid ≡ aggregate_one s mid (look_up m mid) r
unfolding collect_one aggregate_one
look_up-collect_one s mid m r h = ground (
  arith,
  look_up-add_signals (signals_of r (conf_for s r.origin)) r.message_id mid m,
  text_eq_iff r.message_id mid,
)

-- One look-up in the maps is one pass over the legs.
look_up-collect :
    (s : Store) (mid : Text) (m : SignalMaps) (rs : List Record)
    → is_empty mid ≡ false
    → look_up (collect s m rs) mid ≡ aggregate s mid (look_up m mid) rs
unfolding collect aggregate
look_up-collect s mid m [] h = refl
look_up-collect s mid m (r ∷ rs) h =
    look_up-collect s mid (collect_one s m r) rs h
    ∙ ap (λ g. aggregate s mid g rs) (look_up-collect_one s mid m r h)

look_up-no_signals : (mid : Text) → look_up no_signals mid ≡ silent
unfolding look_up lookup_or lookup
look_up-no_signals mid = refl

-- The detail view, which makes one pass over the legs of its message, and the table and statistics,
-- which look the message up in maps built over the whole store, give every record the same direction.
pub detail_direction-eq-direction_resolver :
    (s : Store) (r : Record) → detail_direction s r ≡ direction_resolver s r
unfolding detail_direction direction_resolver resolve
detail_direction-eq-direction_resolver s r = elim (Bool-cases (is_empty r.message_id)) [
  | inl e ↦ rw e
  | inr e ↦ rw e (
      ap classify_direction (
        ap (λ g. aggregate s r.message_id g s.records) (sym (look_up-no_signals r.message_id))
        ∙ sym (look_up-collect s r.message_id no_signals s.records e)))
]
