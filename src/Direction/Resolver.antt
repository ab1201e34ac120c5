-- ===== src/Direction/Resolver.antt =====
-- directionResolver of direction.go, and the signals that GetDetail of store.go collects in place.
use plv.Prelude.{Bool, true, false, not, ◌||◌, if◌then◌else◌, List, [], ◌∷◌}
use plv.Go.Text.{Text, is_empty, text_eq}
use plv.Go.Map.{Map, insert, lookup_or}
use plv.Records.{Record}
use plv.Store.{Store, conf_for}
use plv.Direction.{Signals, silent, signals_of, join, classify_direction}

-- The six maps by Message-ID; a key that is not there is false.
pub record SignalMaps : Type 0 where
  pub mid_in : Map Bool
  pub mid_out : Map Bool
  pub mid_local : Map Bool
  pub mid_relay : Map Bool
  pub mid_from_local : Map Bool
  pub mid_to_local : Map Bool

abbrev pub no_signals : SignalMaps
no_signals = record {
  mid_in = [];
  mid_out = [];
  mid_local = [];
  mid_relay = [];
  mid_from_local = [];
  mid_to_local = [];
}

unfoldable pub mark : Bool → Text → Map Bool → Map Bool
mark true k m = insert k true m
mark false k m = m

unfoldable pub add_signals : Signals → Text → SignalMaps → SignalMaps
add_signals g mid m = record {
  mid_in = mark g.inbound mid m.mid_in;
  mid_out = mark g.outbound mid m.mid_out;
  mid_local = mark g.local mid m.mid_local;
  mid_relay = mark g.relay mid m.mid_relay;
  mid_from_local = mark g.from_local mid m.mid_from_local;
  mid_to_local = mark g.to_local mid m.mid_to_local;
}

unfoldable pub collect_one : Store → SignalMaps → Record → SignalMaps
collect_one s m r =
    if r.subsumed || is_empty r.message_id
    then m
    else add_signals (signals_of r (conf_for s r.origin)) r.message_id m

-- The loop over all the records.
unfoldable pub collect : Store → SignalMaps → List Record → SignalMaps
collect s m [] = m
collect s m (r ∷ rs) = collect s (collect_one s m r) rs

unfoldable pub look_up : SignalMaps → Text → Signals
look_up m mid = record {
  inbound = lookup_or mid false m.mid_in;
  outbound = lookup_or mid false m.mid_out;
  local = lookup_or mid false m.mid_local;
  relay = lookup_or mid false m.mid_relay;
  from_local = lookup_or mid false m.mid_from_local;
  to_local = lookup_or mid false m.mid_to_local;
}

-- The closure that directionResolver returns.
unfoldable pub resolve : Store → SignalMaps → Record → Text
resolve s m r =
    classify_direction
      (if is_empty r.message_id then signals_of r (conf_for s r.origin) else look_up m r.message_id)

unfoldable pub direction_resolver : Store → Record → Text
direction_resolver s = resolve s (collect s no_signals s.records)

unfoldable pub aggregate_one : Store → Text → Signals → Record → Signals
aggregate_one s mid g o =
    if o.subsumed || not (text_eq o.message_id mid)
    then g
    else join g (signals_of o (conf_for s o.origin))

-- GetDetail's loop over the records that are legs of this Message-ID.
unfoldable pub aggregate : Store → Text → Signals → List Record → Signals
aggregate s mid g [] = g
aggregate s mid g (o ∷ rs) = aggregate s mid (aggregate_one s mid g o) rs

unfoldable pub detail_direction : Store → Record → Text
detail_direction s r = classify_direction (
    if is_empty r.message_id
    then signals_of r (conf_for s r.origin)
    else aggregate s r.message_id silent s.records)
