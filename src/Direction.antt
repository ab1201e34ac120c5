-- ===== src/Direction.antt =====
-- direction.go: the direction of a message from the legs that share its Message-ID.
pub mod Resolver
pub mod Agree
use plv.Prelude.{
  ◌+◌, ◌*◌, ◌==◌, ◌^◌, ◌/◌, Bool, true, false, not, ◌&&◌, ◌||◌, if◌then◌else◌, List, [], ◌∷◌,
  Option, none, some, any,
}
use plv.Go.Text.{Text, lit, is_empty, contains}
use plv.Go.Regexp.{find, sub}
use plv.Go.Net.{
  Ip, parse_ip, is_loopback, is_link_local_unicast, is_link_local_multicast, is_private,
}
use plv.Records.{Record}
use plv.PostfixConf.{PostfixConf, in_my_networks, is_local_domain}
use plv.Parser.Patterns.{re_bracket_ip}
use plv.Parser.Disposition.{delivers_local}

unfoldable pub ip_of : Text → Text
ip_of host = elim (find re_bracket_ip host) [ none ↦ [] | some m ↦ sub m 1 ]

-- 100.64.0.0/10
is_cgnat : Ip → Bool
is_cgnat a = a.is4 && a.value / 2 ^ 22 == (100 * 256 + 64) / 64

-- An address that does not parse counts as private.
unfoldable pub private_ip : Text → Bool
unfolding is_cgnat
private_ip ip = elim (parse_ip ip) [
  | none ↦ true
  | some a ↦
      is_loopback a
      || is_link_local_unicast a
      || is_link_local_multicast a
      || is_private a
      || is_cgnat a
]

unfoldable pub public_ip : Text → Bool
public_ip ip = not (is_empty ip) && not (private_ip ip)

unfoldable pub leg_received_public_unauth : Record → Option PostfixConf → Bool
leg_received_public_unauth r pc =
    let ip = ip_of r.client in
    public_ip ip
    && not (in_my_networks pc ip)
    && not (any (λ l. contains l (lit "sasl_username=")) r.raw_lines)

unfoldable pub leg_sends_public : Record → Option PostfixConf → Bool
leg_sends_public r pc =
    let ip = ip_of r.relay in public_ip ip && not (delivers_local r) && not (in_my_networks pc ip)

unfoldable pub reinjected : Record → Bool
reinjected r = any (λ l. contains l (lit "orig_client=")) r.raw_lines

unfoldable pub is_relay_leg : Record → Option PostfixConf → Bool
is_relay_leg r pc =
    leg_received_public_unauth r pc
    && leg_sends_public r pc
    && is_empty r.delivery_queue_id
    && not (reinjected r)

-- What one leg, or several together, say of a message.
pub record Signals : Type 0 where
  pub inbound : Bool
  pub outbound : Bool
  pub local : Bool
  pub relay : Bool
  pub from_local : Bool
  pub to_local : Bool

abbrev pub silent : Signals
silent = record {
  inbound = false;
  outbound = false;
  local = false;
  relay = false;
  from_local = false;
  to_local = false;
}

unfoldable pub signals_of : Record → Option PostfixConf → Signals
signals_of r pc = record {
  inbound = leg_received_public_unauth r pc;
  outbound = leg_sends_public r pc;
  local = delivers_local r;
  relay = is_relay_leg r pc;
  from_local = is_local_domain pc r.from;
  to_local = is_local_domain pc r.to;
}

abbrev pub join : Signals → Signals → Signals
join a b = record {
  inbound = a.inbound || b.inbound;
  outbound = a.outbound || b.outbound;
  local = a.local || b.local;
  relay = a.relay || b.relay;
  from_local = a.from_local || b.from_local;
  to_local = a.to_local || b.to_local;
}

unfoldable pub classify_direction : Signals → Text
classify_direction g =
    if g.relay && not g.local
    then lit "relayed"
    else if g.inbound
    then lit "inbound"
    else if g.outbound
    then lit "outbound"
    else if g.to_local && not g.from_local
    then lit "inbound"
    else if g.from_local && not g.to_local
    then lit "outbound"
    else lit "internal"

-- The loop of directionOf.
unfoldable pub signals_of_legs : Signals → List Record → Option PostfixConf → Signals
signals_of_legs g [] pc = g
signals_of_legs g (r ∷ rs) pc = signals_of_legs (join g (signals_of r pc)) rs pc

unfoldable pub direction_of : List Record → Option PostfixConf → Text
direction_of legs pc = classify_direction (signals_of_legs silent legs pc)
