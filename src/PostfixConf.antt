-- ===== src/PostfixConf.antt =====
-- postfixconf.go: the facts of a Postfix configuration that decide directions. The set of local
-- domains is a list; no result depends on its order.
pub mod Wire
pub mod MainCf
pub mod Tokens
pub mod Load
pub mod Sound
use plv.Prelude.{
  Bool, false, ◌||◌, ◌==◌, true, map, [], if◌then◌else◌, List, ◌∷◌, ◌++◌, Option, none, some, any,
}
use plv.Go.Text.{
  lit, join, Text, is_empty, after_last, to_lower, trim_func, elem, has_suffix, compare_text, Cmp,
  less, equal, greater,
}
use plv.Go.Sort.{sort_stable}
use plv.Go.Net.{Network, net_contains, parse_ip}

pub record PostfixConf : Type 0 where
  pub hostname : Text
  pub local_domains : List Text
  pub networks : List Network

-- A nil configuration is none.
unfoldable pub in_my_networks : Option PostfixConf → Text → Bool
in_my_networks none s = false
in_my_networks (some pc) s =
    if is_empty s
    then false
    else elim (parse_ip s) [ none ↦ false | some ip ↦ any (λ n. net_contains n ip) pc.networks ]

-- The part behind the last @, trimmed and in lower case.
unfoldable pub domain_of : Text → Text
domain_of addr =
    let d : Text = elim (after_last b'@' addr) [ none ↦ addr | some t ↦ t ] in
    to_lower (trim_func (λ c. c == b' ' || c == b'<' || c == b'>') d)

unfoldable pub is_local_domain : Option PostfixConf → Text → Bool
is_local_domain none addr = false
is_local_domain (some pc) addr =
    let d = domain_of addr in
    if is_empty addr || is_empty d
    then false
    else elem d pc.local_domains || any (λ ld. has_suffix d (b'.' ∷ ld)) pc.local_domains

-- The wire form of a configuration.
pub record ConfPayload : Type 0 where
  pub hostname : Text
  pub local_domains : List Text
  pub networks : List Text

-- The order of domains: sort.Strings.
unfoldable pub text_before : Text → Text → Bool
text_before s t = elim (compare_text s t) [ less ↦ true | equal ↦ false | greater ↦ false ]

-- A nil configuration has a nil payload. `show` is net.IPNet's String.
unfoldable pub payload : (Network → Text) → Option PostfixConf → Option ConfPayload
payload show none = none
payload show (some pc) = some (record {
  hostname = pc.hostname;
  local_domains = sort_stable text_before pc.local_domains;
  networks = map show pc.networks;
})

-- A text that stands for the facts: domains and networks, each sorted.
unfoldable pub signature : (Network → Text) → PostfixConf → Text
signature show pc =
    join (sort_stable text_before pc.local_domains) (lit ",")
    ++ (lit "|" ++ join (sort_stable text_before (map show pc.networks)) (lit ","))

-- A set of domains that has this one.
unfoldable pub put_domain : Text → List Text → List Text
put_domain d ds = if elem d ds then ds else d ∷ ds

unfoldable pub lower_domains : List Text → List Text → List Text
lower_domains ds [] = ds
lower_domains ds (d ∷ rest) = lower_domains (put_domain (to_lower d) ds) rest

-- The networks that ParseCIDR reads, in their order.
unfoldable pub read_networks : (Text → Option Network) → List Text → List Network
read_networks parse [] = []
read_networks parse (c ∷ cs) =
    let rest = read_networks parse cs in elim (parse c) [ none ↦ rest | some n ↦ n ∷ rest ]

-- `parse` is net.ParseCIDR's network.
unfoldable pub to_conf : (Text → Option Network) → Option ConfPayload → Option PostfixConf
to_conf parse none = none
to_conf parse (some p) = some (record {
  hostname = p.hostname;
  local_domains = lower_domains [] p.local_domains;
  networks = read_networks parse p.networks;
})
