-- ===== src/Tests/Confs.antt =====
-- A configuration read from a small main.cf.
use plv.Prelude.{◌≡◌, refl, true, if◌then◌else◌, List, [], ◌∷◌, none, some}
use plv.Go.Text.{
  Text, lit, text_eq, fields_func, fields_from, contains, trim_space, trim_func, trim_right,
  drop_while, has_prefix, cut, is_space, trim_prefix, elem, to_lower, lower_byte, after_last,
}
use plv.Go.Map.{lookup, lookup_or, insert}
use plv.Go.Regexp.{among}
use plv.Go.Net.{Network}
use plv.PostfixConf.{PostfixConf, put_domain}
use plv.PostfixConf.MainCf.{
  parse_main_cf, split_fields, expand_main_cf, expand_rounds, flush_entry, read_entries, read_entry,
}
use plv.PostfixConf.Tokens.{
  Environment, add_domain_token, add_network_token, table_file_path, add_domain, token_domain,
  is_no_domain, add_cidr, accept_cidr, accept_network, is_over_broad, full_cidr, has_type,
  file_readable,
}
use plv.PostfixConf.Load.{
  load_postfix_conf, load_main_cf, load_params, conf_of, add_network_tokens, add_domain_keys,
  add_domain_tokens, expanded,
}
use plv.PostfixConf.Sound.{IsSound, load_postfix_conf-IsSound}
use plv.Store.{conf_for}
use plv.Store.Confs.{IsKept, set_postfix_conf_for_origin, set_postfix_conf_for_origin-IsKept}
use plv.Tests.Samples.{empty_store}

abbrev main_cf : List Text
main_cf =
    lit "# the domain"
    ∷ lit "mydomain = Example.COM"
    ∷ lit "mynetworks = 203.0.113.0/24,"
    ∷ lit "  198.0.0.0/8"
    ∷ []

abbrev backend : Network
backend = record { is4 = true; value = 3405803776; prefix = 24; ones = 24; bits = 32 }

abbrev wide : Network
wide = record { is4 = true; value = 3321888768; prefix = 8; ones = 8; bits = 32 }

-- Two networks are printed in the file, and no other.
abbrev small_env : Environment
small_env = record {
  open_file = λ p. some (record { lines = main_cf; complete = true });
  join_path = λ d f. f;
  base = λ p. p;
  parse_cidr = λ t.
      if text_eq t (lit "203.0.113.0/24")
      then some backend
      else if text_eq t (lit "198.0.0.0/8")
      then some wide
      else none;
}

abbrev small_conf : PostfixConf
small_conf = record {
  hostname = [];
  local_domains = lit "example.com" ∷ [];
  networks = backend ∷ [];
}

small_conf_loads : load_postfix_conf small_env [] ≡ some small_conf
unfolding load_postfix_conf load_main_cf load_params parse_main_cf conf_of add_network_tokens
    add_domain_keys add_domain_tokens split_fields fields_func fields_from expanded expand_main_cf
    expand_rounds contains lookup_or lookup insert flush_entry read_entries read_entry trim_space
    trim_func trim_right drop_while has_prefix text_eq cut lit is_space add_domain_token
    add_network_token table_file_path trim_prefix elem add_domain token_domain is_no_domain
    put_domain to_lower lower_byte after_last among add_cidr accept_cidr accept_network
    is_over_broad full_cidr has_type file_readable
small_conf_loads = refl

load_postfix_conf-IsSound_example : IsSound small_conf
load_postfix_conf-IsSound_example =
    load_postfix_conf-IsSound small_env [] small_conf small_conf_loads

abbrev show_backend : Network → Text
show_backend n = lit "203.0.113.0/24"

set_postfix_conf_for_origin-IsKept_example :
    IsKept show_backend empty_store
      (lit "mx1")
      small_conf
      (set_postfix_conf_for_origin show_backend empty_store (lit "mx1") (some small_conf))
    × (conf_for
          (set_postfix_conf_for_origin show_backend empty_store (lit "mx1") (some small_conf)).0
          (lit "mx2")
        ≡ conf_for empty_store (lit "mx2"))
set_postfix_conf_for_origin-IsKept_example =
    set_postfix_conf_for_origin-IsKept show_backend empty_store (lit "mx1") (lit "mx2") small_conf
      (unfold lit in refl) (unfold lit in unfold text_eq in refl)
