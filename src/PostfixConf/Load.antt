-- ===== src/PostfixConf/Load.antt =====
-- loadPostfixConf of postfixconf.go. An error is none.
use plv.Prelude.{List, [], ◌∷◌, Option, none, some}
use plv.Go.Text.{Text, lit, to_lower, trim_space}
use plv.Go.Map.{Map, lookup_or}
use plv.PostfixConf.{PostfixConf}
use plv.PostfixConf.MainCf.{File, parse_main_cf, expand_main_cf, split_fields}
use plv.PostfixConf.Tokens.{Environment, add_domain_token, add_network_token}

abbrev domain_keys : List Text
domain_keys =
    lit "mydestination"
    ∷ lit "mydomain"
    ∷ lit "myhostname"
    ∷ lit "virtual_alias_domains"
    ∷ lit "virtual_mailbox_domains"
    ∷ lit "relay_domains"
    ∷ []

unfoldable pub expanded : Map Text → Text → Text
expanded params key = expand_main_cf params (lookup_or key [] params)

unfoldable pub add_domain_tokens : Environment → Text → List Text → PostfixConf → PostfixConf
add_domain_tokens env dir [] pc = pc
add_domain_tokens env dir (t ∷ ts) pc = add_domain_tokens env dir ts (add_domain_token env dir t pc)

unfoldable pub add_domain_keys :
    Environment → Text → Map Text → List Text → PostfixConf → PostfixConf
add_domain_keys env dir params [] pc = pc
add_domain_keys env dir params (k ∷ ks) pc =
    add_domain_keys env dir params ks
      (add_domain_tokens env dir (split_fields (expanded params k)) pc)

unfoldable pub add_network_tokens : Environment → Text → List Text → PostfixConf → PostfixConf
add_network_tokens env dir [] pc = pc
add_network_tokens env dir (t ∷ ts) pc =
    add_network_tokens env dir ts (add_network_token env dir t pc)

unfoldable pub conf_of : Environment → Text → Map Text → PostfixConf
conf_of env dir params =
    let empty : PostfixConf = record {
      hostname = to_lower (trim_space (expanded params (lit "myhostname")));
      local_domains = [];
      networks = [];
    } in
    add_network_tokens env dir (split_fields (expanded params (lit "mynetworks")))
      (add_domain_keys env dir params domain_keys empty)

unfoldable pub load_params : Environment → Text → Option (Map Text) → Option PostfixConf
load_params env dir none = none
load_params env dir (some params) = some (conf_of env dir params)

unfoldable pub load_main_cf : Environment → Text → Option File → Option PostfixConf
load_main_cf env dir none = none
load_main_cf env dir (some f) = load_params env dir (parse_main_cf f)

unfoldable pub load_postfix_conf : Environment → Text → Option PostfixConf
load_postfix_conf env dir = load_main_cf env dir (env.open_file (env.join_path dir (lit "main.cf")))
