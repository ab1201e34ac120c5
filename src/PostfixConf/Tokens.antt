-- ===== src/PostfixConf/Tokens.antt =====
-- postfixconf.go: the tokens of domains and networks, and the tables they may name. Package
-- filepath, the file system and net.ParseCIDR are parameters.
use plv.Prelude.{
  ◌==◌, Bool, true, false, ◌&&◌, ◌||◌, not, ltb, if◌then◌else◌, List, [], ◌∷◌, ◌++◌, Option, none,
  some, keep,
}
use plv.Go.Text.{
  Text, lit, text_eq, is_empty, trim_space, trim_func, trim_prefix, has_prefix, contains, cut,
  after_last, to_lower, fields, elem,
}
use plv.Go.Regexp.{among}
use plv.Go.Net.{Network, parse_ip}
use plv.PostfixConf.{PostfixConf, put_domain}
use plv.PostfixConf.MainCf.{File}

pub record Environment : Type 0 where
  -- none if the file cannot be opened
  pub open_file : Text → Option File
  -- filepath.Join and filepath.Base
  pub join_path : Text → Text → Text
  pub base : Text → Text
  -- the network of net.ParseCIDR
  pub parse_cidr : Text → Option Network

unfoldable pub file_readable : Environment → Text → Bool
file_readable env path = elim (env.open_file path) [ none ↦ false | some f ↦ true ]

abbrev table_types : List Text
table_types =
    lit "hash"
    ∷ lit "btree"
    ∷ lit "lmdb"
    ∷ lit "cdb"
    ∷ lit "dbm"
    ∷ lit "sdbm"
    ∷ lit "texthash"
    ∷ lit "cidr"
    ∷ lit "pcre"
    ∷ lit "regexp"
    ∷ []

-- Empty if no file backs the table.
unfoldable pub table_file_path : Environment → Text → Text → Text
table_file_path env spec dir = elim (cut b':' (trim_prefix spec (lit "proxy:"))) [
  | none ↦ []
  | some (type, path) ↦
      let alt = env.join_path dir (env.base path) in
      if not (elem type table_types)
      then []
      else if file_readable env path
      then path
      else if file_readable env alt
      then alt
      else []
]

-- The first field of a line of a table, unless the line is empty, a comment or a regular expression.
unfoldable pub map_key : Text → List Text
map_key l =
    let line = trim_space l in
    if is_empty line || has_prefix line (lit "#") || has_prefix line (lit "/")
    then []
    else elim (fields line) [ [] ↦ [] | k ∷ ks ↦ k ∷ [] ]

unfoldable pub map_keys : List Text → List Text
map_keys [] = []
map_keys (l ∷ ls) = map_key l ++ map_keys ls

unfoldable pub read_map_keys : Environment → Text → List Text
read_map_keys env path = elim (env.open_file path) [ none ↦ [] | some f ↦ map_keys f.lines ]

-- What stands behind the last @, trimmed and in lower case.
unfoldable pub token_domain : Text → Text
token_domain t =
    let host : Text = elim (after_last b'@' t) [ none ↦ t | some h ↦ h ] in
    to_lower (trim_func (among (lit " .<>")) host)

unfoldable pub is_no_domain : Text → Bool
is_no_domain d =
    is_empty d
    || text_eq d (lit "localhost")
    || has_prefix d (lit "/")
    || not (contains d (lit "."))

unfoldable pub add_domain : Text → PostfixConf → PostfixConf
add_domain t pc =
    let d = token_domain t in
    if is_no_domain d then pc else record pc { local_domains = put_domain d pc.local_domains }

unfoldable pub add_domains : List Text → PostfixConf → PostfixConf
add_domains [] pc = pc
add_domains (k ∷ ks) pc = add_domains ks (add_domain k pc)

unfoldable pub add_domain_token : Environment → Text → Text → PostfixConf → PostfixConf
add_domain_token env dir tok pc =
    let p = table_file_path env tok dir in
    if not (is_empty p)
    then add_domains (read_map_keys env p) pc
    else if contains tok (lit ":") || contains tok (lit "/")
    then pc
    else add_domain tok pc

-- An address alone becomes the network of that address: none if it is no address.
unfoldable pub full_cidr : Text → Option Text
full_cidr tok = if contains tok (lit "/") then some tok else elim (parse_ip tok) [
  | none ↦ none
  | some ip ↦ some (tok ++ (if ip.is4 then lit "/32" else lit "/128"))
]

-- Broader than /16 in IPv4.
unfoldable pub is_over_broad : Network → Bool
is_over_broad n = n.bits == 32 && ltb n.ones 16

unfoldable pub accept_network : Option Network → PostfixConf → PostfixConf
accept_network none pc = pc
accept_network (some n) pc =
    if is_over_broad n then pc else record pc { networks = pc.networks ++ n ∷ [] }

unfoldable pub accept_cidr : Environment → Option Text → PostfixConf → PostfixConf
accept_cidr env none pc = pc
accept_cidr env (some c) pc = accept_network (env.parse_cidr c) pc

unfoldable pub add_cidr : Environment → Text → PostfixConf → PostfixConf
add_cidr env t pc =
    let tok = keep (λ c. not (among (lit "[]") c)) (trim_space t) in
    if is_empty tok then pc else accept_cidr env (full_cidr tok) pc

unfoldable pub add_cidrs : Environment → List Text → PostfixConf → PostfixConf
add_cidrs env [] pc = pc
add_cidrs env (k ∷ ks) pc = add_cidrs env ks (add_cidr env k pc)

-- A colon that is not the first byte.
unfoldable pub has_type : Text → Bool
has_type tok = elim (cut b':' tok) [ none ↦ false | some (a, b) ↦ not (is_empty a) ]

unfoldable pub add_network_token : Environment → Text → Text → PostfixConf → PostfixConf
add_network_token env dir tok pc =
    let p = table_file_path env tok dir in
    if has_type tok && not (has_prefix tok (lit "["))
    then (if not (is_empty p)
        then add_cidrs env (read_map_keys env p) pc
        else if contains tok (lit "::")
        then add_cidr env tok pc
        else pc)
    else add_cidr env tok pc
