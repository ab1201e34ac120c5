-- ===== src/PostfixConf/Sound.antt =====
-- What loadPostfixConf of postfixconf.go lets into a configuration.
use mathlib.Core.Path.{subst}
use plv.Prelude.{
  ℕ, ◌+◌, ◌≡◌, refl, Bool, true, false, ◌||◌, List, [], ◌∷◌, ◌++◌, Option, none, some, any,
  if◌then◌else◌, arith, leb→le, Bool-cases, inl, inr,
}
use plv.Go.Text.{Text, lit, to_lower, lower_byte, elem, text_eq, text_eq_iff, contains}
use plv.Go.Map.{Map}
use plv.Go.Net.{Network}
use plv.PostfixConf.{PostfixConf, put_domain}
use plv.PostfixConf.Wire.{any-put_domain}
use plv.PostfixConf.MainCf.{File, parse_main_cf}
use plv.PostfixConf.Tokens.{
  Environment, token_domain, is_no_domain, add_domain, add_domains, add_domain_token, is_over_broad,
  accept_network, accept_cidr, add_cidr, add_cidrs, add_network_token,
}
use plv.PostfixConf.Load.{
  add_domain_tokens, add_domain_keys, add_network_tokens, conf_of, load_postfix_conf, load_params,
  load_main_cf,
}

-- Domains are in lower case and have a dot; no network of IPv4 is broader than /16.
unfoldable pub IsSound : PostfixConf → Type 0
IsSound pc =
    ((d : Text) → elem d pc.local_domains ≡ true → (to_lower d ≡ d) × (contains d (lit ".") ≡ true))
    × (any is_over_broad pc.networks ≡ false)

lower_byte-lower_byte : (c : ℕ) → lower_byte (lower_byte c) ≡ lower_byte c
unfolding lower_byte
lower_byte-lower_byte c = ground (arith, leb→le b'A' c, leb→le (c + 32) b'Z')

to_lower-to_lower : (s : Text) → to_lower (to_lower s) ≡ to_lower s
unfolding to_lower
to_lower-to_lower [] = refl
to_lower-to_lower (c ∷ s) = ground (arith, lower_byte-lower_byte c, to_lower-to_lower s)

put_domain-IsSound :
    (d : Text) (pc : PostfixConf)
    → to_lower d ≡ d
    → contains d (lit ".") ≡ true
    → IsSound pc
    → IsSound (record pc { local_domains = put_domain d pc.local_domains })
unfolding elem IsSound
put_domain-IsSound d pc low dot (doms, nets) = (
  λ x h. elim (Bool-cases (text_eq d x)) [
    | inl same ↦
        subst (λ y. (to_lower y ≡ y) × (contains y (lit ".") ≡ true)) ((text_eq_iff d x).0 same)
          (low, dot)
    | inr other ↦ doms x (ground (arith, any-put_domain (λ t. text_eq t x) d pc.local_domains))
  ],
  nets,
)

token_domain-to_lower : (t : Text) → to_lower (token_domain t) ≡ token_domain t
unfolding token_domain
token_domain-to_lower t = to_lower-to_lower _

is_no_domain-dot : (d : Text) → is_no_domain d ≡ false → contains d (lit ".") ≡ true
unfolding is_no_domain
is_no_domain-dot d h = ground arith

add_domain-IsSound : (t : Text) (pc : PostfixConf) → IsSound pc → IsSound (add_domain t pc)
unfolding add_domain
add_domain-IsSound t pc h =
    let d = token_domain t in
    elim (Bool-cases (is_no_domain d)) [
      | inl e ↦ rw e h
      | inr e ↦ rw e (put_domain-IsSound d pc (token_domain-to_lower t) (is_no_domain-dot d e) h)
    ]

add_domains-IsSound : (ks : List Text) (pc : PostfixConf) → IsSound pc → IsSound (add_domains ks pc)
unfolding add_domains
add_domains-IsSound [] pc h = h
add_domains-IsSound (k ∷ ks) pc h =
    add_domains-IsSound ks (add_domain k pc) (add_domain-IsSound k pc h)

any-snoc :
    (p : Network → Bool) (ns : List Network) (n : Network)
    → any p (ns ++ n ∷ []) ≡ (any p ns || p n)
any-snoc p [] n = ground arith
any-snoc p (x ∷ xs) n = ground (arith, any-snoc p xs n)

accept_network-IsSound :
    (n : Option Network) (pc : PostfixConf) → IsSound pc → IsSound (accept_network n pc)
unfolding accept_network IsSound
accept_network-IsSound none pc h = h
accept_network-IsSound (some n) pc (doms, nets) = elim (Bool-cases (is_over_broad n)) [
  | inl e ↦ rw e (doms, nets)
  | inr e ↦ rw e (doms, ground (arith, any-snoc is_over_broad pc.networks n))
]

-- Either of two configurations, by a test.
IsSound-if : (b : Bool) (p q : PostfixConf) → IsSound p → IsSound q → IsSound (if b then p else q)
IsSound-if true p q hp hq = hp
IsSound-if false p q hp hq = hq

accept_cidr-IsSound :
    (env : Environment) (c : Option Text) (pc : PostfixConf)
    → IsSound pc
    → IsSound (accept_cidr env c pc)
unfolding accept_cidr
accept_cidr-IsSound env none pc h = h
accept_cidr-IsSound env (some c) pc h = accept_network-IsSound (env.parse_cidr c) pc h

add_cidr-IsSound :
    (env : Environment) (t : Text) (pc : PostfixConf) → IsSound pc → IsSound (add_cidr env t pc)
unfolding add_cidr
add_cidr-IsSound env t pc h = IsSound-if _ _ _ h (accept_cidr-IsSound env _ pc h)

add_cidrs-IsSound :
    (env : Environment) (ks : List Text) (pc : PostfixConf)
    → IsSound pc
    → IsSound (add_cidrs env ks pc)
unfolding add_cidrs
add_cidrs-IsSound env [] pc h = h
add_cidrs-IsSound env (k ∷ ks) pc h =
    add_cidrs-IsSound env ks (add_cidr env k pc) (add_cidr-IsSound env k pc h)

add_domain_token-IsSound :
    (env : Environment) (dir tok : Text) (pc : PostfixConf)
    → IsSound pc
    → IsSound (add_domain_token env dir tok pc)
unfolding add_domain_token
add_domain_token-IsSound env dir tok pc h =
    IsSound-if _ _ _ (add_domains-IsSound _ pc h) (IsSound-if _ _ _ h (add_domain-IsSound tok pc h))

add_network_token-IsSound :
    (env : Environment) (dir tok : Text) (pc : PostfixConf)
    → IsSound pc
    → IsSound (add_network_token env dir tok pc)
unfolding add_network_token
add_network_token-IsSound env dir tok pc h =
    let cidr = add_cidr-IsSound env tok pc h in
    IsSound-if _ _ _ (IsSound-if _ _ _ (add_cidrs-IsSound env _ pc h) (IsSound-if _ _ _ cidr h))
      cidr

add_domain_tokens-IsSound :
    (env : Environment) (dir : Text) (ts : List Text) (pc : PostfixConf)
    → IsSound pc
    → IsSound (add_domain_tokens env dir ts pc)
unfolding add_domain_tokens
add_domain_tokens-IsSound env dir [] pc h = h
add_domain_tokens-IsSound env dir (t ∷ ts) pc h =
    add_domain_tokens-IsSound env dir ts _ (add_domain_token-IsSound env dir t pc h)

add_domain_keys-IsSound :
    (env : Environment) (dir : Text) (params : Map Text) (ks : List Text) (pc : PostfixConf)
    → IsSound pc
    → IsSound (add_domain_keys env dir params ks pc)
unfolding add_domain_keys
add_domain_keys-IsSound env dir params [] pc h = h
add_domain_keys-IsSound env dir params (k ∷ ks) pc h =
    add_domain_keys-IsSound env dir params ks _ (add_domain_tokens-IsSound env dir _ pc h)

add_network_tokens-IsSound :
    (env : Environment) (dir : Text) (ts : List Text) (pc : PostfixConf)
    → IsSound pc
    → IsSound (add_network_tokens env dir ts pc)
unfolding add_network_tokens
add_network_tokens-IsSound env dir [] pc h = h
add_network_tokens-IsSound env dir (t ∷ ts) pc h =
    add_network_tokens-IsSound env dir ts _ (add_network_token-IsSound env dir t pc h)

none-IsSound : (h : Text) → IsSound (record { hostname = h; local_domains = []; networks = [] })
unfolding IsSound elem
none-IsSound h = (λ d q. ground arith, refl)

conf_of-IsSound :
    (env : Environment) (dir : Text) (params : Map Text) → IsSound (conf_of env dir params)
unfolding conf_of
conf_of-IsSound env dir params =
    add_network_tokens-IsSound env dir _ _
      (add_domain_keys-IsSound env dir params _ _ (none-IsSound _))

load_params-IsSound :
    (env : Environment) (dir : Text) (params : Option (Map Text)) (pc : PostfixConf)
    → load_params env dir params ≡ some pc
    → IsSound pc
unfolding load_params
load_params-IsSound env dir none pc h = ground arith
load_params-IsSound env dir (some params) pc h =
    let e : conf_of env dir params ≡ pc = ground arith in
    subst IsSound e (conf_of-IsSound env dir params)

load_main_cf-IsSound :
    (env : Environment) (dir : Text) (f : Option File) (pc : PostfixConf)
    → load_main_cf env dir f ≡ some pc
    → IsSound pc
unfolding load_main_cf
load_main_cf-IsSound env dir none pc h = ground arith
load_main_cf-IsSound env dir (some f) pc h = load_params-IsSound env dir (parse_main_cf f) pc h

-- Whatever the files hold, every domain of a configuration that was loaded is in lower case and has a
-- dot, and every network of it that counts 32 bits fixes 16 of them at least.
pub load_postfix_conf-IsSound :
    (env : Environment) (dir : Text) (pc : PostfixConf)
    → load_postfix_conf env dir ≡ some pc
    → IsSound pc
unfolding load_postfix_conf
load_postfix_conf-IsSound env dir pc h = load_main_cf-IsSound env dir _ pc h
