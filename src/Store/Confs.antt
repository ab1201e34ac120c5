-- ===== src/Store/Confs.antt =====
-- SetPostfixConfForOrigin and ServerConfs of store.go: the configurations of the servers. `show` is
-- the String of net.IPNet.
use plv.Prelude.{
  ◌≡◌, refl, Bool, true, false, if◌then◌else◌, List, [], ◌∷◌, ◌++◌, map, Option, none, some, arith,
  Bool-cases, inl, inr,
}
use plv.Go.Text.{Text, lit, is_empty, text_eq, text_eq_iff}
use plv.Go.Map.{Map, lookup, insert, lookup-insert, lookup-insert_self}
use plv.Go.Sort.{sort_stable}
use plv.Go.Net.{Network}
use plv.PostfixConf.{PostfixConf, text_before, signature}
use plv.Store.{Store, conf_for}

-- The same facts, as far as the signature tells.
unfoldable pub is_same_conf : (Network → Text) → Option PostfixConf → PostfixConf → Bool
is_same_conf show none pc = false
is_same_conf show (some old) pc = text_eq (signature show old) (signature show pc)

-- The store, and whether the configuration changed.
unfoldable pub set_postfix_conf_for_origin :
    (Network → Text) → Store → Text → Option PostfixConf → Store × Bool
set_postfix_conf_for_origin show s origin none = (s, false)
set_postfix_conf_for_origin show s origin (some pc) =
    if is_empty origin
    then (s, false)
    else if is_same_conf show (lookup origin s.pcfg_by_origin) pc
    then (s, false)
    else (record s { pcfg_by_origin = insert origin pc s.pcfg_by_origin }, true)

pub record ServerConfInfo : Type 0 where
  pub name : Text
  pub local_domains : List Text
  pub networks : List Text

unfoldable pub server_conf_info : (Network → Text) → Text → PostfixConf → ServerConfInfo
server_conf_info show origin pc = record {
  name =
      if is_empty origin
      then (if is_empty pc.hostname then lit "this server" else pc.hostname)
      else origin;
  local_domains = sort_stable text_before pc.local_domains;
  networks = sort_stable text_before (map show pc.networks);
}

-- The entries of the map in the order of their origins.
unfoldable pub server_confs : (Network → Text) → Store → List ServerConfInfo
server_confs show s =
    map (λ e. server_conf_info show e.0 e.1)
      (sort_stable (λ a b. text_before a.0 b.0) s.pcfg_by_origin)
    ++ elim s.pcfg [ none ↦ [] | some pc ↦ server_conf_info show [] pc ∷ [] ]

-- The configuration that is kept for a server after one arrived.
abbrev pub IsKept : (Network → Text) → Store → Text → PostfixConf → Store × Bool → Type 0
IsKept show s origin pc (t, true) = conf_for t origin ≡ some pc
IsKept show s origin pc (t, false) =
    (t ≡ s)
    × (old : PostfixConf) × (conf_for s origin ≡ some old)
    × (signature show old ≡ signature show pc)

-- The two outcomes for an origin that has a name.
set_new-IsKept :
    (show : Network → Text) (s : Store) (origin : Text) (pc : PostfixConf)
    → is_empty origin ≡ false
    → IsKept show s origin pc
        (record s { pcfg_by_origin = insert origin pc s.pcfg_by_origin }, true)
unfolding conf_for
set_new-IsKept show s origin pc h = rw (h, lookup-insert_self origin pc s.pcfg_by_origin) refl

keep_old-IsKept :
    (show : Network → Text) (s : Store) (origin : Text) (o : Option PostfixConf) (pc : PostfixConf)
    → is_empty origin ≡ false
    → lookup origin s.pcfg_by_origin ≡ o
    → is_same_conf show o pc ≡ true
    → IsKept show s origin pc (s, false)
unfolding is_same_conf conf_for
keep_old-IsKept show s origin none pc h e q = ground arith
keep_old-IsKept show s origin (some old) pc h e q =
    (refl, old, rw (h, e) refl, (text_eq_iff (signature show old) (signature show pc)).0 q)

lookup-insert_other :
    (k j : Text) (pc : PostfixConf) (m : Map PostfixConf)
    → text_eq k j ≡ false
    → lookup j (insert k pc m) ≡ lookup j m
lookup-insert_other k j pc m h = ground (arith, lookup-insert k j pc m)

-- When a configuration arrives for an origin that has a name, it is the one used for that origin from
-- then on and the change is reported; or the store stays as it is, no change is reported, and the one
-- in use has the same signature. Every other origin keeps the configuration it had.
pub set_postfix_conf_for_origin-IsKept :
    (show : Network → Text) (s : Store) (origin o : Text) (pc : PostfixConf)
    → is_empty origin ≡ false
    → text_eq origin o ≡ false
    → IsKept show s origin pc (set_postfix_conf_for_origin show s origin (some pc))
      × (conf_for (set_postfix_conf_for_origin show s origin (some pc)).0 o ≡ conf_for s o)
unfolding set_postfix_conf_for_origin
set_postfix_conf_for_origin-IsKept show s origin o pc h n =
    elim (Bool-cases (is_same_conf show (lookup origin s.pcfg_by_origin) pc)) [
      | inl e ↦ rw (h, e) (keep_old-IsKept show s origin _ pc h refl e, refl)
      | inr e ↦
          rw (h, e)
            (
              set_new-IsKept show s origin pc h,
              unfold conf_for in rw (lookup-insert_other origin o pc s.pcfg_by_origin n) refl,
            )
    ]
