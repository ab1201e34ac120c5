-- ===== src/PostfixConf/Wire.antt =====
-- payload and toConf of postfixconf.go: a configuration sent to the receiver and read there.
use plv.Prelude.{
  ◌≡◌, refl, ◌∙◌, sym, ap, Bool, true, ◌||◌, List, [], ◌∷◌, map, Option, some, any, arith,
}
use plv.Go.Text.{Text, to_lower, elem, text_eq, text_eq_iff, has_suffix}
use plv.Go.Sort.{sort_stable, any-sort_stable}
use plv.Go.Net.{Network}
use plv.PostfixConf.{
  PostfixConf, in_my_networks, is_local_domain, domain_of, payload, to_conf, text_before,
  put_domain, lower_domains, read_networks,
}

any-map :
    (p : Text → Bool) (f : Text → Text) (xs : List Text) → any p (map f xs) ≡ any (λ x. p (f x)) xs
any-map p f [] = refl
any-map p f (x ∷ xs) = ground (arith, any-map p f xs)

any-elem :
    (p : Text → Bool) (d : Text) (ds : List Text) → elem d ds ≡ true → p d ≡ true → any p ds ≡ true
unfolding elem
any-elem p d [] h q = ground arith
any-elem p d (x ∷ xs) h q = ground (arith, any-elem p d xs, text_eq_iff x d)

pub any-put_domain :
    (p : Text → Bool) (d : Text) (ds : List Text) → any p (put_domain d ds) ≡ (p d || any p ds)
unfolding put_domain
any-put_domain p d ds = ground (arith, any-elem p d ds)

any-lower_domains :
    (p : Text → Bool) (acc ds : List Text)
    → any p (lower_domains acc ds) ≡ (any p acc || any p (map to_lower ds))
unfolding lower_domains
any-lower_domains p acc [] = ground arith
any-lower_domains p acc (d ∷ ds) =
    ground (
      arith,
      any-lower_domains p (put_domain (to_lower d) acc) ds,
      any-put_domain p (to_lower d) acc,
    )

-- A set of lower-case domains, sorted on the way, is the same set at the other end.
any-sent_domains :
    (p : Text → Bool) (ds : List Text)
    → map to_lower ds ≡ ds
    → any p (lower_domains [] (sort_stable text_before ds)) ≡ any p ds
any-sent_domains p ds low =
    any-lower_domains p [] (sort_stable text_before ds)
    ∙ any-map p to_lower (sort_stable text_before ds)
    ∙ any-sort_stable (λ d. p (to_lower d)) text_before ds
    ∙ sym (any-map p to_lower ds)
    ∙ ap (any p) low

read_networks-map :
    (show : Network → Text) (parse : Text → Option Network) (ns : List Network)
    → map (λ n. parse (show n)) ns ≡ map some ns
    → read_networks parse (map show ns) ≡ ns
unfolding read_networks
read_networks-map show parse [] h = refl
read_networks-map show parse (n ∷ ns) h = ground (arith, read_networks-map show parse ns)

-- A configuration with lower-case domains, whose networks are each read back from their printed form,
-- answers every question about an address or a domain in the same way after it was sent.
pub to_conf-payload :
    (show : Network → Text) (parse : Text → Option Network) (pc : PostfixConf)
    → map (λ n. parse (show n)) pc.networks ≡ map some pc.networks
    → map to_lower pc.local_domains ≡ pc.local_domains
    → (s : Text)
    → (in_my_networks (to_conf parse (payload show (some pc))) s ≡ in_my_networks (some pc) s)
      × (is_local_domain (to_conf parse (payload show (some pc))) s ≡ is_local_domain (some pc) s)
unfolding to_conf payload in_my_networks is_local_domain elem
to_conf-payload show parse pc h low s =
    let same : (p : Text → Bool)
        → any p (lower_domains [] (sort_stable text_before pc.local_domains))
          ≡ any p pc.local_domains =
      λ p. any-sent_domains p pc.local_domains low in
    (
      ap (λ ns. in_my_networks (some (record pc { networks = ns })) s)
          (read_networks-map show parse pc.networks h),
      rw (same (λ t. text_eq t (domain_of s)), same (λ ld. has_suffix (domain_of s) (b'.' ∷ ld)))
          refl,
    )
