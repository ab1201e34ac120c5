-- ===== src/Tests/Tables.antt =====
-- The table, the statistics and the directions at concrete inputs.
use plv.Prelude.{
  if◌then◌else◌, Option, ◌∷◌, true, ◌+◌, ◌≤◌, ◌≡◌, refl, some, none, [], length, keep, map, take,
  drop, arith,
}
use plv.Go.Text.{Text, lit, text_eq, to_lower, lower_byte}
use plv.Go.Net.{Network}
use plv.PostfixConf.{PostfixConf, payload, to_conf, in_my_networks, is_local_domain}
use plv.PostfixConf.Wire.{to_conf-payload}
use plv.Direction.Agree.{detail_direction-eq-direction_resolver}
use plv.Direction.Resolver.{direction_resolver, detail_direction}
use plv.Search.{SearchResult, visible, filtered, ordered, mid_origins, table_row, search}
use plv.Search.Match.{record_matches}
use plv.Search.Paging.{search-page}
use plv.Stats.{tallies}
use plv.Stats.Tally.{directed, outcomes, uncounted, tallies_sums}
use plv.Tests.Samples.{two_rows, inbound_leg, grouped}

detail_direction-eq-direction_resolver_example :
    detail_direction two_rows inbound_leg ≡ direction_resolver two_rows inbound_leg
detail_direction-eq-direction_resolver_example =
    detail_direction-eq-direction_resolver two_rows inbound_leg

tallies_sums_example :
    (directed (tallies two_rows grouped)
      ≡ length (keep (λ r. record_matches r grouped) (visible two_rows)))
    × ((tallies two_rows grouped).total ≡ length (filtered two_rows grouped))
    × (outcomes (tallies two_rows grouped)
          + length (keep (uncounted (direction_resolver two_rows) grouped) (visible two_rows))
        ≡ length (filtered two_rows grouped))
tallies_sums_example = tallies_sums two_rows grouped

search-page_example :
    (res : SearchResult) × (search two_rows grouped ≡ some res)
    × (res.rows
        ≡ map
            (table_row two_rows (mid_origins [] two_rows.records))
            (take 1 (drop 1 (ordered two_rows grouped))))
    × (res.records_filtered ≡ length (filtered two_rows grouped))
    × (res.records_filtered ≤ res.records_total)
search-page_example = search-page two_rows grouped 1 refl (omega arith)

-- A configuration of one network and two domains.
abbrev office : Network
office = record { is4 = true; value = 3405803776; prefix = 24; ones = 24; bits = 32 }

abbrev office_conf : PostfixConf
office_conf = record {
  hostname = lit "mx";
  local_domains = lit "b.example" ∷ lit "a.example" ∷ [];
  networks = office ∷ [];
}

-- The form of the only network.
abbrev show_office : Network → Text
show_office n = lit "203.0.113.0/24"

abbrev read_office : Text → Option Network
read_office t = if text_eq t (lit "203.0.113.0/24") then some office else none

office_reads :
    map (λ n. read_office (show_office n)) office_conf.networks ≡ map some office_conf.networks
unfolding text_eq lit
office_reads = refl

office_lower : map to_lower office_conf.local_domains ≡ office_conf.local_domains
unfolding to_lower lower_byte lit
office_lower = refl

to_conf-payload_example :
    (in_my_networks
        (to_conf read_office (payload show_office (some office_conf)))
        (lit "203.0.113.9")
      ≡ in_my_networks (some office_conf) (lit "203.0.113.9"))
    × (is_local_domain
          (to_conf read_office (payload show_office (some office_conf)))
          (lit "203.0.113.9")
        ≡ is_local_domain (some office_conf) (lit "203.0.113.9"))
to_conf-payload_example =
    to_conf-payload show_office read_office office_conf office_reads office_lower
      (lit "203.0.113.9")
