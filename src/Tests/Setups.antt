-- ===== src/Tests/Setups.antt =====
-- A receiver set up by the wizard, a query in SQL, and a policy that is too long.
use plv.Prelude.{◌≡◌, refl, true, List, [], ◌∷◌, none, length}
use plv.Go.Text.{Text, lit, text_eq}
use plv.Store.{Store}
use plv.Wizard.{Reach}
use plv.Search.Params.{SearchParams, no_params}
use plv.Database.Query.{IsAlike, build_search_query, build_search_query-SameText}
use plv.Tests.Samples.{inbound_leg, empty_store}

abbrev net : Reach
net = record { read_file = λ path. none; is_pool = λ pem. true; post = λ url req. none }

abbrev typed : List Text
typed = lit "Receiver\n" ∷ lit " mx.example, ,203.0.113.9\n" ∷ lit "\n" ∷ []

abbrev hostile : SearchParams
hostile = record no_params { search_term = lit "x' OR '1'='1"; filter_tls = lit "no" }

abbrev plain : SearchParams
plain = record no_params { search_term = lit "a@b.c"; filter_tls = lit "no" }

hostile-IsAlike : IsAlike hostile plain
unfolding lit text_eq
hostile-IsAlike = record {
  search_term = refl;
  filter_from = refl;
  filter_to = refl;
  filter_client = refl;
  filter_relay = refl;
  filter_status = refl;
  filter_queue_id = refl;
  tls_yes = refl;
  tls_no = refl;
}

build_search_query-SameText_example :
    ((build_search_query hostile).0 ≡ (build_search_query plain).0)
    × (length (build_search_query hostile).1 ≡ length (build_search_query plain).1)
build_search_query-SameText_example = build_search_query-SameText hostile plain hostile-IsAlike

-- Five hundred years.
abbrev forever : Text
forever = lit "182500"

abbrev held : Store
held = record empty_store { records = record inbound_leg { timestamp = 1_000_000_000 } ∷ [] }
