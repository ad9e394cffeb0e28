-- ===== src/Tests/Routes.antt =====
-- The router and the reversal registry on two routes and one reversal.
use atlas_pay.Prelude.{
  routing_error, ok, err, nat_eq, list_beq, text_eq, Text, codes, starts_with, ◌≡◌, refl, ◌↔◌, none,
  List, [], ◌∷◌,
}
use atlas_pay.Prelude.Dict.{contains, insert}
use atlas_pay.Prelude.Sets.{add}
use atlas_pay.Prelude.Int.{pos}
use atlas_pay.Canonical.{NetworkCorrelation, correlation_beq, correlation_eq, AuthorizationRequest}
use atlas_pay.Network.Routing.{
  route as find_route, IssuerRoute, is_eligible, longest_prefix, only_route, most_specific,
  timeout_reason, ReversalLink, ReversalRegistry, new_registry, link,
}
use atlas_pay.Network.Routing.MostSpecific.{Picks, route-Picks}
use atlas_pay.Network.Routing.Registry.{IsOneToOne, start, links, Reach-IsOneToOne}

abbrev issuer_route : Text → Text → IssuerRoute
issuer_route name prefix = record {
  name = name;
  acquirer_id = codes "acquirer";
  issuer_id = codes "bank";
  pan_prefix = prefix;
  currencies = codes "MAD" ∷ [];
}

abbrev routes : List IssuerRoute
routes = issuer_route (codes "wide") (codes "4") ∷ issuer_route (codes "narrow") (codes "4111") ∷ []

abbrev purchase : AuthorizationRequest
purchase = record {
  amount_minor = pos 100;
  currency = codes "MAD";
  merchant_id = codes "m";
  terminal_id = codes "t";
  instrument = record { pan = codes "4111111111111111"; icc_data = none };
  correlation = record { stan = codes "123456"; rrn = codes "123456789012" };
}

narrow_test : find_route routes purchase ≡ ok (issuer_route (codes "narrow") (codes "4111"))
unfolding find_route most_specific longest_prefix only_route is_eligible starts_with list_beq
narrow_test = refl

-- Two routes of the same length are ambiguous.
ambiguous_test :
    find_route
      (issuer_route (codes "a") (codes "41") ∷ issuer_route (codes "b") (codes "41") ∷ [])
      purchase
    ≡ err routing_error
unfolding find_route most_specific longest_prefix only_route is_eligible starts_with list_beq
ambiguous_test = refl

route-Picks_example :
    (find_route routes purchase ≡ ok (issuer_route (codes "narrow") (codes "4111")))
    ↔ Picks purchase (issuer_route (codes "narrow") (codes "4111")) routes
route-Picks_example = route-Picks routes purchase (issuer_route (codes "narrow") (codes "4111"))

abbrev original : NetworkCorrelation
original = record { stan = codes "123456"; rrn = codes "123456789012" }

abbrev reversal : NetworkCorrelation
reversal = record { stan = codes "900001"; rrn = codes "900000000001" }

abbrev the_link : ReversalLink
the_link = record { original = original; reversal = reversal; reason = timeout_reason }

abbrev with_link : ReversalRegistry
with_link = record { by_original = (original, the_link) ∷ []; reversal_keys = reversal ∷ [] }

link_test : link original reversal timeout_reason new_registry ≡ ok (the_link, with_link)
unfolding link insert add contains list_beq correlation_beq
link_test = refl

Reach-IsOneToOne_example : IsOneToOne with_link
Reach-IsOneToOne_example =
    Reach-IsOneToOne (links original reversal timeout_reason the_link start link_test)
