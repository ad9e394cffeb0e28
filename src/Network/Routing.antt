-- ===== src/Network/Routing.antt =====
-- `NetworkRouter` and `ReversalRegistry` of app/network_routing.py.
pub mod MostSpecific
pub mod Registry
use atlas_pay.Prelude.{
  ltb, if◌then◌else◌, length, any, all, keep, is_empty, value_error, routing_error, Result, ok, err,
  ◌>>=◌, ◌>>◌, raise_if, ◌==◌, nat_eq, text_eq, mem, Text, Unicode, upper, is_blank, is_digit,
  starts_with, ℕ, Bool, not, ◌&&◌, ◌||◌, Option, List, [], ◌∷◌,
}
use atlas_pay.Prelude.Dict.{Dict, lookup, contains, insert}
use atlas_pay.Canonical.{NetworkCorrelation, correlation_eq, AuthorizationRequest}
use atlas_pay.Prelude.Sets.{add}

pub record IssuerRoute : Type 0 where
  pub name : Text
  pub acquirer_id : Text
  pub issuer_id : Text
  pub pan_prefix : Text
  pub currencies : List Text

module _ (u : Unicode) where
  -- `pan_prefix.isdigit()`
  abbrev pub is_digits : Text → Bool
  is_digits s = not (is_empty s) && all (is_digit u) s

  -- `IssuerRoute(...)`, with `__post_init__`
  unfoldable pub make_route : IssuerRoute → Result IssuerRoute
  make_route r = do
    raise_if (is_blank u r.name) value_error
    raise_if (is_blank u r.acquirer_id || is_blank u r.issuer_id) value_error
    raise_if (not (is_digits r.pan_prefix)) value_error
    raise_if (is_empty r.currencies) value_error
    raise_if (any (λ currency. not (currency == upper u currency)) r.currencies) value_error
    ok r

-- `NetworkRouter(routes)`
unfoldable pub make_router : List IssuerRoute → Result (List IssuerRoute)
make_router routes = do raise_if (is_empty routes) value_error; ok routes

-- The condition of the first comprehension of `route`.
unfoldable pub is_eligible : AuthorizationRequest → IssuerRoute → Bool
is_eligible request route =
    starts_with request.instrument.pan route.pan_prefix && mem request.currency route.currencies

-- `max(len(route.pan_prefix) for route in matches)`, for matches that are not empty
unfoldable pub longest_prefix : List IssuerRoute → ℕ
longest_prefix [] = 0
longest_prefix (route ∷ rest) =
    let longest = longest_prefix rest in
    if ltb longest (length route.pan_prefix) then length route.pan_prefix else longest

-- The one route of a list of one.
unfoldable pub only_route : List IssuerRoute → Result IssuerRoute
only_route [] = err routing_error
only_route (route ∷ []) = ok route
only_route (route ∷ other ∷ rest) = err routing_error

unfoldable pub most_specific : List IssuerRoute → List IssuerRoute
most_specific matches =
    let longest = longest_prefix matches in
    keep (λ route. length route.pan_prefix == longest) matches

-- `NetworkRouter.route`
unfoldable pub route : List IssuerRoute → AuthorizationRequest → Result IssuerRoute
route routes request = do
  let matches = keep (is_eligible request) routes
  raise_if (is_empty matches) routing_error
  only_route (most_specific matches)

pub data ReversalReason : Type 0 where
  timeout_reason late_response_reason operator_reason : ReversalReason

pub record ReversalLink : Type 0 where
  pub original : NetworkCorrelation
  pub reversal : NetworkCorrelation
  pub reason : ReversalReason

pub record ReversalRegistry : Type 0 where
  pub by_original : Dict NetworkCorrelation ReversalLink
  pub reversal_keys : List NetworkCorrelation

abbrev pub new_registry : ReversalRegistry
new_registry = record { by_original = []; reversal_keys = [] }

-- `ReversalRegistry.link`; where it raises it has changed nothing.
unfoldable pub link :
    NetworkCorrelation
    → NetworkCorrelation
    → ReversalReason
    → ReversalRegistry
    → Result (ReversalLink × ReversalRegistry)
link original reversal reason g = do
  raise_if (original == reversal) value_error
  raise_if (contains original g.by_original) value_error
  raise_if (mem reversal g.reversal_keys) value_error
  let l : ReversalLink = record { original = original; reversal = reversal; reason = reason }
  ok (
    l,
    record {
      by_original = insert original l g.by_original;
      reversal_keys = add reversal g.reversal_keys;
    },
  )

unfoldable pub for_original : NetworkCorrelation → ReversalRegistry → Option ReversalLink
for_original original g = lookup original g.by_original
