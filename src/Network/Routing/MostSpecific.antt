-- ===== src/Network/Routing/MostSpecific.antt =====
-- Lemmas on the choice of `route` in app/network_routing.py.
use atlas_pay.Prelude.{
  leb, if◌then◌else◌, Bool-cases, length, keep, is_empty, routing_error, ok, ◌>>◌, raise_if, ◌==◌,
  nat_eq, text_eq, ℕ, suc, ◌+◌, ◌≤◌, ◌<◌, ◌≡◌, refl, ◌↔◌, inl, inr, Bool, true, false, ◌&&◌, List,
  [], ◌∷◌, arith,
}
use atlas_pay.Canonical.{correlation_eq, AuthorizationRequest}
use atlas_pay.Network.Routing.{
  IssuerRoute, is_eligible, longest_prefix, only_route, most_specific, route,
}

-- How often a list holds a route that passes a test.
abbrev pub count : (IssuerRoute → Bool) → List IssuerRoute → ℕ
count p [] = 0
count p (x ∷ xs) = (if p x then 1 else 0) + count p xs

-- A route that is eligible and at least as long as `n`.
abbrev pub rivals : AuthorizationRequest → ℕ → IssuerRoute → Bool
rivals request n r = is_eligible request r && leb n (length r.pan_prefix)

-- Where the one route of the answer stands among the routes.
pub data Picks (request : AuthorizationRequest) (r : IssuerRoute) : List IssuerRoute → Type 0 where
  here :
      {routes : List IssuerRoute}
      → is_eligible request r ≡ true
      → count (rivals request (length r.pan_prefix)) routes ≡ 0
      → Picks request r (r ∷ routes)
  there :
      {x : IssuerRoute} {routes : List IssuerRoute}
      → rivals request (length r.pan_prefix) x ≡ false
      → Picks request r routes
      → Picks request r (x ∷ routes)

module _ (request : AuthorizationRequest) where
  -- Every eligible route is at most as long as the longest prefix.
  longest_bound :
      (routes : List IssuerRoute) (n : ℕ)
      → longest_prefix (keep (is_eligible request) routes) < n
      → count (rivals request n) routes ≡ 0
  unfolding longest_prefix
  longest_bound [] n h = refl
  longest_bound (x ∷ routes) n h = ground (arith, longest_bound routes n)

  -- No rival of `n`: what is eligible is shorter.
  longest-le :
      (routes : List IssuerRoute) (n : ℕ)
      → count (rivals request n) routes ≡ 0
      → longest_prefix (keep (is_eligible request) routes) ≤ n
  unfolding longest_prefix
  longest-le [] n h = omega arith
  longest-le (x ∷ routes) n h = ground (arith, longest-le routes n)

  -- The routes of the longest prefix among the eligible ones, in one pass.
  abbrev exact : ℕ → IssuerRoute → Bool
  exact n r = length r.pan_prefix == n

  no_exact :
      (routes : List IssuerRoute) (n : ℕ)
      → count (rivals request n) routes ≡ 0
      → keep (exact n) (keep (is_eligible request) routes) ≡ []
  no_exact [] n h = refl
  no_exact (x ∷ routes) n h = ground (arith, no_exact routes n)

  no_rival :
      (routes : List IssuerRoute) (n : ℕ)
      → count (rivals request (suc n)) routes ≡ 0
      → keep (exact n) (keep (is_eligible request) routes) ≡ []
      → count (rivals request n) routes ≡ 0
  no_rival [] n h k = refl
  no_rival (x ∷ routes) n h k = ground (arith, no_rival routes n)

  length-exact :
      (matches : List IssuerRoute) (n : ℕ) (r : IssuerRoute)
      → keep (exact n) matches ≡ r ∷ []
      → length r.pan_prefix ≡ n
  length-exact [] n r h = absurd (ground arith)
  length-exact (x ∷ matches) n r h = ground (arith, length-exact matches n r)

  Picks-from :
      (routes : List IssuerRoute) (n : ℕ) (r : IssuerRoute)
      → count (rivals request (suc n)) routes ≡ 0
      → keep (exact n) (keep (is_eligible request) routes) ≡ r ∷ []
      → Picks request r routes
  Picks-from [] n r h k = absurd (ground arith)
  Picks-from (x ∷ routes) n r h k = elim (Bool-cases (is_eligible request x)) [
    | inr e ↦
        there (ground (arith, e)) (Picks-from routes n r (ground (arith, e)) (ground (arith, e)))
    | inl e ↦ elim (Bool-cases (exact n x)) [
      | inl f ↦
          let same : x ≡ r = ground (arith, e, f) in
          let size : length x.pan_prefix ≡ n = ground (arith, f) in
          rw (← same)
            (here e (rw size (no_rival routes n (ground (arith, e)) (ground (arith, e, f)))))
      | inr f ↦
          let rest = Picks-from routes n r (ground (arith, e)) (ground (arith, e, f)) in
          there
            (ground (
              arith,
              e,
              f,
              length-exact (keep (is_eligible request) routes) n r (ground (arith, e, f)),
            ))
            rest
    ]
  ]

  only-ok :
      (matches : List IssuerRoute) (r : IssuerRoute) → only_route matches ≡ ok r → matches ≡ r ∷ []
  unfolding only_route
  only-ok [] r h = absurd (ground arith)
  only-ok (x ∷ []) r h = ground arith
  only-ok (x ∷ y ∷ rest) r h = absurd (ground arith)

  chosen_of :
      (matches : List IssuerRoute) (r : IssuerRoute)
      → (raise_if (is_empty matches) routing_error >> only_route (most_specific matches)) ≡ ok r
      → only_route (keep (exact (longest_prefix matches)) matches) ≡ ok r
  unfolding most_specific
  chosen_of [] r h = absurd (ground arith)
  chosen_of (x ∷ matches) r h = h

  chosen_back :
      (matches : List IssuerRoute) (n : ℕ) (r : IssuerRoute)
      → keep (exact n) matches ≡ r ∷ []
      → (raise_if (is_empty matches) routing_error >> only_route (keep (exact n) matches)) ≡ ok r
  unfolding only_route
  chosen_back [] n r h = absurd (ground arith)
  chosen_back (x ∷ matches) n r h = rw h refl

  picked :
      (r : IssuerRoute) {routes : List IssuerRoute}
      → Picks request r routes
      → (longest_prefix (keep (is_eligible request) routes) ≡ length r.pan_prefix)
        × (keep (exact (length r.pan_prefix)) (keep (is_eligible request) routes) ≡ r ∷ [])
  unfolding longest_prefix
  picked r (here {routes} e free) = ground (
    arith,
    e,
    longest-le routes (length r.pan_prefix) free,
    no_exact routes (length r.pan_prefix) free,
  )
  picked r (there {x} {routes} e rest) = ground (arith, e, picked r rest)

-- The router answers with a route exactly if that route is eligible and stands among the routes
-- with no rival before or behind it: no other entry is eligible with a prefix as long.
pub route-Picks :
    (routes : List IssuerRoute) (request : AuthorizationRequest) (r : IssuerRoute)
    → (route routes request ≡ ok r) ↔ Picks request r routes
unfolding route most_specific
route-Picks routes request r = (
  λ h.
      let matches = keep (is_eligible request) routes in
      let chosen : only_route (keep (exact request (longest_prefix matches)) matches) ≡ ok r =
        chosen_of request matches r h in
      Picks-from request routes (longest_prefix matches) r
        (longest_bound request routes (suc (longest_prefix matches)) (omega arith))
        (only-ok request (keep (exact request (longest_prefix matches)) matches) r chosen),
  λ p.
      let (longest, kept) = picked request r p in
      rw longest
        (chosen_back request (keep (is_eligible request) routes) (length r.pan_prefix) r kept),
)
