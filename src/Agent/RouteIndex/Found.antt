-- ===== src/Agent/RouteIndex/Found.antt =====
-- internal/agent/cache/route_index.go: a route is found if there is one.
use vaala_ai_gateway.Prelude.{
  ℕ, ◌≡◌, refl, Bool, false, ◌||◌, String, str_eq, List, [], ◌∷◌, Option, none, some, arith, All,
  Bool-cases, inl, inr,
}
use vaala_ai_gateway.Agent.RouteIndex.{
  AgentRoute, Routes, RouteIndex, routes_of, is_exact, is_default, find_route, or_else,
  find_in_channels, match_route,
}

find_route-none :
    (p : AgentRoute → Bool) (l : List AgentRoute) → find_route p l ≡ none → All (λ r. p r ≡ false) l
unfolding find_route
find_route-none p [] h = tt
find_route-none p (r ∷ rs) h = elim (Bool-cases (p r)) [
  | inl e ↦ absurd (let k = rw e at h in cc)
  | inr e ↦ (e, find_route-none p rs (rw e at h))
]

or_else-none : (a b : Option AgentRoute) → or_else a b ≡ none → (a ≡ none) × (b ≡ none)
or_else-none none b h = (refl, h)
or_else-none (some r) b h = absurd (cc)

find_in_channels-none :
    (p : AgentRoute → Bool) (index : Routes) (ids : List ℕ)
    → find_in_channels p index ids ≡ none
    → All (λ id. All (λ r. p r ≡ false) (routes_of index id)) ids
unfolding find_in_channels
find_in_channels-none p index [] h = tt
find_in_channels-none p index (id ∷ ids) h =
    let (a, b) = or_else-none _ _ h in (find_route-none p _ a, find_in_channels-none p index ids b)

-- A route applies to its own model, or to all models if it names none.
abbrev pub applies : String → AgentRoute → Bool
applies model r = str_eq r.model "" || str_eq r.model model

applies-none :
    (model : String) (l : List AgentRoute)
    → All (λ r. is_exact model r ≡ false) l
    → All (λ r. is_default r ≡ false) l
    → All (λ r. applies model r ≡ false) l
applies-none model [] h k = tt
applies-none model (r ∷ rs) h k = (ground (arith, h.0, k.0), applies-none model rs h.1 k.1)

applies-none_channels :
    (model : String) (index : Routes) (ids : List ℕ)
    → All (λ id. All (λ r. is_exact model r ≡ false) (routes_of index id)) ids
    → All (λ id. All (λ r. is_default r ≡ false) (routes_of index id)) ids
    → All (λ id. All (λ r. applies model r ≡ false) (routes_of index id)) ids
applies-none_channels model index [] h k = tt
applies-none_channels model index (id ∷ ids) h k =
    (applies-none model _ h.0 k.0, applies-none_channels model index ids h.1 k.1)

-- Where no route is found, no route of the token and no route of any of the channels applies to the
-- model.
pub match_route-none :
    (index : RouteIndex) (token_id : ℕ) (model : String) (channel_ids : List ℕ)
    → match_route index token_id model channel_ids ≡ none
    → All (λ r. applies model r ≡ false) (routes_of index.by_token token_id)
      × All (λ id. All (λ r. applies model r ≡ false) (routes_of index.by_channel id)) channel_ids
unfolding match_route
match_route-none index token_id model channel_ids h =
    let (a, h1) = or_else-none _ _ h in
    let (b, h2) = or_else-none _ _ h1 in
    let (c, d) = or_else-none _ _ h2 in
    (
      applies-none model _ (find_route-none _ _ a) (find_route-none _ _ b),
      applies-none_channels model index.by_channel channel_ids
          (find_in_channels-none _ _ channel_ids c) (find_in_channels-none _ _ channel_ids d),
    )
