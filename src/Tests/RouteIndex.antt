-- ===== src/Tests/RouteIndex.antt =====
-- internal/agent/cache/route_index.go after two changes, a removal and one more change.
use vaala_ai_gateway.Prelude.{ℕ, ◌≡◌, refl, List, [], ◌∷◌, pos}
use vaala_ai_gateway.Agent.RouteIndex.{AgentRoute, routes_of}
use vaala_ai_gateway.Agent.RouteIndex.Rebuild.{load_routes, put_route, delete_route}
use vaala_ai_gateway.Agent.RouteIndex.History.{
  Update, loaded, changed, removed, after, Serves, after-Serves,
}

abbrev route : ℕ → ℕ → AgentRoute
route id priority = record {
  id = id;
  source_type = "token";
  source_id = 5;
  model = "";
  priority = pos priority;
}

abbrev three_updates : List Update
three_updates = changed (route 3 9) ∷ removed 2 ∷ loaded (route 1 4 ∷ route 2 8 ∷ []) ∷ []

after-Serves_example :
    Serves "token" 5 three_updates (routes_of (after three_updates).by_token 5)
    × Serves "channel" 5 three_updates (routes_of (after three_updates).by_channel 5)
after-Serves_example = after-Serves three_updates 5

higher_first : routes_of (after three_updates).by_token 5 ≡ route 3 9 ∷ route 1 4 ∷ []
unfolding routes_of load_routes put_route delete_route
higher_first = refl
