-- ===== src/Agent/RouteIndex/Rebuild.antt =====
-- internal/agent/cache/route_index.go: `Load`, `Put`, `Delete`, and the rebuilding of the indexes
-- behind each. A `range` over a map takes the entries in the order of the model's list.
use vaala_ai_gateway.Prelude.{
  ℕ, zero, suc, Bool, true, String, str_eq, List, [], ◌∷◌, ◌++◌, map, ltb_ℤ, length, if◌then◌else◌,
}
use vaala_ai_gateway.Utils.SyncMap
use vaala_ai_gateway.Utils.SyncMap.{keys}
use vaala_ai_gateway.Agent.RouteIndex.{AgentRoute, Routes, RouteIndex, routes_of, number_comparable}

-- `routes[j].Priority > routes[i].Priority`, for `a` at `j` and `b` at `i`.
abbrev pub is_higher : AgentRoute → AgentRoute → Bool
is_higher a b = ltb_ℤ b.priority a.priority

-- The inner loop, with `x` at `i`: what is at `i` afterwards, and what is behind it.
unfoldable pub exchange : AgentRoute → List AgentRoute → AgentRoute × List AgentRoute
exchange x [] = (x, [])
exchange x (y ∷ ys) =
    let (best, rest) = exchange (if is_higher y x then y else x) ys in
    (best, (if is_higher y x then x else y) ∷ rest)

-- The outer loop, with the rounds that are left.
unfoldable pub exchange_rounds : ℕ → List AgentRoute → List AgentRoute
unfolding exchange
exchange_rounds zero l = l
exchange_rounds (suc n) [] = []
exchange_rounds (suc n) (x ∷ xs) = let (best, rest) = exchange x xs in best ∷ exchange_rounds n rest

unfoldable pub sort_routes_by_priority : List AgentRoute → List AgentRoute
unfolding exchange_rounds
sort_routes_by_priority l = exchange_rounds (length l) l

-- `idx[r.SourceID] = append(idx[r.SourceID], r)`
abbrev pub append_route : Routes → AgentRoute → Routes
unfolding SyncMap.put routes_of
append_route index r = SyncMap.put index r.source_id (routes_of index r.source_id ++ r ∷ [])

-- The index of the routes whose source is of the kind.
unfoldable pub group_routes : String → List AgentRoute → Routes → Routes
unfolding SyncMap.put routes_of
group_routes kind [] index = index
group_routes kind (r ∷ rs) index =
    group_routes kind rs (if str_eq r.source_type kind then append_route index r else index)

-- A `Range` that deletes every key.
unfoldable pub clear : {V : Type 0} → List (ℕ × V) → List (ℕ × V)
unfolding SyncMap.sweep
clear m = SyncMap.sweep (λ v. true) (keys m) m

unfoldable pub store_sorted : Routes → Routes → Routes
unfolding sort_routes_by_priority SyncMap.put
store_sorted [] index = index
store_sorted ((id, routes) ∷ groups) index =
    store_sorted groups (SyncMap.put index id (sort_routes_by_priority routes))

abbrev pub values : List (ℕ × AgentRoute) → List AgentRoute
values m = map (λ entry. entry.1) m

unfoldable pub rebuild_index : RouteIndex → RouteIndex
unfolding group_routes clear store_sorted
rebuild_index ri = record ri {
  by_token = store_sorted (group_routes "token" (values ri.routes) []) (clear ri.by_token);
  by_channel = store_sorted (group_routes "channel" (values ri.routes) []) (clear ri.by_channel);
}

unfoldable pub store_routes : List AgentRoute → List (ℕ × AgentRoute) → List (ℕ × AgentRoute)
unfolding SyncMap.put
store_routes [] m = m
store_routes (r ∷ rs) m = store_routes rs (SyncMap.put m r.id r)

unfoldable pub load_routes : List AgentRoute → RouteIndex → RouteIndex
unfolding clear store_routes rebuild_index
load_routes routes ri = rebuild_index (record {
  routes = store_routes routes (clear ri.routes);
  by_token = clear ri.by_token;
  by_channel = clear ri.by_channel;
})

unfoldable pub put_route : AgentRoute → RouteIndex → RouteIndex
unfolding SyncMap.put rebuild_index
put_route route ri = rebuild_index (record ri { routes = SyncMap.put ri.routes route.id route })

unfoldable pub delete_route : ℕ → RouteIndex → RouteIndex
unfolding SyncMap.delete rebuild_index
delete_route id ri = rebuild_index (record ri { routes = SyncMap.delete ri.routes id })
