-- ===== src/Agent/RouteIndex/History.antt =====
-- internal/agent/cache/route_index.go: the indexes after any sequence of `Load`, `Put` and `Delete`.
use vaala_ai_gateway.Prelude.{
  ℕ, ◌≡◌, refl, sym, ap, ◌∙◌, ◌↔◌, true, String, List, [], ◌∷◌, Option, none, some, ◌==◌, IsIn,
  if◌then◌else◌,
}
use vaala_ai_gateway.Prelude.Sort.{IsOrdered}
use vaala_ai_gateway.Utils.SyncMap.{load, put, keys, load-put, load-delete}
use vaala_ai_gateway.Agent.RouteIndex.{AgentRoute, RouteIndex, routes_of, number_comparable}
use vaala_ai_gateway.Agent.RouteIndex.Rebuild.{
  is_higher, clear, store_routes, rebuild_index, load_routes, put_route, delete_route,
}
use vaala_ai_gateway.Agent.RouteIndex.Grouped.{is_from, load-clear}
use vaala_ai_gateway.Agent.RouteIndex.Indexed.{
  IsRouteMap, put-IsRouteMap, delete-IsRouteMap, sweep-IsRouteMap, store_routes-IsRouteMap, Lists,
  rebuild_index-Lists,
}

pub data Update : Type 0 where
  loaded : List AgentRoute → Update
  changed : AgentRoute → Update
  removed : ℕ → Update

abbrev pub apply : Update → RouteIndex → RouteIndex
apply (loaded routes) ri = load_routes routes ri
apply (changed route) ri = put_route route ri
apply (removed id) ri = delete_route id ri

-- The index after the updates, the latest of which comes first.
abbrev pub after : List Update → RouteIndex
after [] = record { routes = []; by_token = []; by_channel = [] }
after (u ∷ history) = apply u (after history)

abbrev pub last_with : ℕ → List AgentRoute → Option AgentRoute → Option AgentRoute
last_with id [] found = found
last_with id (r ∷ rs) found = last_with id rs (if r.id == id then some r else found)

-- The route of an identifier, as the history has it.
abbrev pub current : List Update → ℕ → Option AgentRoute
current [] id = none
current (loaded routes ∷ history) id = last_with id routes none
current (changed route ∷ history) id = if route.id == id then some route else current history id
current (removed j ∷ history) id = if j == id then none else current history id

load-store_routes :
    (rs : List AgentRoute) (m : List (ℕ × AgentRoute)) (id : ℕ)
    → load (store_routes rs m) id ≡ last_with id rs (load m id)
unfolding store_routes
load-store_routes [] m id = refl
load-store_routes (r ∷ rs) m id =
    load-store_routes rs (put m r.id r) id ∙ ap (last_with id rs) (load-put m r.id id r)

load-after : (history : List Update) (id : ℕ) → load (after history).routes id ≡ current history id
unfolding load load_routes put_route delete_route rebuild_index
load-after [] id = refl
load-after (loaded routes ∷ history) id =
    load-store_routes routes (clear (after history).routes) id
    ∙ ap (last_with id routes) (load-clear (after history).routes id)
load-after (changed route ∷ history) id =
    load-put (after history).routes route.id id route
    ∙ ap (λ o. if route.id == id then some route else o) (load-after history id)
load-after (removed j ∷ history) id =
    load-delete (after history).routes j id
    ∙ ap (λ o. if j == id then none else o) (load-after history id)

after-IsRouteMap : (history : List Update) → IsRouteMap (after history).routes
unfolding load_routes put_route delete_route rebuild_index clear
after-IsRouteMap [] = tt
after-IsRouteMap (loaded routes ∷ history) =
    store_routes-IsRouteMap routes (clear (after history).routes) (
      sweep-IsRouteMap (keys (after history).routes) (after history).routes
        (after-IsRouteMap history))
after-IsRouteMap (changed route ∷ history) =
    put-IsRouteMap (after history).routes route (after-IsRouteMap history)
after-IsRouteMap (removed j ∷ history) =
    delete-IsRouteMap (after history).routes j (after-IsRouteMap history)

after-Lists :
    (history : List Update) (id : ℕ)
    → Lists "token" id (after history).routes (routes_of (after history).by_token id)
      × Lists "channel" id (after history).routes (routes_of (after history).by_channel id)
unfolding load_routes put_route delete_route rebuild_index routes_of load
after-Lists [] id = (
  (λ r. (λ i. elim i [ ], λ h. absurd (cc h.0)), tt),
  (λ r. (λ i. elim i [ ], λ h. absurd (cc h.0)), tt),
)
after-Lists (loaded routes ∷ history) id =
    rebuild_index-Lists
      (record {
        routes = (after (loaded routes ∷ history)).routes;
        by_token = clear (after history).by_token;
        by_channel = clear (after history).by_channel;
      })
      id (after-IsRouteMap (loaded routes ∷ history))
after-Lists (changed route ∷ history) id =
    rebuild_index-Lists
      (record (after history) { routes = (after (changed route ∷ history)).routes }) id
      (after-IsRouteMap (changed route ∷ history))
after-Lists (removed j ∷ history) id =
    rebuild_index-Lists (record (after history) { routes = (after (removed j ∷ history)).routes })
      id (after-IsRouteMap (removed j ∷ history))

-- The list holds the current routes of the source and no other, none behind one of lower priority.
abbrev pub Serves : String → ℕ → List Update → List AgentRoute → Type 0
Serves kind id history l =
    ((r : AgentRoute) → IsIn r l ↔ ((current history r.id ≡ some r) × (is_from kind id r ≡ true)))
    × IsOrdered is_higher l

Serves-of_Lists :
    (kind : String) (id : ℕ) (history : List Update) (l : List AgentRoute)
    → Lists kind id (after history).routes l
    → Serves kind id history l
Serves-of_Lists kind id history l (members, ordered) = (
  λ r. (
    λ i. let (at, from) = (members r).0 i in (sym (load-after history r.id) ∙ at, from),
    λ (at, from). (members r).1 (load-after history r.id ∙ at, from),
  ),
  ordered,
)

-- After any sequence of loads, changes and removals, the routes that are indexed for a token, and
-- for a channel, are those of that source which the history leaves, by descending priority.
pub after-Serves :
    (history : List Update) (id : ℕ)
    → Serves "token" id history (routes_of (after history).by_token id)
      × Serves "channel" id history (routes_of (after history).by_channel id)
after-Serves history id =
    let (token, channel) = after-Lists history id in
    (
      Serves-of_Lists "token" id history (routes_of (after history).by_token id) token,
      Serves-of_Lists "channel" id history (routes_of (after history).by_channel id) channel,
    )
