-- ===== src/Agent/RouteIndex.antt =====
-- internal/agent/cache/route_index.go: which agent route takes a request.
pub mod Found
pub mod Rebuild
pub mod Priority
pub mod Grouped
pub mod Indexed
pub mod History
use vaala_ai_gateway.Prelude.{
  ℕ, ℤ, Bool, true, false, not, ◌&&◌, String, str_eq, List, [], ◌∷◌, Option, none, some,
  if◌then◌else◌, ◌==◌, ==_iff,
}
use vaala_ai_gateway.Utils.SyncMap
use vaala_ai_gateway.Utils.SyncMap.{Comparable}

pub record AgentRoute : Type 0 where
  pub id : ℕ
  pub source_type : String
  pub source_id : ℕ
  pub model : String
  pub priority : ℤ

instance abbrev pub number_comparable : Comparable ℕ
number_comparable = record { eqb = λ a b. a == b; eqb_iff = ==_iff }

abbrev pub Routes : Type 0
Routes = List (ℕ × List AgentRoute)

pub record RouteIndex : Type 0 where
  pub routes : List (ℕ × AgentRoute)
  pub by_token : Routes
  pub by_channel : Routes

abbrev pub or_nothing : Option (List AgentRoute) → List AgentRoute
or_nothing none = []
or_nothing (some routes) = routes

-- A key that is missing has no routes.
unfoldable pub routes_of : Routes → ℕ → List AgentRoute
unfolding SyncMap.load
routes_of index key = or_nothing (SyncMap.load index key)

abbrev pub is_exact : String → AgentRoute → Bool
is_exact model r = not (str_eq r.model "") && str_eq r.model model

abbrev pub is_default : AgentRoute → Bool
is_default r = str_eq r.model ""

unfoldable pub find_route : (AgentRoute → Bool) → List AgentRoute → Option AgentRoute
find_route p [] = none
find_route p (r ∷ rs) = if p r then some r else find_route p rs

abbrev pub or_else : Option AgentRoute → Option AgentRoute → Option AgentRoute
or_else none later = later
or_else (some r) later = some r

unfoldable pub find_in_channels : (AgentRoute → Bool) → Routes → List ℕ → Option AgentRoute
unfolding find_route routes_of
find_in_channels p index [] = none
find_in_channels p index (id ∷ ids) =
    or_else (find_route p (routes_of index id)) (find_in_channels p index ids)

-- The token's route of the model, the token's default, a channel's route of the model, a channel's
-- default.
unfoldable pub match_route : RouteIndex → ℕ → String → List ℕ → Option AgentRoute
unfolding find_in_channels
match_route index token_id model channel_ids =
    or_else (find_route (is_exact model) (routes_of index.by_token token_id)) (
      or_else (find_route is_default (routes_of index.by_token token_id)) (
        or_else (find_in_channels (is_exact model) index.by_channel channel_ids)
          (find_in_channels is_default index.by_channel channel_ids)))
