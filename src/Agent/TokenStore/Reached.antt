-- ===== src/Agent/TokenStore/Reached.antt =====
-- internal/agent/cache/store_token.go: any sequence of operations on the token store, each
-- of which ends before the next one starts.
use vaala_ai_gateway.Prelude.{ℕ, ◌≡◌, ◌⊎◌, String, [], Option, some}
use vaala_ai_gateway.Utils.SyncMap.{load, delete}
use vaala_ai_gateway.Agent.RouteIndex.{number_comparable}
use vaala_ai_gateway.Master.Heartbeat.{string_comparable}
use vaala_ai_gateway.Agent.EntityCache.{Lru, Slot, LruCache, Loaded, hit, Action}
use vaala_ai_gateway.Agent.TokenStore.{
  Token, Store, set_token, delete_token, delete_by_id, get_token, get_by_id, apply_push,
}
use vaala_ai_gateway.Agent.TokenStore.Links.{IsLinked}
use vaala_ai_gateway.Agent.TokenStore.Loads.{get_token-IsLinked}
use vaala_ai_gateway.Agent.TokenStore.Linked.{
  Agrees, FetchAgrees, set_token-IsLinked, delete_token-IsLinked, delete_found-IsLinked,
  get_by_id-IsLinked, get_by_id_lem, apply_push-IsLinked,
}

module _ {Rest : Type 0} (lru : Lru String (Slot (Token Rest))) (negative_ttl : ℕ) where
  -- The operations, with what the loader and the fetcher answer.
  pub data Step : Store lru negative_ttl → Store lru negative_ttl → Type 0 where
    set :
        (s : Store lru negative_ttl) (t : Token Rest)
        → Agrees lru negative_ttl t s
        → Step s (set_token lru negative_ttl s t)
    deleted :
        (s : Store lru negative_ttl) (key : String) → Step s (delete_token lru negative_ttl s key)
    deleted_by_id :
        (s : Store lru negative_ttl) (id : ℕ) → Step s (delete_by_id lru negative_ttl s id)
    got :
        (s : Store lru negative_ttl) (now : ℕ) (loader : Option (Loaded (Token Rest)))
        (key : String)
        → Step s (get_token lru negative_ttl now loader s key).0
    got_by_id :
        (s : Store lru negative_ttl) (now : ℕ) (loader : Option (Loaded (Token Rest)))
        (fetched : Option (String ⊎ Option (Token Rest))) (id : ℕ)
        → FetchAgrees lru negative_ttl fetched s
        → Step s (get_by_id lru negative_ttl now loader fetched s id).0
    applied :
        (s : Store lru negative_ttl) (action : Action) (t : Token Rest)
        → Agrees lru negative_ttl t s
        → Step s (apply_push lru negative_ttl action s t)

  pub data Reachable : Store lru negative_ttl → Type 0 where
    started : (primary : LruCache lru.State) → Reachable (record { primary = primary; by_id = [] })
    stepped : (s s' : Store lru negative_ttl) → Reachable s → Step s s' → Reachable s'

  Step-IsLinked :
      (s s' : Store lru negative_ttl)
      → Step s s'
      → IsLinked lru negative_ttl s
      → IsLinked lru negative_ttl s'
  unfolding delete_by_id load delete
  Step-IsLinked _ _ (set s t a) h = set_token-IsLinked lru negative_ttl s t h a
  Step-IsLinked _ _ (deleted s key) h = delete_token-IsLinked lru negative_ttl s key h
  Step-IsLinked _ _ (deleted_by_id s id) h =
      delete_found-IsLinked lru negative_ttl s id (load s.by_id id) h
  Step-IsLinked _ _ (got s now loader key) h =
      get_token-IsLinked lru negative_ttl now loader s key h
  Step-IsLinked _ _ (got_by_id s now loader fetched id a) h =
      get_by_id-IsLinked lru negative_ttl now loader fetched s id a h
  Step-IsLinked _ _ (applied s action t a) h = apply_push-IsLinked lru negative_ttl action s t a h

  Reachable-IsLinked : (s : Store lru negative_ttl) → Reachable s → IsLinked lru negative_ttl s
  unfolding load
  Reachable-IsLinked _ (started primary) = λ id k e. absurd (cc)
  Reachable-IsLinked _ (stepped s s' before step) =
      Step-IsLinked s s' step (Reachable-IsLinked s before)

  -- Where no operation brings a token under the key of a cached token with another identifier, an
  -- identifier that the index knows leads, after any evictions, loads and pushes, to a cached token
  -- with that identifier: the search by it does what the search by the key does, and hits.
  get_by_id-Reachable :
      (s : Store lru negative_ttl) (now : ℕ) (loader : Option (Loaded (Token Rest)))
      (fetched : Option (String ⊎ Option (Token Rest))) (id : ℕ) (key : String)
      → Reachable s
      → load s.by_id id ≡ some key
      → (t : Token Rest) × (get_by_id lru negative_ttl now loader fetched s id
          ≡ get_token lru negative_ttl now loader s key)
        × ((get_token lru negative_ttl now loader s key).1 ≡ hit t)
        × (t.id ≡ id)
  get_by_id-Reachable s now loader fetched id key r e =
      get_by_id_lem lru negative_ttl now loader fetched s id key (Reachable-IsLinked s r) e
