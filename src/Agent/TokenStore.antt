-- ===== src/Agent/TokenStore.antt =====
-- internal/agent/cache/store_token.go: the tokens by key and by identifier. The primary store is the
-- cache of `EntityCache`, whose `OnEvict` deletes from `by_id`.
pub mod Links
pub mod Loads
pub mod Linked
pub mod Reached
pub mod Interleaved
use vaala_ai_gateway.Prelude.{ℕ, String, List, Option, none, some, ◌⊎◌, inl, inr}
use vaala_ai_gateway.Utils.SyncMap
use vaala_ai_gateway.Agent.RouteIndex.{number_comparable}
use vaala_ai_gateway.Master.Heartbeat.{string_comparable}
use vaala_ai_gateway.Agent.EntityCache
use vaala_ai_gateway.Agent.EntityCache.{
  Lru, Slot, LruCache, Loaded, Found, hit, miss, error, Action, action_set, action_delete, add_slot,
  peek_value, get, delete_key, present,
}

-- `Rest` stands for the other columns of `models.Token`.
pub record Token (Rest : Type 0) : Type 0 where
  pub id : ℕ
  pub key : String
  pub rest : Rest

pub record TokenStore (S : Type 0) : Type 0 where
  pub primary : LruCache S
  pub by_id : List (ℕ × String)

module _ {Rest : Type 0} (lru : Lru String (Slot (Token Rest))) (negative_ttl : ℕ) where
  abbrev pub Store : Type 0
  Store = TokenStore lru.State

  -- `OnEvict` of `newTokenStoreLRU`
  abbrev pub forget_evicted : Option (Token Rest) → List (ℕ × String) → List (ℕ × String)
  unfolding SyncMap.delete
  forget_evicted none by_id = by_id
  forget_evicted (some tok) by_id = SyncMap.delete by_id tok.id

  abbrev pub with_primary : Store → LruCache lru.State × Option (Token Rest) → Store
  unfolding SyncMap.delete
  with_primary s (primary, evicted) = record {
    primary = primary;
    by_id = forget_evicted evicted s.by_id;
  }

  unfoldable pub set_token : Store → Token Rest → Store
  unfolding SyncMap.delete SyncMap.put add_slot
  set_token s t =
      let s' = with_primary s (add_slot lru negative_ttl s.primary t.key (present t)) in
      record s' { by_id = SyncMap.put s'.by_id t.id t.key }

  unfoldable pub delete_token : Store → String → Store
  unfolding SyncMap.delete peek_value delete_key
  delete_token s key =
      let by_id = forget_evicted (peek_value lru negative_ttl s.primary key) s.by_id in
      with_primary (record s { by_id = by_id }) (delete_key lru negative_ttl s.primary key)

  abbrev pub delete_found : Store → ℕ → Option String → Store
  unfolding SyncMap.delete delete_key
  delete_found s id none = s
  delete_found s id (some key) =
      let s' = with_primary s (delete_key lru negative_ttl s.primary key) in
      record s' { by_id = SyncMap.delete s'.by_id id }

  unfoldable pub delete_by_id : Store → ℕ → Store
  unfolding SyncMap.delete SyncMap.load delete_key
  delete_by_id s id = delete_found s id (SyncMap.load s.by_id id)

  unfoldable pub get_token :
      ℕ → Option (Loaded (Token Rest)) → Store → String → Store × Found (Token Rest)
  unfolding get SyncMap.delete
  get_token now loader s key =
      let (changed, found) = get lru negative_ttl now loader s.primary key in
      (with_primary s changed, found)

  -- `fetched` is what `LoadByID` gives, if there is a fetcher.
  abbrev pub fallback_by_id :
      Option (String ⊎ Option (Token Rest)) → Store → Store × Found (Token Rest)
  unfolding set_token
  fallback_by_id none s = (s, miss)
  fallback_by_id (some (inl message)) s = (s, error message)
  fallback_by_id (some (inr none)) s = (s, miss)
  fallback_by_id (some (inr (some tok))) s = (set_token s tok, hit tok)

  abbrev pub after_get :
      Option (String ⊎ Option (Token Rest))
      → ℕ
      → Store × Found (Token Rest)
      → Store × Found (Token Rest)
  unfolding set_token SyncMap.delete
  after_get fetched id (s, hit tok) = (s, hit tok)
  after_get fetched id (s, error message) = (s, error message)
  after_get fetched id (s, miss) =
      fallback_by_id fetched (record s { by_id = SyncMap.delete s.by_id id })

  abbrev pub get_found :
      ℕ
      → Option (Loaded (Token Rest))
      → Option (String ⊎ Option (Token Rest))
      → Store
      → ℕ
      → Option String
      → Store × Found (Token Rest)
  unfolding get_token set_token SyncMap.delete
  get_found now loader fetched s id none = fallback_by_id fetched s
  get_found now loader fetched s id (some key) = after_get fetched id (get_token now loader s key)

  unfoldable pub get_by_id :
      ℕ
      → Option (Loaded (Token Rest))
      → Option (String ⊎ Option (Token Rest))
      → Store
      → ℕ
      → Store × Found (Token Rest)
  unfolding get_token set_token SyncMap.delete SyncMap.load
  get_by_id now loader fetched s id = get_found now loader fetched s id (SyncMap.load s.by_id id)

  unfoldable pub apply_push : Action → Store → Token Rest → Store
  unfolding EntityCache.apply SyncMap.delete
  apply_push action_set s t =
      with_primary s (EntityCache.apply lru negative_ttl action_set s.primary t.key t)
  apply_push action_delete s t =
      let s' =
        with_primary s (EntityCache.apply lru negative_ttl action_delete s.primary t.key t) in
      record s' { by_id = SyncMap.delete s'.by_id t.id }
