-- ===== src/Agent/EntityCache.antt =====
-- internal/agent/cache/entitycache/lru.go: a bounded cache with a loader and entries for keys that
-- are known to be missing. The `lru.Cache` of hashicorp/golang-lru is a parameter.
use vaala_ai_gateway.Prelude.{
  ℕ, ◌+◌, ◌≡◌, ◌⊎◌, false, String, Option, none, some, ltb, leb, if◌then◌else◌,
}
use vaala_ai_gateway.Utils.SyncMap.{Comparable}

-- What golang-lru documents: `Add` and `Remove` hand the entry that leaves to the callback, which is
-- returned here. An `Add` at a key that is there replaces its value.
pub record Lru (K V : Type 0) ⦃e : Comparable K⦄ : Type 1 where
  pub State : Type 0
  pub peek : State → K → Option V
  pub refresh : State → K → State
  pub add : State → K → V → State × Option (K × V)
  pub remove : State → K → State × Option (K × V)
  pub refresh_lem : (s : State) (k j : K) → peek (refresh s k) j ≡ peek s j
  pub add-self : (s : State) (k : K) (v : V) → peek (add s k v).0 k ≡ some v
  pub add-other :
      (s : State) (k j : K) (v w : V)
      → e.eqb k j ≡ false
      → peek s j ≡ some w
      → (peek (add s k v).0 j ≡ some w) ⊎ ((add s k v).1 ≡ some (j, w))
  -- Nothing comes to a key but by an `Add` of that key.
  pub add-from :
      (s : State) (k j : K) (v w : V)
      → e.eqb k j ≡ false
      → peek (add s k v).0 j ≡ some w
      → peek s j ≡ some w
  pub remove-from :
      (s : State) (k j : K) (w : V) → peek (remove s k).0 j ≡ some w → peek s j ≡ some w
  pub remove-other : (s : State) (k j : K) → e.eqb k j ≡ false → peek (remove s k).0 j ≡ peek s j
  pub remove-self : (s : State) (k : K) (v : V) → peek s k ≡ some v → (remove s k).1 ≡ some (k, v)

-- `entry`: a value, or that the key is missing until a moment.
pub data Slot (V : Type 0) : Type 0 where
  present : V → Slot V
  missing : ℕ → Slot V

pub record LruCache (S : Type 0) : Type 0 where
  pub cache : S
  pub hits : ℕ
  pub misses : ℕ
  pub evictions : ℕ
  pub negative_hits : ℕ
  pub load_errors : ℕ
  pub invalidations : ℕ

-- What `Loader.Load` returns.
pub data Loaded (V : Type 0) : Type 0 where
  value : V → Loaded V
  not_found : Loaded V
  failed : String → Loaded V

-- What `Get` returns: `(v, true, nil)`, `(zero, false, nil)`, `(zero, false, err)`.
pub data Found (V : Type 0) : Type 0 where
  hit : V → Found V
  miss : Found V
  error : String → Found V

abbrev pub err_not_found : String
err_not_found = "entity not found"

pub data Action : Type 0 where
  action_set : Action
  action_delete : Action

module _ {K V : Type 0} ⦃e : Comparable K⦄ (lru : Lru K (Slot V)) (negative_ttl : ℕ) where
  -- The cache, and the value that goes to `OnEvict`.
  abbrev pub Changed : Type 0
  Changed = LruCache lru.State × Option V

  -- The callback of the constructor: an entry for a missing key is not handed on.
  abbrev pub on_evict : Option (K × Slot V) → Option V
  on_evict none = none
  on_evict (some (k, present v)) = some v
  on_evict (some (k, missing until)) = none

  abbrev pub bump_if : Option (K × Slot V) → ℕ → ℕ
  bump_if none n = n
  bump_if (some entry) n = n + 1

  -- `cache.Add`, which says whether an entry was evicted.
  unfoldable pub add_slot : LruCache lru.State → K → Slot V → Changed
  add_slot c k s =
      let (cache, evicted) = lru.add c.cache k s in
      (record c { cache = cache; evictions = bump_if evicted c.evictions }, on_evict evicted)

  abbrev pub value_of : Option (Slot V) → Option V
  value_of none = none
  value_of (some (present v)) = some v
  value_of (some (missing until)) = none

  unfoldable pub peek_value : LruCache lru.State → K → Option V
  peek_value c k = value_of (lru.peek c.cache k)

  unfoldable pub store_negative : ℕ → LruCache lru.State → K → Changed
  unfolding add_slot
  store_negative now c k =
      if ltb 0 negative_ttl then add_slot c k (missing (now + negative_ttl)) else (c, none)

  abbrev pub store_loaded : ℕ → LruCache lru.State → K → Loaded V → Changed × Found V
  unfolding add_slot store_negative
  store_loaded now c k (value v) = (add_slot c k (present v), hit v)
  store_loaded now c k not_found = (store_negative now c k, error err_not_found)
  store_loaded now c k (failed message) =
      ((record c { load_errors = c.load_errors + 1 }, none), error message)

  -- Behind a miss. `loader` is what a load of the key gives, if there is a loader.
  unfoldable pub load_missing : ℕ → Option (Loaded V) → LruCache lru.State → K → Changed × Found V
  unfolding add_slot store_negative
  load_missing now none c k = ((record c { misses = c.misses + 1 }, none), miss)
  load_missing now (some loaded) c k =
      store_loaded now (record c { misses = c.misses + 1 }) k loaded

  abbrev pub get_slot :
      ℕ → Option (Loaded V) → LruCache lru.State → K → Option (Slot V) → Changed × Found V
  unfolding load_missing
  get_slot now loader c k none = load_missing now loader c k
  get_slot now loader c k (some (present v)) =
      ((record c { cache = lru.refresh c.cache k; hits = c.hits + 1 }, none), hit v)
  get_slot now loader c k (some (missing until)) =
      if leb until now
      then load_missing now loader (record c { cache = (lru.remove (lru.refresh c.cache k) k).0 }) k
      else (
        (record c { cache = lru.refresh c.cache k; negative_hits = c.negative_hits + 1 }, none),
        error err_not_found,
      )

  unfoldable pub get : ℕ → Option (Loaded V) → LruCache lru.State → K → Changed × Found V
  unfolding load_missing
  get now loader c k = get_slot now loader c k (lru.peek c.cache k)

  unfoldable pub delete_key : LruCache lru.State → K → Changed
  delete_key c k =
      let (cache, evicted) = lru.remove c.cache k in
      (record c { cache = cache; invalidations = c.invalidations + 1 }, on_evict evicted)

  abbrev pub set_there : LruCache lru.State → K → V → Option (Slot V) → Changed
  unfolding add_slot
  set_there c k v none = (c, none)
  set_there c k v (some s) = add_slot c k (present v)

  -- `Apply`: a value is written only at a key that is there.
  unfoldable pub apply : Action → LruCache lru.State → K → V → Changed
  unfolding add_slot delete_key
  apply action_set c k v = set_there c k v (lru.peek c.cache k)
  apply action_delete c k v = delete_key c k
