-- ===== src/Agent/TokenStore/Loads.antt =====
-- internal/agent/cache/store_token.go: the searches by key keep the index linked to the cache.
use vaala_ai_gateway.Prelude.{
  ℕ, ◌+◌, ◌≡◌, refl, sym, ap, ◌∙◌, String, str_eq, eq_iff, List, Option, none, some, inl, inr, ltb,
  leb, Bool-cases,
}
use vaala_ai_gateway.Utils.SyncMap.{load, delete}
use vaala_ai_gateway.Agent.RouteIndex.{number_comparable}
use vaala_ai_gateway.Master.Heartbeat.{string_comparable}
use vaala_ai_gateway.Agent.EntityCache.{
  Lru, Slot, present, missing, LruCache, Loaded, value, not_found, failed, add_slot, store_negative,
  load_missing, get_slot, get,
}
use vaala_ai_gateway.Agent.TokenStore.{Token, Store, forget_evicted, get_token}
use vaala_ai_gateway.Agent.TokenStore.Links.{IsLinked, Linked, add-Linked, refresh-Linked}

module _ {Rest : Type 0} (lru : Lru String (Slot (Token Rest))) (negative_ttl : ℕ) where
  -- A cache and what it hands to `OnEvict` keep an index linked.
  abbrev KeepsLinks : List (ℕ × String) → LruCache lru.State × Option (Token Rest) → Type 0
  KeepsLinks m (c, evicted) =
      Linked lru negative_ttl c.cache (forget_evicted lru negative_ttl evicted m)

  -- No identifier leads to the key.
  abbrev Unlinked : List (ℕ × String) → String → Type 0
  Unlinked m key = (id : ℕ) → load m id ≡ some key → ⊥

  store_negative-KeepsLinks :
      (now : ℕ) (c : LruCache lru.State) (m : List (ℕ × String)) (key : String)
      → Linked lru negative_ttl c.cache m
      → Unlinked m key
      → KeepsLinks m (store_negative lru negative_ttl now c key)
  unfolding store_negative add_slot delete
  store_negative-KeepsLinks now c m key h u = elim (Bool-cases (ltb 0 negative_ttl)) [
    | inl e ↦ rw e (
        add-Linked lru negative_ttl c.cache m key (missing (now + negative_ttl)) h
          (λ id at. absurd (u id at)))
    | inr e ↦ rw e h
  ]

  load_missing-KeepsLinks :
      (now : ℕ) (o : Option (Loaded (Token Rest))) (c : LruCache lru.State) (m : List (ℕ × String))
      (key : String)
      → Linked lru negative_ttl c.cache m
      → Unlinked m key
      → KeepsLinks m (load_missing lru negative_ttl now o c key).0
  unfolding load_missing add_slot store_negative delete
  load_missing-KeepsLinks now none c m key h u = h
  load_missing-KeepsLinks now (some (value v)) c m key h u =
      add-Linked lru negative_ttl c.cache m key (present v) h (λ id at. absurd (u id at))
  load_missing-KeepsLinks now (some not_found) c m key h u =
      store_negative-KeepsLinks now (record c { misses = c.misses + 1 }) m key h u
  load_missing-KeepsLinks now (some (failed message)) c m key h u = h

  Unlinked-of_slot :
      (s : Store lru negative_ttl) (key : String)
      → IsLinked lru negative_ttl s
      → ((t : Token Rest) → lru.peek s.primary.cache key ≡ some (present t) → ⊥)
      → Unlinked s.by_id key
  Unlinked-of_slot s key h none_there id at = let (t, there, is) = h id key at in none_there t there

  -- The removal of an entry for a missing key.
  removed-Linked :
      (cache : lru.State) (m : List (ℕ × String)) (key : String) (until : ℕ)
      → Linked lru negative_ttl cache m
      → lru.peek cache key ≡ some (missing until)
      → Linked lru negative_ttl (lru.remove (lru.refresh cache key) key).0 m
  removed-Linked cache m key until h e id j at =
      let (u, there, is) = h id j at in
      elim (Bool-cases (str_eq key j)) [
        | inl same ↦ absurd (cc (sym e ∙ ap (lru.peek cache) ((eq_iff key j).0 same) ∙ there))
        | inr other ↦ (
          u,
          lru.remove-other (lru.refresh cache key) key j other
              ∙ lru.refresh_lem cache key j
              ∙ there,
          is,
        )
      ]

  get_slot-KeepsLinks :
      (now : ℕ) (o : Option (Loaded (Token Rest))) (s : Store lru negative_ttl) (key : String)
      (slot : Option (Slot (Token Rest)))
      → IsLinked lru negative_ttl s
      → lru.peek s.primary.cache key ≡ slot
      → KeepsLinks s.by_id (get_slot lru negative_ttl now o s.primary key slot).0
  unfolding load_missing delete
  get_slot-KeepsLinks now o s key none h e =
      load_missing-KeepsLinks now o s.primary s.by_id key h
        (Unlinked-of_slot s key h (λ t at. cc (sym e ∙ at)))
  get_slot-KeepsLinks now o s key (some (present t)) h e =
      refresh-Linked lru negative_ttl s.primary.cache s.by_id key h
  get_slot-KeepsLinks now o s key (some (missing until)) h e = elim (Bool-cases (leb until now)) [
    | inl over ↦ rw over (
        load_missing-KeepsLinks now o
          (record s.primary { cache = (lru.remove (lru.refresh s.primary.cache key) key).0 })
          s.by_id key (removed-Linked s.primary.cache s.by_id key until h e)
          (Unlinked-of_slot s key h (λ t at. cc (sym e ∙ at))))
    | inr fresh ↦ rw fresh (refresh-Linked lru negative_ttl s.primary.cache s.by_id key h)
  ]

  pub get_token-IsLinked :
      (now : ℕ) (o : Option (Loaded (Token Rest))) (s : Store lru negative_ttl) (key : String)
      → IsLinked lru negative_ttl s
      → IsLinked lru negative_ttl (get_token lru negative_ttl now o s key).0
  unfolding get_token get load_missing delete
  get_token-IsLinked now o s key h =
      get_slot-KeepsLinks now o s key (lru.peek s.primary.cache key) h refl
