-- ===== src/Agent/TokenStore/Interleaved.antt =====
-- internal/agent/cache/store_token.go: methods that run at the same time. No lock spans the cache and
-- the index, so each call of the cache or of the index is a step of its own, also the one of
-- `OnEvict`, and a load may be written at any moment.
use vaala_ai_gateway.Prelude.{
  ℕ, ◌≡◌, sym, ap, ◌∙◌, String, str_eq, eq_iff, List, [], Option, none, some, inl, inr, ◌⊎◌, ◌==◌,
  ==_iff, if_true, if_false, Bool-cases, Option-cases, leb,
}
use vaala_ai_gateway.Utils.SyncMap.{load, put, delete, load-put}
use vaala_ai_gateway.Agent.RouteIndex.{number_comparable}
use vaala_ai_gateway.Master.Heartbeat.{string_comparable}
use vaala_ai_gateway.Agent.EntityCache.{
  Lru, Slot, present, missing, LruCache, Loaded, value, not_found, failed, Found, hit, miss, error,
  get, get_slot, load_missing, add_slot, delete_key, peek_value, on_evict,
}
use vaala_ai_gateway.Agent.TokenStore.{
  Token, Store, forget_evicted, set_token, delete_token, delete_found, get_token, get_found,
  after_get, fallback_by_id,
}
use vaala_ai_gateway.Agent.TokenStore.Links.{load-delete-some}

module _ {Rest : Type 0} (lru : Lru String (Slot (Token Rest))) (negative_ttl : ℕ)
    (owner : String → ℕ) where
  -- The token that a key belongs to never changes.
  abbrev pub IsOwned : Token Rest → Type 0
  IsOwned t = t.id ≡ owner t.key

  -- One call on the cache or on the index.
  pub data Step : lru.State × List (ℕ × String) → lru.State × List (ℕ × String) → Type 0 where
    added :
        (c : lru.State) (m : List (ℕ × String)) (t : Token Rest)
        → IsOwned t
        → Step (c, m) ((lru.add c t.key (present t)).0, m)
    marked :
        (c : lru.State) (m : List (ℕ × String)) (k : String) (until : ℕ)
        → Step (c, m) ((lru.add c k (missing until)).0, m)
    removed :
        (c : lru.State) (m : List (ℕ × String)) (k : String) → Step (c, m) ((lru.remove c k).0, m)
    refreshed :
        (c : lru.State) (m : List (ℕ × String)) (k : String) → Step (c, m) (lru.refresh c k, m)
    linked :
        (c : lru.State) (m : List (ℕ × String)) (t : Token Rest)
        → IsOwned t
        → Step (c, m) (c, put m t.id t.key)
    unlinked : (c : lru.State) (m : List (ℕ × String)) (id : ℕ) → Step (c, m) (c, delete m id)

  pub data Runs : lru.State × List (ℕ × String) → lru.State × List (ℕ × String) → Type 0 where
    still : (s : lru.State × List (ℕ × String)) → Runs s s
    onward : (s s1 s' : lru.State × List (ℕ × String)) → Step s s1 → Runs s1 s' → Runs s s'

  -- The index leads to keys of the identifier, and each cached token belongs to its key.
  abbrev pub IsSafe : lru.State × List (ℕ × String) → Type 0
  IsSafe (c, m) =
      ((id : ℕ) (k : String) → load m id ≡ some k → owner k ≡ id)
      × ((k : String) (t : Token Rest) → lru.peek c k ≡ some (present t) → t.id ≡ owner k)

  Step-IsSafe : (s s' : lru.State × List (ℕ × String)) → Step s s' → IsSafe s → IsSafe s'
  unfolding put delete
  Step-IsSafe _ _ (added c m t o) (a, b) = (
    a,
    λ j u e. elim (Bool-cases (str_eq t.key j)) [
      | inl same ↦
          let q : t.key ≡ j = (eq_iff t.key j).0 same in
          let at = ap (lru.peek (lru.add c t.key (present t)).0) (sym q) in
          let is : t ≡ u = cc (sym (lru.add-self c t.key (present t)) ∙ sym at ∙ e) in
          sym (ap (λ (x : Token Rest). x.id) is) ∙ o ∙ ap owner q
      | inr other ↦ b j u (lru.add-from c t.key j (present t) (present u) other e)
    ],
  )
  Step-IsSafe _ _ (marked c m k until) (a, b) = (
    a,
    λ j u e. elim (Bool-cases (str_eq k j)) [
      | inl same ↦
          let q : k ≡ j = (eq_iff k j).0 same in
          let at = ap (lru.peek (lru.add c k (missing until)).0) (sym q) in
          absurd (cc (sym (lru.add-self c k (missing until)) ∙ sym at ∙ e))
      | inr other ↦ b j u (lru.add-from c k j (missing until) (present u) other e)
    ],
  )
  Step-IsSafe _ _ (removed c m k) (a, b) = (a, λ j u e. b j u (lru.remove-from c k j (present u) e))
  Step-IsSafe _ _ (refreshed c m k) (a, b) = (a, λ j u e. b j u (sym (lru.refresh_lem c k j) ∙ e))
  Step-IsSafe _ _ (linked c m t o) (a, b) = (
    λ id k e. elim (Bool-cases (t.id == id)) [
      | inl same ↦
          let q : t.key ≡ k = cc (
            sym (load-put m t.id id t.key ∙ if_true (t.id == id) (some t.key) (load m id) same)
            ∙ e) in
          ap owner (sym q) ∙ sym o ∙ (==_iff t.id id).0 same
      | inr other ↦ a id k (
          sym (load-put m t.id id t.key ∙ if_false (t.id == id) (some t.key) (load m id) other) ∙ e)
    ],
    b,
  )
  Step-IsSafe _ _ (unlinked c m id) (a, b) =
      (λ j k e. a j k (load-delete-some lru negative_ttl m id j k e).0, b)

  Runs-IsSafe : (s s' : lru.State × List (ℕ × String)) → Runs s s' → IsSafe s → IsSafe s'
  Runs-IsSafe _ _ (still s) h = h
  Runs-IsSafe _ _ (onward s s1 s' step more) h = Runs-IsSafe s1 s' more (Step-IsSafe s s1 step h)

  -- `Set`, `Delete` and `DeleteByID` as runs of those steps, where nothing comes in between.
  Runs-append : (s s1 s' : lru.State × List (ℕ × String)) → Runs s s1 → Runs s1 s' → Runs s s'
  Runs-append _ s1 s' (still _) more = more
  Runs-append s s1 s' (onward _ s0 _ step rest) more =
      onward s s0 s' step (Runs-append s0 s1 s' rest more)

  abbrev pub parts : Store lru negative_ttl → lru.State × List (ℕ × String)
  parts s = (s.primary.cache, s.by_id)

  forget_evicted-Runs :
      (c : lru.State) (m : List (ℕ × String)) (o : Option (Token Rest))
      → Runs (c, m) (c, forget_evicted lru negative_ttl o m)
  unfolding delete
  forget_evicted-Runs c m none = still _
  forget_evicted-Runs c m (some tok) = onward _ _ _ (unlinked c m tok.id) (still _)

  pub set_token-Runs :
      (s : Store lru negative_ttl) (t : Token Rest)
      → IsOwned t
      → Runs (parts s) (parts (set_token lru negative_ttl s t))
  unfolding set_token add_slot delete
  set_token-Runs s t o = onward _ _ _ (added s.primary.cache s.by_id t o) (
      Runs-append _ _ _
        (forget_evicted-Runs _ s.by_id
          (on_evict lru negative_ttl (lru.add s.primary.cache t.key (present t)).1))
        (onward _ _ _ (linked _ _ t o) (still _)))

  pub delete_token-Runs :
      (s : Store lru negative_ttl) (key : String)
      → Runs (parts s) (parts (delete_token lru negative_ttl s key))
  unfolding delete_token delete_key delete peek_value
  delete_token-Runs s key =
      Runs-append _ _ _
        (forget_evicted-Runs s.primary.cache s.by_id (peek_value lru negative_ttl s.primary key))
        (onward _ _ _ (removed s.primary.cache _ key)
          (forget_evicted-Runs _ _ (on_evict lru negative_ttl (lru.remove s.primary.cache key).1)))

  delete_found-Runs :
      (s : Store lru negative_ttl) (id : ℕ) (o : Option String)
      → Runs (parts s) (parts (delete_found lru negative_ttl s id o))
  unfolding delete_key delete
  delete_found-Runs s id none = still _
  delete_found-Runs s id (some key) = onward _ _ _ (removed s.primary.cache s.by_id key) (
      Runs-append _ _ _
        (forget_evicted-Runs _ s.by_id
          (on_evict lru negative_ttl (lru.remove s.primary.cache key).1))
        (onward _ _ _ (unlinked _ _ id) (still _)))

  load_missing-hit :
      (now : ℕ) (loader : Option (Loaded (Token Rest))) (c : LruCache lru.State) (k : String)
      (t : Token Rest)
      → (load_missing lru negative_ttl now loader c k).1 ≡ hit t
      → loader ≡ some (value t)
  unfolding load_missing
  load_missing-hit now none c k t h = absurd (cc)
  load_missing-hit now (some (value v)) c k t h = let q : v ≡ t = cc in ap (λ x. some (value x)) q
  load_missing-hit now (some not_found) c k t h = absurd (cc)
  load_missing-hit now (some (failed message)) c k t h = absurd (cc)

  get_slot-hit :
      (now : ℕ) (loader : Option (Loaded (Token Rest))) (c : LruCache lru.State) (k : String)
      (o : Option (Slot (Token Rest))) (t : Token Rest)
      → (get_slot lru negative_ttl now loader c k o).1 ≡ hit t
      → (o ≡ some (present t)) ⊎ (loader ≡ some (value t))
  unfolding load_missing
  get_slot-hit now loader c k none t h = inr (load_missing-hit now loader _ k t h)
  get_slot-hit now loader c k (some (present v)) t h =
      let q : v ≡ t = cc in inl (ap (λ x. some (present x)) q)
  get_slot-hit now loader c k (some (missing until)) t h = elim (Bool-cases (leb until now)) [
    | inl e ↦ let h' = rw e at h in inr (load_missing-hit now loader _ k t h')
    | inr e ↦ let h' = rw e at h in absurd (cc)
  ]

  fallback_by_id-hit :
      (fetched : Option (String ⊎ Option (Token Rest))) (s : Store lru negative_ttl)
      (t : Token Rest)
      → (fallback_by_id lru negative_ttl fetched s).1 ≡ hit t
      → fetched ≡ some (inr (some t))
  unfolding set_token
  fallback_by_id-hit none s t h = absurd (cc)
  fallback_by_id-hit (some (inl message)) s t h = absurd (cc)
  fallback_by_id-hit (some (inr none)) s t h = absurd (cc)
  fallback_by_id-hit (some (inr (some tok))) s t h =
      let q : tok ≡ t = cc in ap (λ x. some (inr (some x))) q

  after_get-hit :
      (fetched : Option (String ⊎ Option (Token Rest))) (id : ℕ) (s : Store lru negative_ttl)
      (found : Found (Token Rest)) (t : Token Rest)
      → (after_get lru negative_ttl fetched id (s, found)).1 ≡ hit t
      → (found ≡ hit t) ⊎ (fetched ≡ some (inr (some t)))
  unfolding set_token delete
  after_get-hit fetched id s (hit tok) t h = inl h
  after_get-hit fetched id s (error message) t h = absurd (cc)
  after_get-hit fetched id s miss t h = inr (fallback_by_id-hit fetched _ t h)

  -- However the steps of any methods interleave, from an empty store on, and also between its lookup
  -- in the index and the rest of it, `GetByID` returns no token but one with the identifier that it
  -- was asked for. Each token that a method writes, that the loader gives for the key, or that the
  -- fetcher gives for the identifier, belongs to it.
  pub get_found-Runs :
      (c0 : lru.State) (s : lru.State × List (ℕ × String)) (store : Store lru negative_ttl)
      (id now : ℕ) (loader : Option (Loaded (Token Rest)))
      (fetched : Option (String ⊎ Option (Token Rest))) (t : Token Rest)
      → ((k : String) → lru.peek c0 k ≡ none)
      → Runs (c0, []) s
      → Runs s (parts store)
      → ((k : String) (u : Token Rest)
          → load s.1 id ≡ some k
          → loader ≡ some (value u)
          → u.id ≡ owner k)
      → ((u : Token Rest) → fetched ≡ some (inr (some u)) → u.id ≡ id)
      → (get_found lru negative_ttl now loader fetched store id (load s.1 id)).1 ≡ hit t
      → t.id ≡ id
  unfolding get_token get load set_token delete
  get_found-Runs c0 s store id now loader fetched t empty before between loads fetches h =
      let start : IsSafe (c0, []) =
        (λ i k e. absurd (cc), λ k u e. absurd (cc (sym (empty k) ∙ e))) in
      let safe = Runs-IsSafe (c0, []) s before start in
      let safe' = Runs-IsSafe s (parts store) between safe in
      elim (Option-cases (load s.1 id)) [
        | inl none_there ↦
            let h' = rw none_there at h in fetches t (fallback_by_id-hit fetched store t h')
        | inr (k, there) ↦
            let h' = rw there at h in
            elim (after_get-hit fetched id _ _ t h') [
              | inl found ↦
                  elim (get_slot-hit now loader store.primary k (lru.peek store.primary.cache k) t
                    found) [
                      | inl cached ↦ safe'.1 k t cached ∙ safe.0 id k there
                      | inr loaded ↦ loads k t there loaded ∙ safe.0 id k there
                    ]
              | inr fetched_it ↦ fetches t fetched_it
            ]
      ]
