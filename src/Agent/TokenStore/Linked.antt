-- ===== src/Agent/TokenStore/Linked.antt =====
-- internal/agent/cache/store_token.go: every operation keeps the index by identifier linked to the
-- cache.
use vaala_ai_gateway.Prelude.{
  ℕ, ◌≡◌, refl, sym, ap, ◌∙◌, ◌⊎◌, String, subst, Option-cases, List, Option, none, some, inl, inr,
}
use vaala_ai_gateway.Utils.SyncMap.{load, delete}
use vaala_ai_gateway.Agent.RouteIndex.{number_comparable}
use vaala_ai_gateway.Master.Heartbeat.{string_comparable}
use vaala_ai_gateway.Agent.EntityCache.{
  Lru, Slot, present, Loaded, Found, hit, Action, action_set, action_delete, add_slot, load_missing,
  get_slot, get, delete_key, peek_value, apply,
}
use vaala_ai_gateway.Agent.TokenStore.{
  Token, Store, forget_evicted, with_primary, set_token, delete_token, delete_found, get_token,
  fallback_by_id, after_get, get_found, get_by_id, apply_push,
}
use vaala_ai_gateway.Agent.TokenStore.Links.{
  IsLinked, Linked, Suits, load-forget_evicted, add-Linked, remove-Linked, delete-Linked,
  put-Linked,
}
use vaala_ai_gateway.Agent.TokenStore.Loads.{get_token-IsLinked}

module _ {Rest : Type 0} (lru : Lru String (Slot (Token Rest))) (negative_ttl : ℕ) where
  -- A token that is cached under the key has the same identifier: the key of a token never changes.
  abbrev pub Agrees : Token Rest → Store lru negative_ttl → Type 0
  Agrees t s = (u : Token Rest) → lru.peek s.primary.cache t.key ≡ some (present u) → u.id ≡ t.id

  Suits-Agrees :
      (s : Store lru negative_ttl) (t : Token Rest)
      → IsLinked lru negative_ttl s
      → Agrees t s
      → Suits lru negative_ttl s.by_id t.key (present t)
  Suits-Agrees s t h a id e = let (u, at, is) = h id t.key e in (t, refl, sym (a u at) ∙ is)

  forget_evicted-Linked :
      (cache : lru.State) (m : List (ℕ × String)) (o : Option (Token Rest))
      → Linked lru negative_ttl cache m
      → Linked lru negative_ttl cache (forget_evicted lru negative_ttl o m)
  forget_evicted-Linked cache m o h id k e =
      h id k (load-forget_evicted lru negative_ttl o m id k e).0

  pub set_token-IsLinked :
      (s : Store lru negative_ttl) (t : Token Rest)
      → IsLinked lru negative_ttl s
      → Agrees t s
      → IsLinked lru negative_ttl (set_token lru negative_ttl s t)
  unfolding set_token add_slot delete
  set_token-IsLinked s t h a =
      put-Linked lru negative_ttl _ _ t
        (add-Linked lru negative_ttl s.primary.cache s.by_id t.key (present t) h
          (Suits-Agrees s t h a))
        (lru.add-self s.primary.cache t.key (present t))

  pub delete_token-IsLinked :
      (s : Store lru negative_ttl) (key : String)
      → IsLinked lru negative_ttl s
      → IsLinked lru negative_ttl (delete_token lru negative_ttl s key)
  unfolding delete_token delete_key delete peek_value
  delete_token-IsLinked s key h =
      remove-Linked lru negative_ttl s.primary.cache _ key (
        forget_evicted-Linked s.primary.cache s.by_id (peek_value lru negative_ttl s.primary key) h)

  pub delete_found-IsLinked :
      (s : Store lru negative_ttl) (id : ℕ) (o : Option String)
      → IsLinked lru negative_ttl s
      → IsLinked lru negative_ttl (delete_found lru negative_ttl s id o)
  unfolding delete_key delete
  delete_found-IsLinked s id none h = h
  delete_found-IsLinked s id (some key) h =
      delete-Linked lru negative_ttl _ _ id
        (remove-Linked lru negative_ttl s.primary.cache s.by_id key h)

  -- What a fetch returns agrees with the store.
  abbrev pub FetchAgrees : Option (String ⊎ Option (Token Rest)) → Store lru negative_ttl → Type 0
  FetchAgrees none s = Unit
  FetchAgrees (some (inl message)) s = Unit
  FetchAgrees (some (inr none)) s = Unit
  FetchAgrees (some (inr (some tok))) s = Agrees tok s

  fallback_by_id-IsLinked :
      (f : Option (String ⊎ Option (Token Rest))) (s : Store lru negative_ttl)
      → FetchAgrees f s
      → IsLinked lru negative_ttl s
      → IsLinked lru negative_ttl (fallback_by_id lru negative_ttl f s).0
  unfolding set_token
  fallback_by_id-IsLinked none s a h = h
  fallback_by_id-IsLinked (some (inl message)) s a h = h
  fallback_by_id-IsLinked (some (inr none)) s a h = h
  fallback_by_id-IsLinked (some (inr (some tok))) s a h = set_token-IsLinked s tok h a

  -- A key that an identifier leads to is found in the cache, which changes only in its order.
  get_token-linked :
      (now : ℕ) (o : Option (Loaded (Token Rest))) (s : Store lru negative_ttl) (key : String)
      (t : Token Rest)
      → lru.peek s.primary.cache key ≡ some (present t)
      → get_token lru negative_ttl now o s key ≡ (
        with_primary lru negative_ttl s
            (get_slot lru negative_ttl now o s.primary key (some (present t))).0,
        hit t,
      )
  unfolding get_token get load_missing delete
  get_token-linked now o s key t e = rw e refl

  pub get_by_id_lem :
      (now : ℕ) (o : Option (Loaded (Token Rest))) (f : Option (String ⊎ Option (Token Rest)))
      (s : Store lru negative_ttl) (id : ℕ) (key : String)
      → IsLinked lru negative_ttl s
      → load s.by_id id ≡ some key
      → (t : Token Rest) × (get_by_id lru negative_ttl now o f s id
          ≡ get_token lru negative_ttl now o s key)
        × ((get_token lru negative_ttl now o s key).1 ≡ hit t)
        × (t.id ≡ id)
  unfolding get_by_id load set_token delete
  get_by_id_lem now o f s id key h e =
      let (t, at, is) = h id key e in
      let found = get_token-linked now o s key t at in
      (
        t,
        ap (get_found lru negative_ttl now o f s id) e
            ∙ ap (after_get lru negative_ttl f id) found
            ∙ sym found,
        ap (λ (p : Store lru negative_ttl × Found (Token Rest)). p.1) found,
        is,
      )

  pub get_by_id-IsLinked :
      (now : ℕ) (o : Option (Loaded (Token Rest))) (f : Option (String ⊎ Option (Token Rest)))
      (s : Store lru negative_ttl) (id : ℕ)
      → FetchAgrees f s
      → IsLinked lru negative_ttl s
      → IsLinked lru negative_ttl (get_by_id lru negative_ttl now o f s id).0
  unfolding get_by_id load set_token delete get_token
  get_by_id-IsLinked now o f s id a h = elim (Option-cases (load s.by_id id)) [
    | inl e ↦
        subst (λ q. IsLinked lru negative_ttl (get_found lru negative_ttl now o f s id q).0) (sym e)
          (fallback_by_id-IsLinked f s a h)
    | inr (key, e) ↦
        let (t, same, found, is) = get_by_id_lem now o f s id key h e in
        subst (λ q. IsLinked lru negative_ttl q.0) (sym same)
          (get_token-IsLinked lru negative_ttl now o s key h)
  ]

  pub apply_push-IsLinked :
      (action : Action) (s : Store lru negative_ttl) (t : Token Rest)
      → Agrees t s
      → IsLinked lru negative_ttl s
      → IsLinked lru negative_ttl (apply_push lru negative_ttl action s t)
  unfolding apply_push apply delete add_slot delete_key
  apply_push-IsLinked action_delete s t a h =
      delete-Linked lru negative_ttl _ _ t.id
        (remove-Linked lru negative_ttl s.primary.cache s.by_id t.key h)
  apply_push-IsLinked action_set s t a h = elim (Option-cases (lru.peek s.primary.cache t.key)) [
    | inl e ↦ rw e h
    | inr (slot, e) ↦ rw e (
        add-Linked lru negative_ttl s.primary.cache s.by_id t.key (present t) h
          (Suits-Agrees s t h a))
  ]
