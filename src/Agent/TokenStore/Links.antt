-- ===== src/Agent/TokenStore/Links.antt =====
-- internal/agent/cache/store_token.go: an identifier leads to a key whose token is cached, under
-- each change of the cache and of the index.
use vaala_ai_gateway.Prelude.{
  ℕ, ◌≡◌, ◌≢◌, sym, ap, ◌∙◌, String, str_eq, eq_iff, List, Option, none, some, inl, inr, ◌==◌,
  ==_iff, if_true, if_false, Bool-cases,
}
use vaala_ai_gateway.Utils.SyncMap.{load, put, delete, load-put, load-delete}
use vaala_ai_gateway.Agent.RouteIndex.{number_comparable}
use vaala_ai_gateway.Master.Heartbeat.{string_comparable}
use vaala_ai_gateway.Agent.EntityCache.{Lru, Slot, present, on_evict}
use vaala_ai_gateway.Agent.TokenStore.{Token, Store, forget_evicted}

module _ {Rest : Type 0} (lru : Lru String (Slot (Token Rest))) (negative_ttl : ℕ) where
  abbrev pub Linked : lru.State → List (ℕ × String) → Type 0
  Linked cache by_id =
      (id : ℕ) (k : String)
      → load by_id id ≡ some k
      → (t : Token Rest) × (lru.peek cache k ≡ some (present t)) × (t.id ≡ id)

  -- The index says of the key no more than the slot does.
  abbrev pub Suits : List (ℕ × String) → String → Slot (Token Rest) → Type 0
  Suits by_id k slot =
      (id : ℕ) → load by_id id ≡ some k → (t : Token Rest) × (slot ≡ present t) × (t.id ≡ id)

  -- What is found after a deletion was there, at another key.
  pub load-delete-some :
      (m : List (ℕ × String)) (id j : ℕ) (k : String)
      → load (delete m id) j ≡ some k
      → (load m j ≡ some k) × (id ≢ j)
  load-delete-some m id j k h = elim (Bool-cases (id == j)) [
    | inl e ↦ absurd (cc (sym h ∙ load-delete m id j ∙ if_true (id == j) none (load m j) e))
    | inr e ↦ (
      sym (load-delete m id j ∙ if_false (id == j) none (load m j) e) ∙ h,
      λ q. absurd (cc (sym e ∙ (==_iff id j).1 q)),
    )
  ]

  pub load-forget_evicted :
      (o : Option (Token Rest)) (m : List (ℕ × String)) (id : ℕ) (k : String)
      → load (forget_evicted lru negative_ttl o m) id ≡ some k
      → (load m id ≡ some k) × ((u : Token Rest) → o ≡ some u → u.id ≢ id)
  unfolding delete
  load-forget_evicted none m id k h = (h, λ u e. absurd (cc))
  load-forget_evicted (some tok) m id k h =
      let (there, other) = load-delete-some m tok.id id k h in
      (there, λ u e same. other ((let q : tok ≡ u = cc in ap (λ (x : Token Rest). x.id) q) ∙ same))

  pub add-Linked :
      (cache : lru.State) (m : List (ℕ × String)) (k : String) (slot : Slot (Token Rest))
      → Linked cache m
      → Suits m k slot
      → Linked
          (lru.add cache k slot).0
          (forget_evicted lru negative_ttl (on_evict lru negative_ttl (lru.add cache k slot).1) m)
  unfolding delete
  add-Linked cache m k slot h c id j e =
      let (there, kept) =
        load-forget_evicted (on_evict lru negative_ttl (lru.add cache k slot).1) m id j e in
      let (u, at, is) = h id j there in
      elim (Bool-cases (str_eq k j)) [
        | inl same ↦
            let q : k ≡ j = (eq_iff k j).0 same in
            let (t, slot_is, id_is) = c id (there ∙ ap some (sym q)) in
            (
              t,
              ap (lru.peek (lru.add cache k slot).0) (sym q)
                  ∙ lru.add-self cache k slot
                  ∙ ap some slot_is,
              id_is,
            )
        | inr other ↦ elim (lru.add-other cache k j slot (present u) other at) [
          | inl still ↦ (u, still, is)
          | inr gone ↦ absurd (kept u (ap (on_evict lru negative_ttl) gone) is)
        ]
      ]

  pub remove-Linked :
      (cache : lru.State) (m : List (ℕ × String)) (k : String)
      → Linked cache m
      → Linked
          (lru.remove cache k).0
          (forget_evicted lru negative_ttl (on_evict lru negative_ttl (lru.remove cache k).1) m)
  unfolding delete
  remove-Linked cache m k h id j e =
      let (there, kept) =
        load-forget_evicted (on_evict lru negative_ttl (lru.remove cache k).1) m id j e in
      let (u, at, is) = h id j there in
      elim (Bool-cases (str_eq k j)) [
        | inl same ↦
            let q : j ≡ k = sym ((eq_iff k j).0 same) in
            absurd (
              kept u
                (ap (on_evict lru negative_ttl)
                  (lru.remove-self cache k (present u) (ap (lru.peek cache) (sym q) ∙ at)))
                is)
        | inr other ↦ (u, lru.remove-other cache k j other ∙ at, is)
      ]

  pub delete-Linked :
      (cache : lru.State) (m : List (ℕ × String)) (id : ℕ)
      → Linked cache m
      → Linked cache (delete m id)
  delete-Linked cache m id h j k e = h j k (load-delete-some m id j k e).0

  pub put-Linked :
      (cache : lru.State) (m : List (ℕ × String)) (t : Token Rest)
      → Linked cache m
      → lru.peek cache t.key ≡ some (present t)
      → Linked cache (put m t.id t.key)
  put-Linked cache m t h at id k e = elim (Bool-cases (t.id == id)) [
    | inl same ↦
        let q : t.key ≡ k = cc (
          sym (load-put m t.id id t.key ∙ if_true (t.id == id) (some t.key) (load m id) same)
          ∙ e) in
        (t, ap (lru.peek cache) (sym q) ∙ at, (==_iff t.id id).0 same)
    | inr other ↦
        h id k (
          sym (load-put m t.id id t.key ∙ if_false (t.id == id) (some t.key) (load m id) other) ∙ e)
  ]

  pub refresh-Linked :
      (cache : lru.State) (m : List (ℕ × String)) (k : String)
      → Linked cache m
      → Linked (lru.refresh cache k) m
  refresh-Linked cache m k h id j e =
      let (u, at, is) = h id j e in (u, lru.refresh_lem cache k j ∙ at, is)

  abbrev pub IsLinked : Store lru negative_ttl → Type 0
  IsLinked s = Linked s.primary.cache s.by_id
