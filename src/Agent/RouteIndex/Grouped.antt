-- ===== src/Agent/RouteIndex/Grouped.antt =====
-- internal/agent/cache/route_index.go: what `rebuildIndex` stores under each source.
use vaala_ai_gateway.Prelude.{
  ℕ, ◌≡◌, refl, sym, ap, ◌∙◌, ◌&&◌, Bool, true, false, String, str_eq, List, [], ◌∷◌, ◌++◌, Option,
  none, some, ◌==◌, ==_iff, inl, inr, filter, if◌then◌else◌, if_true, if_false, ◌⊎◌, IsIn,
  Bool-cases, Option-cases,
}
use mathlib.Core.List.{append-nil, append_assoc}
use vaala_ai_gateway.Utils.SyncMap.{load, put, delete, sweep, keys, load-put, load-delete}
use vaala_ai_gateway.Utils.SyncMap.Unique.{IsUnique, put-IsUnique}
use vaala_ai_gateway.Agent.RouteIndex.{AgentRoute, Routes, or_nothing, routes_of, number_comparable}
use vaala_ai_gateway.Agent.RouteIndex.Rebuild.{
  group_routes, clear, store_sorted, sort_routes_by_priority, exchange_rounds,
}

-- The routes of one source.
abbrev pub is_from : String → ℕ → AgentRoute → Bool
is_from kind id r = str_eq r.source_type kind && r.source_id == id

routes_of-put :
    (index : Routes) (k id : ℕ) (l : List AgentRoute)
    → routes_of (put index k l) id ≡ (if k == id then l else routes_of index id)
unfolding routes_of
routes_of-put index k id l =
    ap or_nothing (load-put index k id l)
    ∙ elim (Bool-cases (k == id)) [ inl e ↦ rw e refl | inr e ↦ rw e refl ]

-- The routes of a source are behind those that the index had before, in their order.
routes_of-group_routes :
    (kind : String) (rs : List AgentRoute) (index : Routes) (id : ℕ)
    → routes_of (group_routes kind rs index) id ≡ routes_of index id ++ filter (is_from kind id) rs
unfolding group_routes
routes_of-group_routes kind [] index id = sym (append-nil (routes_of index id))
routes_of-group_routes kind (r ∷ rs) index id = elim (Bool-cases (str_eq r.source_type kind)) [
  | inr e ↦ rw e (routes_of-group_routes kind rs index id)
  | inl e ↦ rw e (
      routes_of-group_routes kind rs (put index r.source_id (routes_of index r.source_id ++ r ∷ []))
        id
      ∙ ap (λ l. l ++ filter (is_from kind id) rs)
          (routes_of-put index r.source_id id (routes_of index r.source_id ++ r ∷ []))
      ∙ elim (Bool-cases (r.source_id == id)) [
        | inr d ↦ rw d refl
        | inl d ↦ rw d (
            ap (λ k. (routes_of index k ++ r ∷ []) ++ filter (is_from kind id) rs)
              ((==_iff r.source_id id).0 d)
            ∙ append_assoc (routes_of index id) (r ∷ []) (filter (is_from kind id) rs))
      ])
]

group_routes-IsUnique :
    (kind : String) (rs : List AgentRoute) (index : Routes)
    → IsUnique index
    → IsUnique (group_routes kind rs index)
unfolding group_routes
group_routes-IsUnique kind [] index h = h
group_routes-IsUnique kind (r ∷ rs) index h = elim (Bool-cases (str_eq r.source_type kind)) [
  | inr e ↦ rw e (group_routes-IsUnique kind rs index h)
  | inl e ↦ rw e (
      group_routes-IsUnique kind rs (put index r.source_id (routes_of index r.source_id ++ r ∷ []))
        (put-IsUnique index r.source_id (routes_of index r.source_id ++ r ∷ []) h))
]

load-other :
    {V : Type 0} (k id : ℕ) (v : V) (m : List (ℕ × V))
    → load ((k, v) ∷ m) id ≡ none
    → (k == id ≡ false) × (load m id ≡ none)
unfolding load
load-other k id v m h = elim (Bool-cases (k == id)) [
  | inl e ↦ absurd (cc (rw e at h))
  | inr e ↦ (e, rw e at h)
]

load-put_other :
    {V : Type 0} (m : List (ℕ × V)) (k id : ℕ) (v : V)
    → k == id ≡ false
    → load (put m k v) id ≡ load m id
load-put_other m k id v e = load-put m k id v ∙ if_false (k == id) (some v) (load m id) e

-- A key that has no group keeps what it had.
load-store_sorted :
    (groups index : Routes) (id : ℕ)
    → load groups id ≡ none
    → load (store_sorted groups index) id ≡ load index id
unfolding store_sorted
load-store_sorted [] index id h = refl
load-store_sorted ((k, rs) ∷ groups) index id h =
    let (other, rest) = load-other k id rs groups h in
    load-store_sorted groups (put index k (sort_routes_by_priority rs)) id rest
    ∙ load-put_other index k id (sort_routes_by_priority rs) other

-- Each key is stored once, with its routes sorted.
routes_of-store_sorted :
    (groups index : Routes) (id : ℕ)
    → IsUnique groups
    → load index id ≡ none
    → routes_of (store_sorted groups index) id ≡ sort_routes_by_priority (routes_of groups id)
unfolding store_sorted routes_of sort_routes_by_priority exchange_rounds load
routes_of-store_sorted [] index id u e = ap or_nothing e
routes_of-store_sorted ((k, rs) ∷ groups) index id u e =
    let sorted = sort_routes_by_priority rs in
    elim (Bool-cases (k == id)) [
      | inl same ↦
          ap or_nothing (
            load-store_sorted groups (put index k sorted) id
              (ap (load groups) (sym ((==_iff k id).0 same)) ∙ u.0)
            ∙ load-put index k id sorted
            ∙ if_true (k == id) (some sorted) (load index id) same)
          ∙ sym (
              ap (λ o. sort_routes_by_priority (or_nothing o))
                (if_true (k == id) (some rs) (load groups id) same))
      | inr other ↦
          routes_of-store_sorted groups (put index k sorted) id u.1
            (load-put_other index k id sorted other ∙ e)
          ∙ sym (
              ap (λ o. sort_routes_by_priority (or_nothing o))
                (if_false (k == id) (some rs) (load groups id) other))
    ]

module _ {V : Type 0} where
  abbrev delete_if : List (ℕ × V) → ℕ → Option V → List (ℕ × V)
  delete_if m k none = m
  delete_if m k (some v) = delete m k

  load-delete_if :
      (m : List (ℕ × V)) (k j : ℕ) (o : Option V)
      → load m k ≡ o
      → load (delete_if m k o) j ≡ (if k == j then none else load m j)
  load-delete_if m k j none e = elim (Bool-cases (k == j)) [
    | inl same ↦ rw same (ap (load m) (sym ((==_iff k j).0 same)) ∙ e)
    | inr other ↦ rw other refl
  ]
  load-delete_if m k j (some v) e = load-delete m k j

  -- The keys that are swept are gone.
  load-sweep_all :
      (ks : List ℕ) (m : List (ℕ × V)) (j : ℕ)
      → (load m j ≡ none) ⊎ IsIn j ks
      → load (sweep (λ v. true) ks m) j ≡ none
  unfolding sweep
  load-sweep_all [] m j (inl h) = h
  load-sweep_all [] m j (inr i) = elim i [ ]
  load-sweep_all (k ∷ ks) m j h = elim (Option-cases (load m k)) [
    | inl e ↦ rw e (load-sweep_all ks m j (next m (load-delete_if m k j none e)))
    | inr (v, e) ↦
        rw e
          (load-sweep_all ks (delete m k) j (next (delete m k) (load-delete_if m k j (some v) e)))
  ]
    where
      next :
          (m' : List (ℕ × V))
          → load m' j ≡ (if k == j then none else load m j)
          → (load m' j ≡ none) ⊎ IsIn j ks
      next m' q = elim (Bool-cases (k == j)) [
        | inl same ↦ inl (q ∙ if_true (k == j) none (load m j) same)
        | inr other ↦ elim h [
          | inl gone ↦ inl (q ∙ if_false (k == j) none (load m j) other ∙ gone)
          | inr (inl at) ↦ absurd (cc (sym other ∙ (==_iff k j).1 (sym at)))
          | inr (inr i) ↦ inr i
        ]
      ]

  load-keys : (m : List (ℕ × V)) (j : ℕ) → (load m j ≡ none) ⊎ IsIn j (keys m)
  unfolding load
  load-keys [] j = inl refl
  load-keys ((k, v) ∷ m) j = elim (Bool-cases (k == j)) [
    | inl same ↦ inr (inl (sym ((==_iff k j).0 same)))
    | inr other ↦ elim (load-keys m j) [ inl h ↦ inl (rw other h) | inr i ↦ inr (inr i) ]
  ]

  pub load-clear : (m : List (ℕ × V)) (j : ℕ) → load (clear m) j ≡ none
  unfolding clear
  load-clear m j = load-sweep_all (keys m) m j (load-keys m j)

-- The index that is stored for the sources of one kind.
pub routes_of-rebuilt :
    (kind : String) (rs : List AgentRoute) (old : Routes) (id : ℕ)
    → routes_of (store_sorted (group_routes kind rs []) (clear old)) id
      ≡ sort_routes_by_priority (filter (is_from kind id) rs)
unfolding load
routes_of-rebuilt kind rs old id =
    routes_of-store_sorted (group_routes kind rs []) (clear old) id
      (group_routes-IsUnique kind rs [] tt) (load-clear old id)
    ∙ ap sort_routes_by_priority (routes_of-group_routes kind rs [] id ∙ nothing_before)
  where
    nothing_before : routes_of [] id ++ filter (is_from kind id) rs ≡ filter (is_from kind id) rs
    nothing_before = unfold routes_of in refl
