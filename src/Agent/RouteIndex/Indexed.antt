-- ===== src/Agent/RouteIndex/Indexed.antt =====
-- internal/agent/cache/route_index.go: the map of routes, and the indexes behind a rebuilding.
use vaala_ai_gateway.Prelude.{
  ℕ, ◌≡◌, refl, sym, ap, subst, ◌∙◌, ◌↔◌, true, String, List, [], ◌∷◌, none, some, ◌==◌, ==_iff,
  arith, inl, inr, filter, IsIn, IsIn-filter, IsIn-filter_of, All-perm, All-IsIn, All-of_IsIn,
  if_true, if_false, Bool-cases, Option-cases,
}
use mathlib.Core.List.Permᴰ
use mathlib.Core.List.{Permᴰ}
use vaala_ai_gateway.Prelude.Sort.{IsOrdered}
use vaala_ai_gateway.Utils.SyncMap.{load, put, delete, sweep, load-put, load-delete}
use vaala_ai_gateway.Agent.RouteIndex.{AgentRoute, RouteIndex, routes_of, number_comparable}
use vaala_ai_gateway.Agent.RouteIndex.Rebuild.{
  is_higher, values, sort_routes_by_priority, store_routes, rebuild_index,
}
use vaala_ai_gateway.Agent.RouteIndex.Priority.{
  sort_routes_by_priority-perm, sort_routes_by_priority-IsOrdered,
}
use vaala_ai_gateway.Agent.RouteIndex.Grouped.{is_from, routes_of-rebuilt}

-- Each route stands at its identifier, once.
abbrev pub IsRouteMap : List (ℕ × AgentRoute) → Type 0
IsRouteMap [] = Unit
IsRouteMap ((k, r) ∷ m) = (r.id ≡ k) × (load m k ≡ none) × IsRouteMap m

pub put-IsRouteMap :
    (m : List (ℕ × AgentRoute)) (r : AgentRoute) → IsRouteMap m → IsRouteMap (put m r.id r)
unfolding put load
put-IsRouteMap [] r h = (refl, refl, tt)
put-IsRouteMap ((k, w) ∷ m) r h = elim (Bool-cases (k == r.id)) [
  | inl same ↦ rw same (refl, ap (load m) (sym ((==_iff k r.id).0 same)) ∙ h.1, h.2)
  | inr other ↦ rw other (
    h.0,
    load-put m r.id k r ∙ if_false (r.id == k) (some r) (load m k) (ground (arith, other)) ∙ h.1,
    put-IsRouteMap m r h.2,
  )
]

pub delete-IsRouteMap :
    (m : List (ℕ × AgentRoute)) (id : ℕ) → IsRouteMap m → IsRouteMap (delete m id)
unfolding delete
delete-IsRouteMap [] id h = tt
delete-IsRouteMap ((k, w) ∷ m) id h = elim (Bool-cases (k == id)) [
  | inl same ↦ rw same (delete-IsRouteMap m id h.2)
  | inr other ↦ rw other (
    h.0,
    load-delete m id k ∙ if_false (id == k) none (load m k) (ground (arith, other)) ∙ h.1,
    delete-IsRouteMap m id h.2,
  )
]

pub sweep-IsRouteMap :
    (ks : List ℕ) (m : List (ℕ × AgentRoute)) → IsRouteMap m → IsRouteMap (sweep (λ v. true) ks m)
unfolding sweep
sweep-IsRouteMap [] m h = h
sweep-IsRouteMap (k ∷ ks) m h = elim (Option-cases (load m k)) [
  | inl e ↦ rw e (sweep-IsRouteMap ks m h)
  | inr (v, e) ↦ rw e (sweep-IsRouteMap ks (delete m k) (delete-IsRouteMap m k h))
]

pub store_routes-IsRouteMap :
    (rs : List AgentRoute) (m : List (ℕ × AgentRoute))
    → IsRouteMap m
    → IsRouteMap (store_routes rs m)
unfolding store_routes
store_routes-IsRouteMap [] m h = h
store_routes-IsRouteMap (r ∷ rs) m h =
    store_routes-IsRouteMap rs (put m r.id r) (put-IsRouteMap m r h)

load-of_IsIn :
    (m : List (ℕ × AgentRoute)) (r : AgentRoute)
    → IsRouteMap m
    → IsIn r (values m)
    → load m r.id ≡ some r
unfolding load
load-of_IsIn [] r h i = elim i [ ]
load-of_IsIn ((k, w) ∷ m) r h (inl e) =
    let same : k == r.id ≡ true =
      (==_iff k r.id).1 (sym h.0 ∙ ap (λ (x : AgentRoute). x.id) (sym e)) in
    if_true (k == r.id) (some w) (load m r.id) same ∙ ap some (sym e)
load-of_IsIn ((k, w) ∷ m) r h (inr i) = elim (Bool-cases (k == r.id)) [
  | inl same ↦
      let there = load-of_IsIn m r h.2 i in
      let gone = ap (load m) (sym ((==_iff k r.id).0 same)) ∙ h.1 in absurd (cc)
  | inr other ↦ rw other (load-of_IsIn m r h.2 i)
]

IsIn-of_load :
    (m : List (ℕ × AgentRoute)) (id : ℕ) (r : AgentRoute) → load m id ≡ some r → IsIn r (values m)
unfolding load
IsIn-of_load [] id r e = absurd (cc)
IsIn-of_load ((k, w) ∷ m) id r e = elim (Bool-cases (k == id)) [
  | inl same ↦ let q : some w ≡ some r = rw same at e in inl (cc)
  | inr other ↦ inr (IsIn-of_load m id r (rw other at e))
]

-- What a stored index lists under a source, and in which order.
abbrev pub Lists : String → ℕ → List (ℕ × AgentRoute) → List AgentRoute → Type 0
Lists kind id routes l =
    ((r : AgentRoute) → IsIn r l ↔ ((load routes r.id ≡ some r) × (is_from kind id r ≡ true)))
    × IsOrdered is_higher l

IsIn-perm : (xs ys : List AgentRoute) (r : AgentRoute) → Permᴰ xs ys → IsIn r xs → IsIn r ys
IsIn-perm xs ys r p i =
    All-IsIn (λ x. IsIn x ys) xs
      (All-perm (λ x. IsIn x ys) (Permᴰ.symm p) (All-of_IsIn (λ x. IsIn x ys) ys (λ x j. j))) r i

sorted-Lists :
    (kind : String) (id : ℕ) (routes : List (ℕ × AgentRoute))
    → IsRouteMap routes
    → Lists kind id routes (sort_routes_by_priority (filter (is_from kind id) (values routes)))
sorted-Lists kind id routes h =
    let l = filter (is_from kind id) (values routes) in
    let p = sort_routes_by_priority-perm l in
    (
      λ r. (
        λ i.
            let (at, from) = IsIn-filter (is_from kind id) (values routes) (IsIn-perm _ l r p i) in
            (load-of_IsIn routes r h at, from),
        λ (there, from). IsIn-perm l _ r (Permᴰ.symm p) (
            IsIn-filter_of (is_from kind id) (values routes) r (IsIn-of_load routes r.id r there)
              from),
      ),
      sort_routes_by_priority-IsOrdered l,
    )

pub rebuild_index-Lists :
    (ri : RouteIndex) (id : ℕ)
    → IsRouteMap ri.routes
    → Lists "token" id ri.routes (routes_of (rebuild_index ri).by_token id)
      × Lists "channel" id ri.routes (routes_of (rebuild_index ri).by_channel id)
unfolding rebuild_index
rebuild_index-Lists ri id h = (
  subst (Lists "token" id ri.routes)
      (sym (routes_of-rebuilt "token" (values ri.routes) ri.by_token id))
      (sorted-Lists "token" id ri.routes h),
  subst (Lists "channel" id ri.routes)
      (sym (routes_of-rebuilt "channel" (values ri.routes) ri.by_channel id))
      (sorted-Lists "channel" id ri.routes h),
)
