-- ===== src/Agent/RouteIndex/Priority.antt =====
-- internal/agent/cache/route_index.go: `sortRoutesByPriority` sorts.
use vaala_ai_gateway.Prelude.{
  ℕ, zero, suc, ◌≤◌, ◌≡◌, refl, ap, false, List, [], ◌∷◌, arith, length, All, inl, inr,
  if◌then◌else◌, Bool-cases,
}
use vaala_ai_gateway.Prelude.Sort.{IsOrdered}
use mathlib.Core.List.Permᴰ
use mathlib.Core.List.{Permᴰ}
use vaala_ai_gateway.Agent.RouteIndex.{AgentRoute}
use vaala_ai_gateway.Agent.RouteIndex.Rebuild.{
  is_higher, exchange, exchange_rounds, sort_routes_by_priority,
}

exchange-perm :
    (x : AgentRoute) (xs : List AgentRoute) → Permᴰ ((exchange x xs).0 ∷ (exchange x xs).1) (x ∷ xs)
unfolding exchange
exchange-perm x [] = Permᴰ.refl (x ∷ [])
exchange-perm x (y ∷ ys) = elim (Bool-cases (is_higher y x)) [
  | inl e ↦ rw e (
      Permᴰ.trans (Permᴰ.swap refl refl)
        (Permᴰ.trans (Permᴰ.cons refl (exchange-perm y ys)) (Permᴰ.refl _)))
  | inr e ↦ rw e (
      Permᴰ.trans (Permᴰ.swap refl refl)
        (Permᴰ.trans (Permᴰ.cons refl (exchange-perm x ys)) (Permᴰ.swap refl refl)))
]

highest_step :
    (x y best : AgentRoute)
    → is_higher (if is_higher y x then y else x) best ≡ false
    → (is_higher x best ≡ false) × (is_higher (if is_higher y x then x else y) best ≡ false)
highest_step x y best h = elim (Bool-cases (is_higher y x)) [
  | inl e ↦ let k = rw e at h in rw e (ground (arith, k, e), ground (arith, k, e))
  | inr e ↦ let k = rw e at h in rw e (k, ground (arith, k, e))
]

-- No element behind the chosen one is higher, and neither is the one that stood there.
exchange-highest :
    (x : AgentRoute) (xs : List AgentRoute)
    → (is_higher x (exchange x xs).0 ≡ false)
      × All (λ y. is_higher y (exchange x xs).0 ≡ false) (exchange x xs).1
unfolding exchange
exchange-highest x [] = (ground arith, tt)
exchange-highest x (y ∷ ys) =
    let w = if is_higher y x then y else x in
    let (w_below, rest_below) = exchange-highest w ys in
    let (x_below, v_below) = highest_step x y (exchange w ys).0 w_below in
    (x_below, (v_below, rest_below))

exchange-All :
    (P : AgentRoute → Type 0) (x : AgentRoute) (xs : List AgentRoute)
    → P x
    → All P xs
    → P (exchange x xs).0 × All P (exchange x xs).1
unfolding exchange
exchange-All P x [] p h = (p, tt)
exchange-All P x (y ∷ ys) p h = elim (Bool-cases (is_higher y x)) [
  | inl e ↦ rw e (let k = exchange-All P y ys h.0 h.1 in (k.0, (p, k.1)))
  | inr e ↦ rw e (let k = exchange-All P x ys p h.1 in (k.0, (h.0, k.1)))
]

exchange_rounds-All :
    (P : AgentRoute → Type 0) (n : ℕ) (l : List AgentRoute) → All P l → All P (exchange_rounds n l)
unfolding exchange_rounds
exchange_rounds-All P zero l h = h
exchange_rounds-All P (suc n) [] h = tt
exchange_rounds-All P (suc n) (x ∷ xs) h =
    let k = exchange-All P x xs h.0 h.1 in (k.0, exchange_rounds-All P n (exchange x xs).1 k.1)

length-exchange : (x : AgentRoute) (xs : List AgentRoute) → length (exchange x xs).1 ≡ length xs
unfolding exchange
length-exchange x [] = refl
length-exchange x (y ∷ ys) = ap suc (length-exchange (if is_higher y x then y else x) ys)

exchange_rounds-perm : (n : ℕ) (l : List AgentRoute) → Permᴰ (exchange_rounds n l) l
unfolding exchange_rounds
exchange_rounds-perm zero l = Permᴰ.refl l
exchange_rounds-perm (suc n) [] = Permᴰ.nil
exchange_rounds-perm (suc n) (x ∷ xs) =
    Permᴰ.trans (Permᴰ.cons refl (exchange_rounds-perm n (exchange x xs).1)) (exchange-perm x xs)

exchange_rounds-IsOrdered :
    (n : ℕ) (l : List AgentRoute) → length l ≤ n → IsOrdered is_higher (exchange_rounds n l)
unfolding exchange_rounds
exchange_rounds-IsOrdered zero [] h = tt
exchange_rounds-IsOrdered zero (x ∷ xs) h = absurd (omega arith)
exchange_rounds-IsOrdered (suc n) [] h = tt
exchange_rounds-IsOrdered (suc n) (x ∷ xs) h = (
  exchange_rounds-All (λ y. is_higher y (exchange x xs).0 ≡ false) n (exchange x xs).1
      (exchange-highest x xs).1,
  exchange_rounds-IsOrdered n (exchange x xs).1 (omega (arith, length-exchange x xs)),
)

pub sort_routes_by_priority-perm : (l : List AgentRoute) → Permᴰ (sort_routes_by_priority l) l
unfolding sort_routes_by_priority
sort_routes_by_priority-perm l = exchange_rounds-perm (length l) l

pub sort_routes_by_priority-IsOrdered :
    (l : List AgentRoute) → IsOrdered is_higher (sort_routes_by_priority l)
unfolding sort_routes_by_priority
sort_routes_by_priority-IsOrdered l = exchange_rounds-IsOrdered (length l) l (omega arith)
