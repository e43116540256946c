-- ===== src/Utils/SyncMap.antt =====
-- internal/pkg/utils/syncmap.go: the typed map behind a mutex. Each method runs under the lock, so
-- it is a function of the map's contents: a list of entries, in the order in which Go's `range`
-- happens to visit them. The nil map of the zero value is the empty list.
pub mod Unique
use vaala_ai_gateway.Prelude.{
  ◌≡◌, refl, ◌↔◌, Bool, true, false, List, [], ◌∷◌, map, Option, none, some, arith, if◌then◌else◌,
}

-- Go's `==` on a comparable key type.
pub record Comparable {ℓ} (K : Type ℓ) : Type ℓ where
  pub eqb : K → K → Bool
  pub eqb_iff : (a b : K) → (eqb a b ≡ true) ↔ (a ≡ b)

module _ {ℓ} {K V : Type ℓ} ⦃e : Comparable K⦄ where
  unfoldable pub load : List (K × V) → K → Option V
  load [] k = none
  load ((j, v) ∷ m) k = if e.eqb j k then some v else load m k

  -- Named `put`, for Go's `Store`.
  unfoldable pub put : List (K × V) → K → V → List (K × V)
  put [] k v = (k, v) ∷ []
  put ((j, w) ∷ m) k v = if e.eqb j k then (k, v) ∷ m else (j, w) ∷ put m k v

  unfoldable pub delete : List (K × V) → K → List (K × V)
  delete [] k = []
  delete ((j, w) ∷ m) k = if e.eqb j k then delete m k else (j, w) ∷ delete m k

  -- The value that is in the map afterwards, and whether it was there.
  unfoldable pub load_or_store : List (K × V) → K → V → List (K × V) × V × Bool
  unfolding load put
  load_or_store m k v = elim (load m k) [
    | some actual ↦ (m, actual, true)
    | none ↦ (put m k v, v, false)
  ]

  unfoldable pub load_and_delete : List (K × V) → K → List (K × V) × Option V
  unfolding load delete
  load_and_delete m k = elim (load m k) [ some v ↦ (delete m k, some v) | none ↦ (m, none) ]

  abbrev pub keys : List (K × V) → List K
  keys m = map (λ entry. entry.0) m

  -- A `Range` over the keys that were there whose callback loads the current value of the key and
  -- deletes it when `stale` holds of that value.
  unfoldable pub sweep : (V → Bool) → List K → List (K × V) → List (K × V)
  unfolding load delete
  sweep stale [] m = m
  sweep stale (k ∷ ks) m =
      sweep stale ks (elim (load m k) [ some v ↦ if stale v then delete m k else m | none ↦ m ])

  pub load-put :
      (m : List (K × V)) (k j : K) (v : V)
      → load (put m k v) j ≡ (if e.eqb k j then some v else load m j)
  unfolding load put
  load-put [] k j v = refl
  load-put ((i, w) ∷ m) k j v =
      ground (arith, e.eqb_iff k j, e.eqb_iff i k, e.eqb_iff i j, load-put m k j v)

  pub load-delete :
      (m : List (K × V)) (k j : K) → load (delete m k) j ≡ (if e.eqb k j then none else load m j)
  unfolding load delete
  load-delete [] k j = ground arith
  load-delete ((i, w) ∷ m) k j =
      ground (arith, e.eqb_iff k j, e.eqb_iff i k, e.eqb_iff i j, load-delete m k j)

  -- What a sweep over the keys leaves: an entry that is stale goes if its key is visited.
  pub load-sweep :
      (stale : V → Bool) (ks : List K) (m : List (K × V)) (j : K) (v : V)
      → load m j ≡ some v
      → stale v ≡ false
      → load (sweep stale ks m) j ≡ some v
  unfolding sweep
  load-sweep stale [] m j v h s = h
  load-sweep stale (k ∷ ks) m j v h s =
      load-sweep stale ks _ j v (ground (arith, load-delete m k j, e.eqb_iff k j)) s
