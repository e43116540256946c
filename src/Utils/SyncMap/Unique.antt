-- ===== src/Utils/SyncMap/Unique.antt =====
-- internal/pkg/utils/syncmap.go: a map has each key once.
use vaala_ai_gateway.Prelude.{◌≡◌, refl, sym, inl, inr, List, [], ◌∷◌, none, arith, Bool-cases}
use vaala_ai_gateway.Utils.SyncMap.{Comparable, load, put, load-put}

module _ {ℓ} {K V : Type ℓ} ⦃e : Comparable K⦄ where
  abbrev pub IsUnique : List (K × V) → Type ℓ
  IsUnique [] = Unit
  IsUnique ((k, v) ∷ m) = (load m k ≡ none) × IsUnique m

  pub put-IsUnique : (m : List (K × V)) (k : K) (v : V) → IsUnique m → IsUnique (put m k v)
  unfolding put load
  put-IsUnique [] k v h = (refl, tt)
  put-IsUnique ((j, w) ∷ m) k v h = elim (Bool-cases (e.eqb j k)) [
    | inl same ↦ rw same (let q = (e.eqb_iff j k).0 same in rw (sym q) h.0, h.1)
    | inr other ↦ rw other (
      ground (arith, load-put m k j v, e.eqb_iff k j, e.eqb_iff j k, h.0),
      put-IsUnique m k v h.1,
    )
  ]
