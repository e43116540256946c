-- ===== src/Relay/Plan/Order/Shuffle.antt =====
-- internal/agent/relay/pipeline/plan/sort.go: `weightedShuffle` returns a permutation.
use vaala_ai_gateway.Prelude.{
  ℕ, zero, suc, ◌+◌, ◌-◌, ◌<◌, ◌≤◌, ◌≡◌, refl, ◌⊎◌, inl, List, [], ◌∷◌, some, arith, length,
}
use mathlib.Core.List.Permᴰ
use mathlib.Core.List.{Permᴰ}
use vaala_ai_gateway.Relay.Random.{Random}
use vaala_ai_gateway.Relay.Plan.{ScoredCandidate}
use vaala_ai_gateway.Relay.Plan.Order.{
  weight_of, pick_index, take_at, total_weight, draw_all, weighted_shuffle,
}

pick_index_bounds :
    (r k : ℕ) (scs : List ScoredCandidate)
    → (pick_index r k scs ≡ 0) ⊎ (pick_index r k scs < k + length scs)
unfolding pick_index
pick_index_bounds r k [] = inl refl
pick_index_bounds r k (sc ∷ scs) = ground (arith, pick_index_bounds (r - weight_of sc) (k + 1) scs)

take_at_lem :
    (i : ℕ) (scs : List ScoredCandidate)
    → i < length scs
    → (picked : ScoredCandidate) × (rest : List ScoredCandidate) × (take_at i scs
        ≡ some (picked, rest))
      × Permᴰ (picked ∷ rest) scs
      × (length rest + 1 ≡ length scs)
unfolding take_at
take_at_lem i [] h = absurd (omega arith)
take_at_lem zero (sc ∷ scs) h = (sc, scs, refl, Permᴰ.refl (sc ∷ scs), omega arith)
take_at_lem (suc i) (sc ∷ scs) h =
    let (picked, rest, e, p, n) = take_at_lem i scs (omega arith) in
    rw e
      (picked, sc ∷ rest, refl, Permᴰ.trans (Permᴰ.swap refl refl) (Permᴰ.cons refl p), omega arith)

module _ (rand : Random) where
  draw_all_lem :
      (fuel : ℕ) (scs : List ScoredCandidate) (seed : rand.Seed)
      → length scs ≤ fuel
      → (out : List ScoredCandidate) × (seed' : rand.Seed) × (draw_all rand fuel scs seed
          ≡ some (out, seed'))
        × Permᴰ out scs
  unfolding draw_all
  draw_all_lem zero [] seed h = ([], seed, refl, Permᴰ.nil)
  draw_all_lem zero (sc ∷ scs) seed h = absurd (omega arith)
  draw_all_lem (suc fuel) [] seed h = ([], seed, refl, Permᴰ.nil)
  draw_all_lem (suc fuel) (sc ∷ scs) seed h =
      let draw = rand.intn (total_weight (sc ∷ scs)) seed in
      let (picked, rest, e, p, n) =
        take_at_lem (pick_index draw.0 0 (sc ∷ scs)) (sc ∷ scs)
          (omega (arith, pick_index_bounds draw.0 0 (sc ∷ scs))) in
      let (out, seed', ran, q) = draw_all_lem fuel rest draw.1 (omega arith) in
      rw (e, ran, draw_all) (picked ∷ out, seed', refl, Permᴰ.trans (Permᴰ.cons refl q) p)

  -- The shuffle always returns, with the candidates of the group in some order.
  pub weighted_shuffle-perm :
      (group : List ScoredCandidate) (seed : rand.Seed)
      → (out : List ScoredCandidate) × (seed' : rand.Seed) × (weighted_shuffle rand group seed
          ≡ some (out, seed'))
        × Permᴰ out group
  unfolding weighted_shuffle
  weighted_shuffle-perm [] seed = ([], seed, refl, Permᴰ.nil)
  weighted_shuffle-perm (sc ∷ []) seed = (sc ∷ [], seed, refl, Permᴰ.refl (sc ∷ []))
  weighted_shuffle-perm (sc ∷ next ∷ scs) seed =
      draw_all_lem (length (sc ∷ next ∷ scs)) (sc ∷ next ∷ scs) seed (omega arith)
