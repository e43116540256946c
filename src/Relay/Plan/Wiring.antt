-- ===== src/Relay/Plan/Wiring.antt =====
-- internal/agent/relay/pipeline/plan: `priorityWeightedSorter` and the default pool as the
-- components of the solver.
use vaala_ai_gateway.Prelude.{◌≡◌, List, some, IsIn, All-of_IsIn, All-IsIn, All-perm, IsIn-filter}
use vaala_ai_gateway.Prelude.Sort.{SliceSort}
use mathlib.Core.List.Permᴰ
use vaala_ai_gateway.Relay.Random.{Random}
use vaala_ai_gateway.Relay.Plan.{ScoredCandidate}
use vaala_ai_gateway.Relay.Plan.Order.{sort}
use vaala_ai_gateway.Relay.Plan.Order.Sorted.{sort-perm-IsDescending}
use vaala_ai_gateway.Relay.Plan.Solve.{Sorter}

module _ (rand : Random) (slices : SliceSort ScoredCandidate) where
  pub sort_returns_some :
      (cands : List ScoredCandidate) (seed : rand.Seed)
      → (out : List ScoredCandidate) × (seed' : rand.Seed) × (sort rand slices cands seed
          ≡ some (out, seed'))
        × ((sc : ScoredCandidate) → IsIn sc out → IsIn sc cands)
  sort_returns_some cands seed =
      let (out, seed', ran, p, ordered) = sort-perm-IsDescending rand slices cands seed in
      (
        out,
        seed',
        ran,
        All-IsIn (λ sc. IsIn sc cands) out
            (All-perm (λ sc. IsIn sc cands) (Permᴰ.symm p)
              (All-of_IsIn (λ sc. IsIn sc cands) _ (λ sc i. (IsIn-filter _ cands i).0))),
      )

  -- `Sort` keeps the sorter's law.
  abbrev pub priority_weighted_sorter : Sorter rand
  priority_weighted_sorter = record { sort = sort rand slices; sort_returns = sort_returns_some }
