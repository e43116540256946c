-- ===== src/Relay/Plan/Order.antt =====
-- internal/agent/relay/pipeline/plan/sort.go: the order in which the candidates are tried.
pub mod Shuffle
pub mod Sorted
use vaala_ai_gateway.Prelude.{
  ℕ, zero, suc, ◌+◌, ◌-◌, ◌<◌, ◌≤◌, ◌≡◌, ℤ, pos, eq_ℤ, ltb_ℤ, ltb, Bool, true, false, ◌&&◌, ◌||◌,
  not, Option, none, some, List, [], ◌∷◌, ◌++◌, if◌then◌else◌, filter, length, ◌==◌,
}
use vaala_ai_gateway.Prelude.Sort.{SliceSort}
use vaala_ai_gateway.Relay.Random.{Random}
use vaala_ai_gateway.Relay.State.{ChannelSource, admin, private, source_eq}
use vaala_ai_gateway.Relay.Plan.{ScoredCandidate}

abbrev pub status_enabled : ℤ
status_enabled = pos 1

unfoldable pub source_rank : ChannelSource → ℕ
source_rank private = 0
source_rank admin = 1

-- The comparison of `sortByPriorityDesc`: the source's rank, then the higher priority.
unfoldable pub comes_before : ScoredCandidate → ScoredCandidate → Bool
unfolding source_rank
comes_before a b =
    if source_rank a.source == source_rank b.source
    then ltb_ℤ b.channel.priority a.channel.priority
    else ltb (source_rank a.source) (source_rank b.source)

-- `int(weight)`, with a weight of zero or less taken as 1. A `uint` from 2 ^ 63 on is negative.
unfoldable pub weight_of : ScoredCandidate → ℕ
weight_of sc =
    if ltb 0 sc.channel.weight && ltb sc.channel.weight 9223372036854775808
    then sc.channel.weight
    else 1

unfoldable pub total_weight : List ScoredCandidate → ℕ
unfolding weight_of
total_weight [] = 0
total_weight (sc ∷ scs) = weight_of sc + total_weight scs

-- The loop that subtracts the weights from `r`: the index `k` at which `r` falls below zero, and 0
-- (`pick := 0`) if it never does.
unfoldable pub pick_index : ℕ → ℕ → List ScoredCandidate → ℕ
unfolding weight_of
pick_index r k [] = 0
pick_index r k (sc ∷ scs) =
    let later = pick_index (r - weight_of sc) (k + 1) scs in
    if ltb r (weight_of sc) then k else later

-- `remaining[pick]`, and `remaining` without it; `none` is an index out of range.
unfoldable pub take_at : ℕ → List ScoredCandidate → Option (ScoredCandidate × List ScoredCandidate)
take_at i [] = none
take_at zero (sc ∷ scs) = some (sc, scs)
take_at (suc i) (sc ∷ scs) = elim (take_at i scs) [
  | none ↦ none
  | some (picked, rest) ↦ some (picked, sc ∷ rest)
]

-- Candidates of one group: the window of `Sort`'s inner loop.
abbrev pub same_group : ScoredCandidate → ScoredCandidate → Bool
same_group a b = source_eq a.source b.source && eq_ℤ a.channel.priority b.channel.priority

module _ (rand : Random) where
  open rand use {Seed, intn}

  -- The `for len(remaining) > 0` of `weightedShuffle`. `none` means that the fuel ran out, or an
  -- index was out of range.
  unfoldable pub draw_all : ℕ → List ScoredCandidate → Seed → Option (List ScoredCandidate × Seed)
  unfolding total_weight pick_index take_at
  draw_all fuel [] seed = some ([], seed)
  draw_all zero (sc ∷ scs) seed = none
  draw_all (suc fuel) (sc ∷ scs) seed =
      let (r, seed') = intn (total_weight (sc ∷ scs)) seed in
      elim (take_at (pick_index r 0 (sc ∷ scs)) (sc ∷ scs)) [
        | none ↦ none
        | some (picked, rest) ↦ elim (draw_all fuel rest seed') [
          | none ↦ none
          | some (out, seed'') ↦ some (picked ∷ out, seed'')
        ]
      ]

  -- A single candidate takes no draw.
  unfoldable pub weighted_shuffle :
      List ScoredCandidate → Seed → Option (List ScoredCandidate × Seed)
  unfolding draw_all
  weighted_shuffle [] seed = some ([], seed)
  weighted_shuffle (sc ∷ []) seed = some (sc ∷ [], seed)
  weighted_shuffle (sc ∷ next ∷ scs) seed =
      draw_all (length (sc ∷ next ∷ scs)) (sc ∷ next ∷ scs) seed

  -- The loop over the groups of `Sort`: `first ∷ window` is `enabled[i:j]`, and the list is what
  -- stands from `j` on.
  unfoldable pub shuffle_groups :
      ScoredCandidate
      → List ScoredCandidate
      → List ScoredCandidate
      → Seed
      → Option (List ScoredCandidate × Seed)
  unfolding weighted_shuffle
  shuffle_groups first window [] seed = weighted_shuffle (first ∷ window) seed
  shuffle_groups first window (sc ∷ scs) seed = elim (same_group sc first) [
    | true ↦ shuffle_groups first (window ++ sc ∷ []) scs seed
    | false ↦ elim (weighted_shuffle (first ∷ window) seed) [
      | none ↦ none
      | some (group, seed') ↦ elim (shuffle_groups sc [] scs seed') [
        | none ↦ none
        | some (out, seed'') ↦ some (group ++ out, seed'')
      ]
    ]
  ]

  shuffle_sorted : List ScoredCandidate → Seed → Option (List ScoredCandidate × Seed)
  unfolding shuffle_groups
  shuffle_sorted [] seed = some ([], seed)
  shuffle_sorted (sc ∷ scs) seed = shuffle_groups sc [] scs seed

  -- `slices` is Go's `sort.Slice`.
  unfoldable pub sort :
      SliceSort ScoredCandidate → List ScoredCandidate → Seed → Option (List ScoredCandidate × Seed)
  unfolding shuffle_sorted comes_before
  sort slices cands seed =
      shuffle_sorted
        (slices.sort_slice comes_before
          (filter (λ sc. eq_ℤ sc.channel.status status_enabled) cands))
        seed
