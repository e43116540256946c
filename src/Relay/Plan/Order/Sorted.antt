-- ===== src/Relay/Plan/Order/Sorted.antt =====
-- internal/agent/relay/pipeline/plan/sort.go: the whole order. Private candidates stand before
-- shared ones, and higher priorities before lower ones, whatever the draws.
use vaala_ai_gateway.Prelude.{
  ◌≡◌, refl, subst, true, false, List, [], ◌∷◌, ◌++◌, some, arith, Bool-cases, All, All-mono,
  All-perm, All-concat, filter, eq_ℤ, ◌≤ℤ◌, ℤ, ltb_ℤ, ltb, ◌==◌, if◌then◌else◌, inl, inr,
}
use vaala_ai_gateway.Prelude.Sort.{SliceSort, IsOrdered, IsStrictWeak}
use mathlib.Core.List.{append_assoc, append-nil}
use mathlib.Core.List.Permᴰ
use mathlib.Core.List.{Permᴰ}
use vaala_ai_gateway.Relay.Random.{Random}
use vaala_ai_gateway.Relay.State.{ChannelSource, admin, private}
use vaala_ai_gateway.Relay.Plan.{ScoredCandidate}
use vaala_ai_gateway.Relay.Plan.Order.{
  source_rank, comes_before, same_group, status_enabled, shuffle_groups, shuffle_sorted, sort,
}
use vaala_ai_gateway.Relay.Plan.Order.Shuffle.{weighted_shuffle-perm}

-- Behind a shared candidate stand shared ones only, and behind a candidate none of its source with
-- a higher priority.
abbrev pub MayPrecede : ScoredCandidate → ScoredCandidate → Type 0
MayPrecede a b =
    (a.source ≡ admin → b.source ≡ admin)
    × (a.source ≡ b.source → b.channel.priority ≤ℤ a.channel.priority)

abbrev pub IsDescending : List ScoredCandidate → Type 0
IsDescending [] = Unit
IsDescending (x ∷ xs) = All (MayPrecede x) xs × IsDescending xs

MayPrecede-of_ranks :
    (p q : ChannelSource) (x y : ℤ)
    → (if source_rank q == source_rank p then ltb_ℤ x y else ltb (source_rank q) (source_rank p))
      ≡ false
    → (p ≡ admin → q ≡ admin) × (p ≡ q → y ≤ℤ x)
unfolding source_rank
MayPrecede-of_ranks admin admin x y h = (λ e. refl, λ e. ground (arith, h))
MayPrecede-of_ranks private private x y h = (λ e. e, λ e. ground (arith, h))
MayPrecede-of_ranks admin private x y h = absurd (ground (arith, h))
MayPrecede-of_ranks private admin x y h = (λ e. refl, λ e. absurd (cc))

MayPrecede-of-comes_before : (a b : ScoredCandidate) → comes_before b a ≡ false → MayPrecede a b
unfolding comes_before
MayPrecede-of-comes_before a b h =
    MayPrecede-of_ranks a.source b.source a.channel.priority b.channel.priority h

IsDescending-of-IsOrdered :
    (xs : List ScoredCandidate) → IsOrdered comes_before xs → IsDescending xs
IsDescending-of-IsOrdered [] h = tt
IsDescending-of-IsOrdered (x ∷ xs) h = (
  All-mono _ (MayPrecede x) xs (λ y. MayPrecede-of-comes_before x y) h.0,
  IsDescending-of-IsOrdered xs h.1,
)

-- The comparison is a strict weak order.
comes_before_asym : (a b : ScoredCandidate) → comes_before a b ≡ true → comes_before b a ≡ false
unfolding comes_before
comes_before_asym a b h = ground arith

comes_before_neg_trans :
    (a b c : ScoredCandidate)
    → comes_before a b ≡ false
    → comes_before b c ≡ false
    → comes_before a c ≡ false
unfolding comes_before
comes_before_neg_trans a b c h k = ground arith

comes_before_weak : IsStrictWeak comes_before
comes_before_weak = record { asym = comes_before_asym; neg_trans = comes_before_neg_trans }

-- The candidates of one group are not told apart by the comparison.
group_alike :
    (a first y : ScoredCandidate)
    → same_group a first ≡ true
    → comes_before y first ≡ false
    → comes_before y a ≡ false
unfolding comes_before
group_alike a first y g h = ground arith

IsOrdered-of_group :
    (first : ScoredCandidate) (xs : List ScoredCandidate)
    → All (λ a. same_group a first ≡ true) xs
    → IsOrdered comes_before xs
IsOrdered-of_group first [] h = tt
IsOrdered-of_group first (x ∷ xs) h = (
  All-mono _ (λ y. comes_before y x ≡ false) xs (λ y g. same x y h.0 g) h.1,
  IsOrdered-of_group first xs h.1,
)
  where
    same :
        (a b : ScoredCandidate)
        → same_group a first ≡ true
        → same_group b first ≡ true
        → comes_before b a ≡ false
    same a b g k = unfold comes_before in ground arith

IsOrdered-append :
    (xs ys : List ScoredCandidate)
    → IsOrdered comes_before xs
    → IsOrdered comes_before ys
    → All (λ x. All (λ y. comes_before y x ≡ false) ys) xs
    → IsOrdered comes_before (xs ++ ys)
IsOrdered-append [] ys h k c = k
IsOrdered-append (x ∷ xs) ys h k c = (All-concat _ xs ys h.0 c.0, IsOrdered-append xs ys h.1 k c.1)

same_group_refl : (a : ScoredCandidate) → same_group a a ≡ true
same_group_refl a = ground arith

module _ (rand : Random) where
  shuffle_groups_lem :
      (first : ScoredCandidate) (window rest : List ScoredCandidate) (seed : rand.Seed)
      → All (λ a. same_group a first ≡ true) window
      → All (λ y. comes_before y first ≡ false) rest
      → IsOrdered comes_before rest
      → (out : List ScoredCandidate) × (seed' : rand.Seed) × (shuffle_groups rand first window rest
            seed
          ≡ some (out, seed'))
        × Permᴰ out (first ∷ window ++ rest)
        × IsOrdered comes_before out
  unfolding shuffle_groups
  shuffle_groups_lem first window [] seed alike below ordered =
      let (out, seed', ran, p) = weighted_shuffle-perm rand (first ∷ window) seed in
      rw append-nil (
        out,
        seed',
        ran,
        p,
        IsOrdered-of_group first out (All-perm _ (Permᴰ.symm p) (same_group_refl first, alike)),
      )
  shuffle_groups_lem first window (sc ∷ scs) seed alike below ordered =
      elim (Bool-cases (same_group sc first)) [
        | inl e ↦
            let (out, seed', ran, p, o) =
              shuffle_groups_lem first (window ++ sc ∷ []) scs seed
                (All-concat _ window (sc ∷ []) alike (e, tt)) below.1 ordered.1 in
            rw (e, shuffle_groups)
              (
                out,
                seed',
                ran,
                subst (λ l. Permᴰ out (first ∷ l)) (append_assoc window (sc ∷ []) scs) p,
                o,
              )
        | inr e ↦
            let (group, seed', ran, p) = weighted_shuffle-perm rand (first ∷ window) seed in
            let (out, seed'', ran', q, o) =
              shuffle_groups_lem sc [] scs seed' tt ordered.0 ordered.1 in
            let same =
              All-perm (λ a. same_group a first ≡ true) (Permᴰ.symm p)
                (same_group_refl first, alike) in
            rw (e, ran, ran', shuffle_groups)
              (
                group ++ out,
                seed'',
                refl,
                Permᴰ.trans (Permᴰ.append_right out p) (Permᴰ.append_left (first ∷ window) q),
                IsOrdered-append group out (IsOrdered-of_group first group same) o (
                    All-mono _ (λ x. All (λ y. comes_before y x ≡ false) out) group
                      (λ a g.
                        All-mono _ (λ y. comes_before y a ≡ false) out
                          (λ y b. group_alike a first y g b)
                          (All-perm (λ y. comes_before y first ≡ false) (Permᴰ.symm q) below))
                      same),
              )
      ]

  shuffle_sorted_lem :
      (cands : List ScoredCandidate) (seed : rand.Seed)
      → IsOrdered comes_before cands
      → (out : List ScoredCandidate) × (seed' : rand.Seed) × (shuffle_sorted rand cands seed
          ≡ some (out, seed'))
        × Permᴰ out cands
        × IsOrdered comes_before out
  unfolding shuffle_sorted
  shuffle_sorted_lem [] seed h = ([], seed, refl, Permᴰ.nil, tt)
  shuffle_sorted_lem (sc ∷ scs) seed h = shuffle_groups_lem sc [] scs seed tt h.0 h.1

  -- Whatever the draws, `Sort` returns the enabled candidates, each as often as before: private ones
  -- stand before shared ones, and among those of one source the higher priorities before the lower
  -- ones.
  pub sort-perm-IsDescending :
      (slices : SliceSort ScoredCandidate) (cands : List ScoredCandidate) (seed : rand.Seed)
      → (out : List ScoredCandidate) × (seed' : rand.Seed) × (sort rand slices cands seed
          ≡ some (out, seed'))
        × Permᴰ out (filter (λ sc. eq_ℤ sc.channel.status status_enabled) cands)
        × IsDescending out
  unfolding sort
  sort-perm-IsDescending slices cands seed =
      let enabled =
        filter (λ (sc : ScoredCandidate). eq_ℤ sc.channel.status status_enabled) cands in
      let (out, seed', ran, p, o) =
        shuffle_sorted_lem (slices.sort_slice comes_before enabled) seed
          (slices.sort_slice-IsOrdered comes_before enabled comes_before_weak) in
      (
        out,
        seed',
        ran,
        Permᴰ.trans p (slices.sort_slice-perm comes_before enabled),
        IsDescending-of-IsOrdered out o,
      )
