-- ===== src/Master/Billing/Slices.antt =====
-- internal/dao/billing.go: one table under a rebuild in slices, each of which deletes rows and
-- replays logs.
use vaala_ai_gateway.Prelude.{
  ℕ, zero, suc, ◌≤◌, ◌<◌, arith, All, ◌≡◌, refl, sym, ap, ◌∙◌, inl, inr, Bool, true, false, List,
  [], ◌∷◌, ◌++◌, Option, none, some, Bool-cases, Option-cases, if◌then◌else◌,
}
use vaala_ai_gateway.Utils.SyncMap.{Comparable}
use vaala_ai_gateway.Master.Billing.{UsageLog}
use vaala_ai_gateway.Master.Billing.Rollup.{Row, Table, upsert_row}
use vaala_ai_gateway.Master.Billing.Aggregator.{Delta}
use vaala_ai_gateway.Master.Billing.Merge

abbrev pub up_to : (ℕ → List UsageLog) → ℕ → List UsageLog
up_to logs zero = []
up_to logs (suc n) = up_to logs n ++ logs n

abbrev pub delta_of : {D M : Type 0} → Row D M → Delta D M
delta_of r = record {
  described = r.described;
  counters = r.counters;
  last_used_at = r.last_used_at;
  updated_at = r.updated_at;
}

module _ (K D M : Type 0) ⦃e : Comparable K⦄ (plus : M → M → M)
    (plus_assoc : (a b c : M) → plus (plus a b) c ≡ plus a (plus b c))
    (table : Table K (Row D M)) where
  abbrev pub shown : table.State → K → Option (Delta D M)
  shown s j = Merge.shown D M plus plus_assoc (table.select s j)

  abbrev pub merged : Option (Delta D M) → Option (Delta D M) → Option (Delta D M)
  merged a b = Merge.merge D M plus plus_assoc a b

  -- What a log adds to a row.
  abbrev pub added : (UsageLog → K) → (UsageLog → Delta D M) → UsageLog → K → Option (Delta D M)
  added key one log j = if e.eqb (key log) j then some (one log) else none

  -- What logs add to a row.
  unfoldable pub total :
      (UsageLog → K) → (UsageLog → Delta D M) → List UsageLog → K → Option (Delta D M)
  total key one [] j = none
  total key one (log ∷ logs) j = merged (added key one log j) (total key one logs j)

  -- An upsert of the row of a log.
  pub upsert_row-added :
      (key : UsageLog → K) (row : UsageLog → Row D M) (log : UsageLog) (s s' : table.State) (j : K)
      → upsert_row table plus s (key log) (row log) ≡ some s'
      → shown s' j ≡ merged (shown s j) (added key (λ l. delta_of (row l)) log j)
  upsert_row-added key row log s s' j h =
      let now = Merge.upsert_row_lem D M plus plus_assoc table s s' (key log) j (row log) h in
      elim (Bool-cases (e.eqb (key log) j)) [
        | inl q ↦
            let same = (e.eqb_iff (key log) j).0 q in
            let now' = rw q at now in
            rw q (now' ∙ ap (λ x. merged (shown s x) (some (delta_of (row log)))) same)
        | inr q ↦
            let now' = rw q at now in
            rw q (now' ∙ sym (Merge.merge-none D M plus plus_assoc (shown s j)))
      ]

  -- One after the other.
  unfoldable pub replay :
      (UsageLog → table.State → Option table.State)
      → List UsageLog
      → table.State
      → Option table.State
  replay up [] s = some s
  replay up (log ∷ logs) s = elim (up log s) [ none ↦ none | some s' ↦ replay up logs s' ]

  unfoldable pub slices :
      (ℕ → table.State → Option table.State)
      → (UsageLog → table.State → Option table.State)
      → (ℕ → List UsageLog)
      → ℕ
      → table.State
      → Option table.State
  unfolding replay
  slices clear up logs zero s = some s
  slices clear up logs (suc n) s = elim (slices clear up logs n s) [
    | none ↦ none
    | some s1 ↦ elim (clear n s1) [ none ↦ none | some s2 ↦ replay up (logs n) s2 ]
  ]

  module _ (key : UsageLog → K) (one : UsageLog → Delta D M)
      (up : UsageLog → table.State → Option table.State)
      (up_lem : (log : UsageLog) (s s' : table.State) (j : K)
        → up log s ≡ some s'
        → shown s' j ≡ merged (shown s j) (added key one log j)) where
    pub replay_lem :
        (logs : List UsageLog) (s s' : table.State) (j : K)
        → replay up logs s ≡ some s'
        → shown s' j ≡ merged (shown s j) (total key one logs j)
    unfolding replay total
    replay_lem [] s s' j h =
        let q : s ≡ s' = cc in
        ap (λ x. shown x j) (sym q) ∙ sym (Merge.merge-none D M plus plus_assoc (shown s j))
    replay_lem (log ∷ logs) s s' j h = elim (Option-cases (up log s)) [
      | inl bad ↦ let h' = rw (bad, replay) at h in absurd (cc)
      | inr (s1, ran) ↦
          let h' = rw (ran, replay) at h in
          replay_lem logs s1 s' j h'
          ∙ ap (λ o. merged o (total key one logs j)) (up_lem log s s1 j ran)
          ∙ Merge.merge_assoc D M plus plus_assoc (shown s j) (added key one log j)
              (total key one logs j)
    ]

    -- Logs of other keys add nothing.
    pub total_none :
        (logs : List UsageLog) (j : K)
        → All (λ log. e.eqb (key log) j ≡ false) logs
        → total key one logs j ≡ none
    unfolding total
    total_none [] j h = refl
    total_none (log ∷ logs) j h = rw (h.0, total_none logs j h.1) refl

    total-append :
        (xs ys : List UsageLog) (j : K)
        → total key one (xs ++ ys) j ≡ merged (total key one xs j) (total key one ys j)
    unfolding total
    total-append [] ys j = refl
    total-append (x ∷ xs) ys j =
        ap (λ o. merged (added key one x j) o) (total-append xs ys j)
        ∙ sym (
            Merge.merge_assoc D M plus plus_assoc (added key one x j) (total key one xs j)
              (total key one ys j))

    module _ (clear : ℕ → table.State → Option table.State) (cleared done : ℕ → K → Bool)
        (logs : ℕ → List UsageLog) (bound : ℕ)
        (clear_lem : (n : ℕ) (s s' : table.State) (j : K)
          → clear n s ≡ some s'
          → shown s' j ≡ (if cleared n j then none else shown s j))
        (none_before : (n : ℕ) (j : K)
          → n < bound
          → cleared n j ≡ true
          → total key one (up_to logs n) j ≡ none)
        (done_before : (n : ℕ) (j : K)
          → n < bound
          → done (suc n) j ≡ true
          → cleared n j ≡ false
          → done n j ≡ true)
        (open_before : (n : ℕ) (j : K)
          → n < bound
          → done (suc n) j ≡ false
          → (cleared n j ≡ false) × (done n j ≡ false) × (total key one (logs n) j ≡ none))
        (none_done : (j : K) → done zero j ≡ false) where
      -- A row that is done holds what the logs up to there add, any other row is as before.
      pub slices_lem :
          (n : ℕ) (s s' : table.State) (j : K)
          → n ≤ bound
          → slices clear up logs n s ≡ some s'
          → shown s' j ≡ (if done n j then total key one (up_to logs n) j else shown s j)
      unfolding slices
      slices_lem zero s s' j b h =
          let q : s ≡ s' = cc in rw (none_done j) (ap (λ x. shown x j) (sym q))
      slices_lem (suc n) s s' j b h = elim (Option-cases (slices clear up logs n s)) [
        | inl bad ↦ let h' = rw (bad, slices) at h in absurd (cc)
        | inr (s1, ran1) ↦ elim (Option-cases (clear n s1)) [
          | inl bad ↦ let h' = rw (ran1, bad, slices) at h in absurd (cc)
          | inr (s2, ran2) ↦
              let h' = rw (ran1, ran2, slices) at h in
              step s1 s2 (slices_lem n s s1 j (omega arith) ran1) ran2 h'
        ]
      ]
        where
          step :
              (s1 s2 : table.State)
              → shown s1 j ≡ (if done n j then total key one (up_to logs n) j else shown s j)
              → clear n s1 ≡ some s2
              → replay up (logs n) s2 ≡ some s'
              → shown s' j
                ≡ (if done (suc n) j then total key one (up_to logs (suc n)) j else shown s j)
          step s1 s2 before ran2 ran3 =
              let now = replay_lem (logs n) s2 s' j ran3 in
              let fresh = clear_lem n s1 s2 j ran2 in
              elim (Bool-cases (done (suc n) j)) [
                | inl d ↦ rw d (
                    now
                    ∙ ap (λ o. merged o (total key one (logs n) j))
                        (elim (Bool-cases (cleared n j)) [
                          | inl c ↦
                              let fresh' = rw c at fresh in
                              fresh' ∙ sym (none_before n j (omega arith) c)
                          | inr c ↦
                              let fresh' = rw c at fresh in
                              let before' = rw (done_before n j (omega arith) d c) at before in
                              fresh' ∙ before'
                        ])
                    ∙ sym (total-append (up_to logs n) (logs n) j))
                | inr d ↦
                    let (c, d0, nothing) = open_before n j (omega arith) d in
                    let fresh' = rw c at fresh in
                    let before' = rw d0 at before in
                    rw d (
                      now
                      ∙ ap (λ o. merged (shown s2 j) o) nothing
                      ∙ Merge.merge-none D M plus plus_assoc (shown s2 j)
                      ∙ fresh'
                      ∙ before')
              ]
