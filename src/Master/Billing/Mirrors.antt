-- ===== src/Master/Billing/Mirrors.antt =====
-- internal/master/billing/aggregator.go and internal/dao/billing.go: one buffer and its table
-- against a table to which each log is added on its own.
use vaala_ai_gateway.Prelude.{ℕ, ◌≡◌, sym, ap, ◌∙◌, inl, inr, List, [], some, Bool-cases}
use vaala_ai_gateway.Utils.SyncMap.{Comparable, load}
use vaala_ai_gateway.Utils.SyncMap.Unique.{IsUnique}
use vaala_ai_gateway.Master.Billing.Rollup.{Row, Table, upsert_row, row_at, batch_upsert}
use vaala_ai_gateway.Master.Billing.Aggregator.{Delta, accumulate}
use vaala_ai_gateway.Master.Billing.Wiring.{rows_of}
use vaala_ai_gateway.Master.Billing.Merge

module _ (D M : Type 0) (plus : M → M → M)
    (plus_assoc : (a b c : M) → plus (plus a b) c ≡ plus a (plus b c)) where
  -- The table `t` shows what the table `s` shows with the buffer added to it.
  abbrev pub Mirrors :
      {K : Type 0} ⦃e : Comparable K⦄ (table : Table K (Row D M))
      → table.State
      → List (K × Delta D M)
      → table.State
      → Type 0
  Mirrors {K} table s l t =
      (j : K)
      → Merge.shown D M plus plus_assoc (table.select t j)
        ≡ Merge.merge D M plus plus_assoc (Merge.shown D M plus plus_assoc (table.select s j))
            (load l j)

  pub Mirrors-flush :
      {K : Type 0} ⦃e : Comparable K⦄ (table : Table K (Row D M)) (s s' t : table.State)
      (l : List (K × Delta D M))
      → Mirrors table s l t
      → IsUnique l
      → batch_upsert table plus s (rows_of l) ≡ some s'
      → Mirrors table s' [] t
  unfolding load
  Mirrors-flush table s s' t l mirrors unique ran j =
      mirrors j
      ∙ sym (Merge.batch_upsert_lem D M plus plus_assoc table l s s' j unique ran)
      ∙ sym (Merge.merge-none D M plus plus_assoc _)

  module _ (IsNormal : M → Type 0) (plus-IsNormal : (a b : M) → IsNormal (plus a b))
      (zero : Delta D M) (zero-IsNormal : IsNormal zero.counters) (count : M → M) (one : M)
      (count_lem : (m : M) → IsNormal m → count m ≡ plus m one)
      (from_zero : plus zero.counters one ≡ one) (zero_last : zero.last_used_at ≡ 0) where
    pub Mirrors-submit :
        {K : Type 0} ⦃e : Comparable K⦄ (table : Table K (Row D M)) (s t t' : table.State)
        (l : List (K × Delta D M)) (k : K) (described : D) (ts : ℕ)
        → Mirrors table s l t
        → ((j : K) (d : Delta D M) → load l j ≡ some d → IsNormal d.counters)
        → upsert_row table plus t k (row_at described one ts) ≡ some t'
        → Mirrors table s (accumulate zero l k described count ts) t'
    unfolding row_at
    Mirrors-submit {K} ⦃e⦄ table s t t' l k described ts mirrors normal ran j =
        let direct =
          Merge.upsert_row_lem D M plus plus_assoc table t t' k j (row_at described one ts) ran in
        let buffered =
          Merge.accumulate_lem D M plus plus_assoc IsNormal plus-IsNormal zero zero-IsNormal count
            one count_lem from_zero zero_last l k j described ts normal in
        elim (Bool-cases (e.eqb k j)) [
          | inl q ↦
              let same = (e.eqb_iff k j).0 q in
              let direct' = rw q at direct in
              let buffered' = rw q at buffered in
              direct'
              ∙ ap
                  (λ o.
                    Merge.merge D M plus plus_assoc o
                      (Merge.shown D M plus plus_assoc (some (row_at described one ts))))
                  (mirrors k)
              ∙ Merge.merge_assoc D M plus plus_assoc
                  (Merge.shown D M plus plus_assoc (table.select s k)) (load l k)
                  (Merge.shown D M plus plus_assoc (some (row_at described one ts)))
              ∙ ap
                  (λ o.
                    Merge.merge D M plus plus_assoc
                      (Merge.shown D M plus plus_assoc (table.select s k)) o)
                  (sym buffered')
              ∙ ap
                  (λ x.
                    Merge.merge D M plus plus_assoc
                      (Merge.shown D M plus plus_assoc (table.select s x))
                      (load (accumulate zero l k described count ts) j))
                  same
          | inr q ↦
              let direct' = rw q at direct in
              let buffered' = rw q at buffered in
              direct'
              ∙ mirrors j
              ∙ ap
                  (λ o.
                    Merge.merge D M plus plus_assoc
                      (Merge.shown D M plus plus_assoc (table.select s j)) o)
                  (sym buffered')
        ]
