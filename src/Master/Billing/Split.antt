-- ===== src/Master/Billing/Split.antt =====
-- internal/dao/billing.go: what logs add to the totals of a row, whatever their order: the logs of a
-- day hour by hour against those of the day in the order of their ids.
use vaala_ai_gateway.Prelude.{
  ℕ, zero, suc, ◌+◌, ◌*◌, ◌≤◌, ◌≡◌, refl, sym, ap, ◌∙◌, inl, inr, true, false, List, [], ◌∷◌, ◌++◌,
  Option, none, some, Bool-cases, filter, arith,
}
use vaala_ai_gateway.Utils.SyncMap.{Comparable}
use vaala_ai_gateway.Master.Billing.{UsageLog}
use vaala_ai_gateway.Master.Billing.Rollup.{Row, Table}
use vaala_ai_gateway.Master.Billing.Aggregator.{Delta}
use vaala_ai_gateway.Master.Billing.Rebuild.{created_between}
use vaala_ai_gateway.Master.Billing.Merge
use vaala_ai_gateway.Master.Billing.Slices
use vaala_ai_gateway.Master.Billing.Slices.{up_to}

module _ (K D M : Type 0) ⦃e : Comparable K⦄ (plus : M → M → M)
    (plus_assoc : (a b c : M) → plus (plus a b) c ≡ plus a (plus b c))
    (plus_comm : (a b : M) → plus a b ≡ plus b a) (table : Table K (Row D M)) where
  -- The counters and the last use.
  abbrev pub totals : Option (Delta D M) → Option (M × ℕ)
  totals none = none
  totals (some d) = some (d.counters, d.last_used_at)

  abbrev add_totals : Option (M × ℕ) → Option (M × ℕ) → Option (M × ℕ)
  add_totals none b = b
  add_totals (some a) none = some a
  add_totals (some (m, t)) (some (m', t')) = some (plus m m', Merge.later D M plus plus_assoc t t')

  later_assoc :
      (a b c : ℕ)
      → Merge.later D M plus plus_assoc (Merge.later D M plus plus_assoc a b) c
        ≡ Merge.later D M plus plus_assoc a (Merge.later D M plus plus_assoc b c)
  later_assoc a b c = ground arith

  later_comm : (a b : ℕ) → Merge.later D M plus plus_assoc a b ≡ Merge.later D M plus plus_assoc b a
  later_comm a b = ground arith

  add_totals_assoc :
      (a b c : Option (M × ℕ)) → add_totals (add_totals a b) c ≡ add_totals a (add_totals b c)
  add_totals_assoc none b c = refl
  add_totals_assoc (some a) none c = refl
  add_totals_assoc (some a) (some b) none = refl
  add_totals_assoc (some (m, t)) (some (m', t')) (some (n, u)) =
      λ i. some (plus_assoc m m' n i, later_assoc t t' u i)

  add_totals_comm : (a b : Option (M × ℕ)) → add_totals a b ≡ add_totals b a
  add_totals_comm none none = refl
  add_totals_comm none (some b) = refl
  add_totals_comm (some a) none = refl
  add_totals_comm (some (m, t)) (some (n, u)) = λ i. some (plus_comm m n i, later_comm t u i)

  totals-merged :
      (a b : Option (Delta D M))
      → totals (Slices.merged K D M plus plus_assoc table a b) ≡ add_totals (totals a) (totals b)
  totals-merged none b = refl
  totals-merged (some a) none = refl
  totals-merged (some a) (some b) = refl

  module _ (key : UsageLog → K) (one : UsageLog → Delta D M) (j : K) where
    -- What logs add to the totals of a row.
    abbrev pub sum : List UsageLog → Option (M × ℕ)
    sum logs = totals (Slices.total K D M plus plus_assoc table key one logs j)

    abbrev single : UsageLog → Option (M × ℕ)
    single log = totals (Slices.added K D M plus plus_assoc table key one log j)

    sum-cons :
        (log : UsageLog) (logs : List UsageLog)
        → sum (log ∷ logs) ≡ add_totals (single log) (sum logs)
    unfolding Slices.total
    sum-cons log logs = totals-merged _ _

    sum-append : (xs ys : List UsageLog) → sum (xs ++ ys) ≡ add_totals (sum xs) (sum ys)
    unfolding Slices.total
    sum-append [] ys = refl
    sum-append (x ∷ xs) ys =
        sum-cons x (xs ++ ys)
        ∙ ap (add_totals (single x)) (sum-append xs ys)
        ∙ sym (add_totals_assoc (single x) (sum xs) (sum ys))
        ∙ ap (λ t. add_totals t (sum ys)) (sym (sum-cons x xs))

    add_middle :
        (a b c : Option (M × ℕ)) → add_totals a (add_totals b c) ≡ add_totals b (add_totals a c)
    add_middle a b c =
        sym (add_totals_assoc a b c)
        ∙ ap (λ t. add_totals t c) (add_totals_comm a b)
        ∙ add_totals_assoc b a c

    -- The logs of two spans that follow each other.
    sum-between :
        (start middle end : ℕ) (logs : List UsageLog)
        → start ≤ middle
        → middle ≤ end
        → sum (filter (created_between start end) logs)
          ≡ add_totals
              (sum (filter (created_between start middle) logs))
              (sum (filter (created_between middle end) logs))
    unfolding Slices.total
    sum-between start middle end [] h k = refl
    sum-between start middle end (log ∷ logs) h k =
        let rest = sum-between start middle end logs h k in
        let first = sum (filter (created_between start middle) logs) in
        let second = sum (filter (created_between middle end) logs) in
        elim (Bool-cases (created_between start middle log)) [
          | inl before ↦
              let whole : created_between start end log ≡ true = ground (arith, before, h, k) in
              let after : created_between middle end log ≡ false = ground (arith, before, h, k) in
              rw (before, whole, after)
                (sum-cons log _
                  ∙ ap (add_totals (single log)) rest
                  ∙ sym (add_totals_assoc (single log) first second)
                  ∙ ap (λ t. add_totals t second) (sym (sum-cons log _)))
          | inr not_before ↦ elim (Bool-cases (created_between middle end log)) [
            | inl after ↦
                let whole : created_between start end log ≡ true = ground (arith, after, h, k) in
                rw (not_before, whole, after)
                  (sum-cons log _
                    ∙ ap (add_totals (single log)) rest
                    ∙ add_middle (single log) first second
                    ∙ ap (add_totals first) (sym (sum-cons log _)))
            | inr not_after ↦
                let whole : created_between start end log ≡ false =
                  ground (arith, not_before, not_after, h, k) in
                rw (not_before, whole, not_after) rest
          ]
        ]

    sum-nothing :
        (start : ℕ) (logs : List UsageLog) → sum (filter (created_between start start) logs) ≡ none
    unfolding Slices.total
    sum-nothing start [] = refl
    sum-nothing start (log ∷ logs) =
        let no : created_between start start log ≡ false = ground arith in
        rw no (sum-nothing start logs)

    pub sum-up_to :
        (start n : ℕ) (logs : List UsageLog)
        → sum (
            up_to
              (λ h. filter (created_between (start + h * 3600) (start + h * 3600 + 3600)) logs)
              n)
          ≡ sum (filter (created_between start (start + n * 3600)) logs)
    unfolding Slices.total
    sum-up_to start zero logs =
        let here : start ≡ start + 0 * 3600 = omega arith in
        sym (sum-nothing start logs)
        ∙ ap (λ end. sum (filter (created_between start end) logs)) here
    sum-up_to start (suc n) logs =
        let middle = start + n * 3600 in
        let last : middle + 3600 ≡ start + suc n * 3600 = omega arith in
        let hour = filter (created_between middle (middle + 3600)) logs in
        sum-append _ hour
        ∙ ap (λ t. add_totals t (sum hour)) (sum-up_to start n logs)
        ∙ sym (sum-between start middle (middle + 3600) logs (omega arith) (omega arith))
        ∙ ap (λ end. sum (filter (created_between start end) logs)) last
