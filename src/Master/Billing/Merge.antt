-- ===== src/Master/Billing/Merge.antt =====
-- internal/master/billing/aggregator.go and internal/dao/billing.go: a table and a buffer as
-- functions from keys to totals, and each statement as an addition of totals.
use vaala_ai_gateway.Prelude.{
  ℕ, ◌≡◌, refl, sym, ap, subst, ◌∙◌, inl, inr, List, [], ◌∷◌, Option, none, some, arith, Bool-cases,
  Option-cases, ltb, if◌then◌else◌,
}
use vaala_ai_gateway.Utils.SyncMap.{Comparable, load, load-put}
use vaala_ai_gateway.Utils.SyncMap.Unique.{IsUnique, put-IsUnique}
use vaala_ai_gateway.Master.Billing.Rollup.{Row, Table, assign, upsert_row, batch_upsert}
use vaala_ai_gateway.Master.Billing.Aggregator.{Delta, bump, accumulate, delta_or}
use vaala_ai_gateway.Master.Billing.Wiring.{delta_row, rows_of}

-- Counters with their addition.
module _ (D M : Type 0) (plus : M → M → M)
    (plus_assoc : (a b c : M) → plus (plus a b) c ≡ plus a (plus b c)) where
  -- All columns of a row but `created_at`.
  abbrev pub shown : Option (Row D M) → Option (Delta D M)
  shown none = none
  shown (some r) = some (record {
    described = r.described;
    counters = r.counters;
    last_used_at = r.last_used_at;
    updated_at = r.updated_at;
  })

  abbrev pub later : ℕ → ℕ → ℕ
  later a b = if ltb a b then b else a

  abbrev pub combine : Delta D M → Delta D M → Delta D M
  combine a b = record {
    described = b.described;
    counters = plus a.counters b.counters;
    last_used_at = later a.last_used_at b.last_used_at;
    updated_at = b.updated_at;
  }

  -- Totals followed by totals.
  abbrev pub merge : Option (Delta D M) → Option (Delta D M) → Option (Delta D M)
  merge none b = b
  merge (some a) none = some a
  merge (some a) (some b) = some (combine a b)

  later_assoc : (a b c : ℕ) → later (later a b) c ≡ later a (later b c)
  later_assoc a b c = ground arith

  combine_assoc : (a b c : Delta D M) → combine (combine a b) c ≡ combine a (combine b c)
  combine_assoc a b c = λ i. record {
    described = c.described;
    counters = plus_assoc a.counters b.counters c.counters i;
    last_used_at = later_assoc a.last_used_at b.last_used_at c.last_used_at i;
    updated_at = c.updated_at;
  }

  pub merge_assoc : (a b c : Option (Delta D M)) → merge (merge a b) c ≡ merge a (merge b c)
  merge_assoc none b c = refl
  merge_assoc (some a) none c = refl
  merge_assoc (some a) (some b) none = refl
  merge_assoc (some a) (some b) (some c) = ap (λ d. some d) (combine_assoc a b c)

  pub merge-none : (a : Option (Delta D M)) → merge a none ≡ a
  merge-none none = refl
  merge-none (some a) = refl

  module _ {K : Type 0} ⦃e : Comparable K⦄ where
    pub upsert_row_lem :
        (table : Table K (Row D M)) (s s' : table.State) (k j : K) (row : Row D M)
        → upsert_row table plus s k row ≡ some s'
        → shown (table.select s' j) ≡ (
            if e.eqb k j
            then merge (shown (table.select s k)) (shown (some row))
            else shown (table.select s j))
    unfolding upsert_row assign
    upsert_row_lem table s s' k j row h =
        rw (table.select_upsert s s' k j row (assign plus row) h) (elim (Bool-cases (e.eqb k j)) [
          | inl q ↦ rw q (elim (Option-cases (table.select s k)) [
            | inl miss ↦ rw miss refl
            | inr (old, found) ↦ rw found refl
          ])
          | inr q ↦ rw q refl
        ])

    batch_upsert-cons :
        (table : Table K (Row D M)) (s : table.State) (k : K) (row : Row D M)
        (rows : List (K × Row D M)) (s' : table.State)
        → batch_upsert table plus s ((k, row) ∷ rows) ≡ some s'
        → (s1 : table.State) × (upsert_row table plus s k row ≡ some s1)
          × (batch_upsert table plus s1 rows ≡ some s')
    unfolding batch_upsert
    batch_upsert-cons table s k row rows s' h =
        elim (Option-cases (upsert_row table plus s k row)) [
          | inl failed ↦ let h' = rw (failed, batch_upsert) at h in absurd (cc)
          | inr (s1, ran) ↦ (s1, ran, let h' = rw (ran, batch_upsert) at h in h')
        ]

    -- A batch adds what each of its deltas holds.
    pub batch_upsert_lem :
        (table : Table K (Row D M)) (l : List (K × Delta D M)) (s s' : table.State) (j : K)
        → IsUnique l
        → batch_upsert table plus s (rows_of l) ≡ some s'
        → shown (table.select s' j) ≡ merge (shown (table.select s j)) (load l j)
    unfolding batch_upsert load delta_row
    batch_upsert_lem table [] s s' j u h =
        let same : s ≡ s' = cc in rw (sym same) (sym (merge-none _))
    batch_upsert_lem table ((k, d) ∷ l) s s' j u h =
        let (s1, ran, more) = batch_upsert-cons table s k (delta_row d) (rows_of l) s' h in
        let one = upsert_row_lem table s s1 k j (delta_row d) ran in
        let rest = batch_upsert_lem table l s1 s' j u.1 more in
        elim (Bool-cases (e.eqb k j)) [
          | inl q ↦
              let same : k ≡ j = (e.eqb_iff k j).0 q in
              let here = upsert_row_lem table s s1 k k (delta_row d) ran in
              let here' = rw ((e.eqb_iff k k).1 refl) at here in
              rw (q, sym same)
                (batch_upsert_lem table l s1 s' k u.1 more
                  ∙ ap (λ o. merge (shown (table.select s1 k)) o) u.0
                  ∙ merge-none _
                  ∙ here')
          | inr q ↦ let one' = rw q at one in rw q (rest ∙ ap (λ o. merge o (load l j)) one')
        ]

  module _ (IsNormal : M → Type 0) (plus-IsNormal : (a b : M) → IsNormal (plus a b))
      (zero : Delta D M) (zero-IsNormal : IsNormal zero.counters) (count : M → M) (one : M)
      (count_lem : (m : M) → IsNormal m → count m ≡ plus m one)
      (from_zero : plus zero.counters one ≡ one) (zero_last : zero.last_used_at ≡ 0) where
    -- What one log adds.
    abbrev pub single : D → ℕ → Delta D M
    single described ts = record {
      described = described;
      counters = one;
      last_used_at = ts;
      updated_at = ts;
    }

    later_zero : (ts : ℕ) → later 0 ts ≡ ts
    later_zero ts = ground arith

    bump-delta_or :
        (o : Option (Delta D M)) (described : D) (ts : ℕ)
        → ((d : Delta D M) → o ≡ some d → IsNormal d.counters)
        → some (bump described count ts (delta_or zero o)) ≡ merge o (some (single described ts))
    unfolding bump
    bump-delta_or none described ts h =
        ap (λ d. some d)
          (λ i. record {
            described = described;
            counters = (count_lem zero.counters zero-IsNormal ∙ from_zero) i;
            last_used_at = (ap (λ t. later t ts) zero_last ∙ later_zero ts) i;
            updated_at = ts;
          })
    bump-delta_or (some v) described ts h =
        ap (λ d. some d)
          (λ i. record {
            described = described;
            counters = count_lem v.counters (h v refl) i;
            last_used_at = later v.last_used_at ts;
            updated_at = ts;
          })

    -- The counters of a buffer are normal.
    abbrev pub IsNormalBuffer : {K : Type 0} ⦃e : Comparable K⦄ → List (K × Delta D M) → Type 0
    IsNormalBuffer {K} l = (k : K) (d : Delta D M) → load l k ≡ some d → IsNormal d.counters

    pub accumulate_lem :
        {K : Type 0} ⦃e : Comparable K⦄ (l : List (K × Delta D M)) (k j : K) (described : D)
        (ts : ℕ)
        → IsNormalBuffer l
        → load (accumulate zero l k described count ts) j
          ≡ (if e.eqb k j then merge (load l k) (some (single described ts)) else load l j)
    unfolding accumulate
    accumulate_lem l k j described ts normal =
        load-put l k j _ ∙ rw (bump-delta_or (load l k) described ts (normal k)) refl

    merge-IsNormal :
        (o : Option (Delta D M)) (described : D) (ts : ℕ) (d : Delta D M)
        → merge o (some (single described ts)) ≡ some d
        → IsNormal d.counters
    merge-IsNormal none described ts d h =
        let q : single described ts ≡ d = cc in
        subst IsNormal (from_zero ∙ ap (λ (x : Delta D M). x.counters) q)
          (plus-IsNormal zero.counters one)
    merge-IsNormal (some v) described ts d h =
        let q : combine v (single described ts) ≡ d = cc in
        subst IsNormal (ap (λ (x : Delta D M). x.counters) q) (plus-IsNormal v.counters one)

    pub accumulate-IsNormal :
        {K : Type 0} ⦃e : Comparable K⦄ (l : List (K × Delta D M)) (k : K) (described : D) (ts : ℕ)
        → IsNormalBuffer l
        → IsNormalBuffer (accumulate zero l k described count ts)
    accumulate-IsNormal {K} ⦃e⦄ l k described ts normal j d h =
        let now = sym (accumulate_lem l k j described ts normal) ∙ h in
        elim (Bool-cases (e.eqb k j)) [
          | inl q ↦ merge-IsNormal (load l k) described ts d (let now' = rw q at now in now')
          | inr q ↦ normal j d (let now' = rw q at now in now')
        ]

    pub accumulate-IsUnique :
        {K : Type 0} ⦃e : Comparable K⦄ (l : List (K × Delta D M)) (k : K) (described : D) (ts : ℕ)
        → IsUnique l
        → IsUnique (accumulate zero l k described count ts)
    unfolding accumulate
    accumulate-IsUnique l k described ts h = put-IsUnique l k _ h
