-- ===== src/Master/Billing/TokenDay.antt =====
-- internal/dao/billing.go: the rows of a day in one table, rebuilt hour by hour.
use vaala_ai_gateway.Prelude.{
  ℕ, zero, suc, ◌<◌, ◌≡◌, refl, sym, ap, inl, inr, true, false, ◌&&◌, String, List, [], Option,
  none, some, arith, Bool-cases, ltb, ◌==◌, if◌then◌else◌,
}
use vaala_ai_gateway.Master.Billing.{
  UsageLog, Clock, Counts, TokenKey, token_key_comparable, channel_key_comparable,
  hourly_key_comparable, seconds_or,
}
use vaala_ai_gateway.Master.Billing.Rollup.{
  Row, Database, add_columns, row_counts, row_at, upsert_token_daily, token_row_key,
}
use vaala_ai_gateway.Master.Billing.Aggregator.{Delta}
use vaala_ai_gateway.Master.Billing.Columns.{add_columns_assoc}
use vaala_ai_gateway.Master.Billing.Slices
use vaala_ai_gateway.Master.Billing.Slices.{up_to, delta_of}
use vaala_ai_gateway.Master.Billing.Rebuilt.{of_hour, clear_tokens}
use vaala_ai_gateway.Master.Billing.Day.{token_other}

module _ (db : Database) (clock : Clock) (logs : List UsageLog) (date : ℕ) (after_epoch : 0 < date)
    (small : date < 100000000000000) where
  abbrev pub token_row : UsageLog → Row String Counts
  token_row log = row_at log.token_name (row_counts log) (seconds_or clock.now log)

  abbrev pub token_total : List UsageLog → TokenKey → Option (Delta String Counts)
  token_total l j =
      Slices.total TokenKey String Counts add_columns add_columns_assoc db.token_daily
        (token_row_key db clock) (λ log. delta_of (token_row log)) l j

  abbrev pub token_shown : db.token_daily.State → TokenKey → Option (Delta String Counts)
  token_shown s j =
      Slices.shown TokenKey String Counts add_columns add_columns_assoc db.token_daily s j

  pub token_up :
      (log : UsageLog) (s s' : db.token_daily.State) (j : TokenKey)
      → upsert_token_daily db clock log s ≡ some s'
      → token_shown s' j
        ≡ Slices.merged TokenKey String Counts add_columns add_columns_assoc db.token_daily
            (token_shown s j)
            (Slices.added TokenKey String Counts add_columns add_columns_assoc db.token_daily
              (token_row_key db clock)
              (λ l. delta_of (token_row l))
              log
              j)
  unfolding upsert_token_daily
  token_up log s s' j h =
      Slices.upsert_row-added TokenKey String Counts add_columns add_columns_assoc db.token_daily
        (token_row_key db clock) token_row log s s' j h

  clear_tokens_lem :
      (n : ℕ) (s s' : db.token_daily.State) (j : TokenKey)
      → clear_tokens db clock logs date n s ≡ some s'
      → token_shown s' j ≡ (if ((n == 0) && j.date == date) then none else token_shown s j)
  clear_tokens_lem n s s' j h = elim (Bool-cases (n == 0)) [
    | inl z ↦
        let h' = rw z at h in
        let gone = db.token_daily.select_delete (λ k. k.date == date) s s' j h' in
        elim (Bool-cases (j.date == date)) [
          | inl y ↦ let gone' = rw y at gone in rw (z, y, gone') refl
          | inr y ↦ let gone' = rw y at gone in rw (z, y, gone') refl
        ]
    | inr z ↦ let h' = rw z at h in let q : s ≡ s' = cc in rw z (ap (λ x. token_shown x j) (sym q))
  ]

  token_none_before :
      (n : ℕ) (j : TokenKey)
      → n < 24
      → ((n == 0) && j.date == date) ≡ true
      → token_total (up_to (of_hour db clock logs date) n) j ≡ none
  token_none_before zero j b c =
      Slices.total_none TokenKey String Counts add_columns add_columns_assoc db.token_daily
        (token_row_key db clock) (λ log. delta_of (token_row log)) (upsert_token_daily db clock)
        token_up [] j tt
  token_none_before (suc n) j b c = absurd (ground arith)

  token_open_before :
      (n : ℕ) (j : TokenKey)
      → n < 24
      → (ltb 0 (suc n) && j.date == date) ≡ false
      → (((n == 0) && j.date == date) ≡ false)
        × ((ltb 0 n && j.date == date) ≡ false)
        × (token_total (of_hour db clock logs date n) j ≡ none)
  token_open_before n j b d = (
    ground (arith),
    ground (arith),
    Slices.total_none TokenKey String Counts add_columns add_columns_assoc db.token_daily
        (token_row_key db clock) (λ log. delta_of (token_row log)) (upsert_token_daily db clock)
        token_up _ j (token_other db clock logs date after_epoch small n j b (ground arith)),
  )

  pub token_day :
      (s s' : db.token_daily.State) (j : TokenKey)
      → Slices.slices TokenKey String Counts add_columns add_columns_assoc db.token_daily
          (clear_tokens db clock logs date)
          (upsert_token_daily db clock)
          (of_hour db clock logs date)
          24
          s
        ≡ some s'
      → token_shown s' j ≡ (
          if (ltb 0 24 && j.date == date)
          then token_total (up_to (of_hour db clock logs date) 24) j
          else token_shown s j)
  token_day s s' j h =
      Slices.slices_lem TokenKey String Counts add_columns add_columns_assoc db.token_daily
        (token_row_key db clock) (λ log. delta_of (token_row log)) (upsert_token_daily db clock)
        token_up (clear_tokens db clock logs date) (λ n j. ((n == 0) && j.date == date))
        (λ n j. (ltb 0 n && j.date == date)) (of_hour db clock logs date) 24 clear_tokens_lem
        token_none_before (λ n j b d c. ground (arith)) token_open_before (λ j. ground (arith)) 24 s
        s' j (omega arith) h
