-- ===== src/Master/Billing/BucketDay.antt =====
-- internal/dao/billing.go: the rows of a day in one table, rebuilt hour by hour.
use vaala_ai_gateway.Prelude.{
  ℕ, suc, ◌<◌, ◌≡◌, refl, inl, inr, false, ◌&&◌, List, Option, none, some, arith, Bool-cases, ltb,
  ◌==◌, if◌then◌else◌,
}
use vaala_ai_gateway.Master.Billing.{
  UsageLog, Clock, HourlyCounts, ChannelLabel, HourlyKey, token_key_comparable,
  channel_key_comparable, hourly_key_comparable, seconds_or, label_of,
}
use vaala_ai_gateway.Master.Billing.Rollup.{
  Row, Database, add_hourly_columns, row_hourly_counts, row_at, upsert_hourly_bucket,
  hourly_row_key,
}
use vaala_ai_gateway.Master.Billing.Aggregator.{Delta}
use vaala_ai_gateway.Master.Billing.Columns.{add_hourly_columns_assoc}
use vaala_ai_gateway.Master.Billing.Slices
use vaala_ai_gateway.Master.Billing.Slices.{up_to, delta_of}
use vaala_ai_gateway.Master.Billing.Rebuilt.{of_hour, clear_buckets}
use vaala_ai_gateway.Master.Billing.Day.{bucket_other, bucket_later}

module _ (db : Database) (clock : Clock) (logs : List UsageLog) (date : ℕ) (after_epoch : 0 < date)
    (small : date < 100000000000000) where
  abbrev pub bucket_row : UsageLog → Row ChannelLabel HourlyCounts
  bucket_row log = row_at (label_of log) (row_hourly_counts log) (seconds_or clock.now log)

  abbrev pub bucket_total : List UsageLog → HourlyKey → Option (Delta ChannelLabel HourlyCounts)
  bucket_total l j =
      Slices.total HourlyKey ChannelLabel HourlyCounts add_hourly_columns add_hourly_columns_assoc
        db.hourly_bucket (hourly_row_key db clock) (λ log. delta_of (bucket_row log)) l j

  abbrev pub bucket_shown :
      db.hourly_bucket.State → HourlyKey → Option (Delta ChannelLabel HourlyCounts)
  bucket_shown s j =
      Slices.shown HourlyKey ChannelLabel HourlyCounts add_hourly_columns add_hourly_columns_assoc
        db.hourly_bucket s j

  pub bucket_up :
      (log : UsageLog) (s s' : db.hourly_bucket.State) (j : HourlyKey)
      → upsert_hourly_bucket db clock log s ≡ some s'
      → bucket_shown s' j
        ≡ Slices.merged HourlyKey ChannelLabel HourlyCounts add_hourly_columns
            add_hourly_columns_assoc db.hourly_bucket
            (bucket_shown s j)
            (Slices.added HourlyKey ChannelLabel HourlyCounts add_hourly_columns
              add_hourly_columns_assoc db.hourly_bucket
              (hourly_row_key db clock)
              (λ l. delta_of (bucket_row l))
              log
              j)
  unfolding upsert_hourly_bucket
  bucket_up log s s' j h =
      Slices.upsert_row-added HourlyKey ChannelLabel HourlyCounts add_hourly_columns
        add_hourly_columns_assoc db.hourly_bucket (hourly_row_key db clock) bucket_row log s s' j h

  clear_buckets_lem :
      (n : ℕ) (s s' : db.hourly_bucket.State) (j : HourlyKey)
      → clear_buckets db clock logs date n s ≡ some s'
      → bucket_shown s' j ≡ (if (j.date == date && j.hour == n) then none else bucket_shown s j)
  clear_buckets_lem n s s' j h =
      let gone = db.hourly_bucket.select_delete (λ k. k.date == date && k.hour == n) s s' j h in
      elim (Bool-cases (j.date == date && j.hour == n)) [
        | inl y ↦ let gone' = rw y at gone in rw (y, gone') refl
        | inr y ↦ let gone' = rw y at gone in rw (y, gone') refl
      ]

  bucket_open_before :
      (n : ℕ) (j : HourlyKey)
      → n < 24
      → (j.date == date && ltb j.hour (suc n)) ≡ false
      → ((j.date == date && j.hour == n) ≡ false)
        × ((j.date == date && ltb j.hour n) ≡ false)
        × (bucket_total (of_hour db clock logs date n) j ≡ none)
  bucket_open_before n j b d = (
    ground (arith),
    ground (arith),
    Slices.total_none HourlyKey ChannelLabel HourlyCounts add_hourly_columns
        add_hourly_columns_assoc db.hourly_bucket (hourly_row_key db clock)
        (λ log. delta_of (bucket_row log)) (upsert_hourly_bucket db clock) bucket_up _ j
        (bucket_other db clock logs date after_epoch small n j b (ground arith)),
  )

  pub bucket_day :
      (s s' : db.hourly_bucket.State) (j : HourlyKey)
      → Slices.slices HourlyKey ChannelLabel HourlyCounts add_hourly_columns
          add_hourly_columns_assoc db.hourly_bucket
          (clear_buckets db clock logs date)
          (upsert_hourly_bucket db clock)
          (of_hour db clock logs date)
          24
          s
        ≡ some s'
      → bucket_shown s' j ≡ (
          if (j.date == date && ltb j.hour 24)
          then bucket_total (up_to (of_hour db clock logs date) 24) j
          else bucket_shown s j)
  bucket_day s s' j h =
      Slices.slices_lem HourlyKey ChannelLabel HourlyCounts add_hourly_columns
        add_hourly_columns_assoc db.hourly_bucket (hourly_row_key db clock)
        (λ log. delta_of (bucket_row log)) (upsert_hourly_bucket db clock) bucket_up
        (clear_buckets db clock logs date) (λ n j. (j.date == date && j.hour == n))
        (λ n j. (j.date == date && ltb j.hour n)) (of_hour db clock logs date) 24 clear_buckets_lem
        (λ n j b c.
          Slices.total_none HourlyKey ChannelLabel HourlyCounts add_hourly_columns
            add_hourly_columns_assoc db.hourly_bucket (hourly_row_key db clock)
            (λ log. delta_of (bucket_row log)) (upsert_hourly_bucket db clock) bucket_up _ j
            (bucket_later db clock logs date after_epoch small n j (omega arith) (ground arith)))
        (λ n j b d c. ground (arith)) bucket_open_before (λ j. ground (arith)) 24 s s' j
        (omega arith) h
