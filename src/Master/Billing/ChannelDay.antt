-- ===== src/Master/Billing/ChannelDay.antt =====
-- internal/dao/billing.go: the rows of a day in one table, rebuilt hour by hour.
use vaala_ai_gateway.Prelude.{
  ℕ, zero, suc, ◌<◌, ◌≡◌, refl, sym, ap, inl, inr, true, false, ◌&&◌, List, [], Option, none, some,
  arith, Bool-cases, ltb, ◌==◌, if◌then◌else◌,
}
use vaala_ai_gateway.Master.Billing.{
  UsageLog, Clock, Counts, ChannelLabel, ChannelKey, token_key_comparable, channel_key_comparable,
  hourly_key_comparable, seconds_or, label_of,
}
use vaala_ai_gateway.Master.Billing.Rollup.{
  Row, Database, add_columns, row_counts, row_at, upsert_channel_daily, channel_row_key,
}
use vaala_ai_gateway.Master.Billing.Aggregator.{Delta}
use vaala_ai_gateway.Master.Billing.Columns.{add_columns_assoc}
use vaala_ai_gateway.Master.Billing.Slices
use vaala_ai_gateway.Master.Billing.Slices.{up_to, delta_of}
use vaala_ai_gateway.Master.Billing.Rebuilt.{of_hour, clear_channels}
use vaala_ai_gateway.Master.Billing.Day.{channel_other}

module _ (db : Database) (clock : Clock) (logs : List UsageLog) (date : ℕ) (after_epoch : 0 < date)
    (small : date < 100000000000000) where
  abbrev pub channel_row : UsageLog → Row ChannelLabel Counts
  channel_row log = row_at (label_of log) (row_counts log) (seconds_or clock.now log)

  abbrev pub channel_total : List UsageLog → ChannelKey → Option (Delta ChannelLabel Counts)
  channel_total l j =
      Slices.total ChannelKey ChannelLabel Counts add_columns add_columns_assoc db.channel_daily
        (channel_row_key db clock) (λ log. delta_of (channel_row log)) l j

  abbrev pub channel_shown :
      db.channel_daily.State → ChannelKey → Option (Delta ChannelLabel Counts)
  channel_shown s j =
      Slices.shown ChannelKey ChannelLabel Counts add_columns add_columns_assoc db.channel_daily s j

  pub channel_up :
      (log : UsageLog) (s s' : db.channel_daily.State) (j : ChannelKey)
      → upsert_channel_daily db clock log s ≡ some s'
      → channel_shown s' j
        ≡ Slices.merged ChannelKey ChannelLabel Counts add_columns add_columns_assoc
            db.channel_daily
            (channel_shown s j)
            (Slices.added ChannelKey ChannelLabel Counts add_columns add_columns_assoc
              db.channel_daily
              (channel_row_key db clock)
              (λ l. delta_of (channel_row l))
              log
              j)
  unfolding upsert_channel_daily
  channel_up log s s' j h =
      Slices.upsert_row-added ChannelKey ChannelLabel Counts add_columns add_columns_assoc
        db.channel_daily (channel_row_key db clock) channel_row log s s' j h

  clear_channels_lem :
      (n : ℕ) (s s' : db.channel_daily.State) (j : ChannelKey)
      → clear_channels db clock logs date n s ≡ some s'
      → channel_shown s' j ≡ (if ((n == 0) && j.date == date) then none else channel_shown s j)
  clear_channels_lem n s s' j h = elim (Bool-cases (n == 0)) [
    | inl z ↦
        let h' = rw z at h in
        let gone = db.channel_daily.select_delete (λ k. k.date == date) s s' j h' in
        elim (Bool-cases (j.date == date)) [
          | inl y ↦ let gone' = rw y at gone in rw (z, y, gone') refl
          | inr y ↦ let gone' = rw y at gone in rw (z, y, gone') refl
        ]
    | inr z ↦
        let h' = rw z at h in let q : s ≡ s' = cc in rw z (ap (λ x. channel_shown x j) (sym q))
  ]

  channel_none_before :
      (n : ℕ) (j : ChannelKey)
      → n < 24
      → ((n == 0) && j.date == date) ≡ true
      → channel_total (up_to (of_hour db clock logs date) n) j ≡ none
  channel_none_before zero j b c =
      Slices.total_none ChannelKey ChannelLabel Counts add_columns add_columns_assoc
        db.channel_daily (channel_row_key db clock) (λ log. delta_of (channel_row log))
        (upsert_channel_daily db clock) channel_up [] j tt
  channel_none_before (suc n) j b c = absurd (ground arith)

  channel_open_before :
      (n : ℕ) (j : ChannelKey)
      → n < 24
      → (ltb 0 (suc n) && j.date == date) ≡ false
      → (((n == 0) && j.date == date) ≡ false)
        × ((ltb 0 n && j.date == date) ≡ false)
        × (channel_total (of_hour db clock logs date n) j ≡ none)
  channel_open_before n j b d = (
    ground (arith),
    ground (arith),
    Slices.total_none ChannelKey ChannelLabel Counts add_columns add_columns_assoc db.channel_daily
        (channel_row_key db clock) (λ log. delta_of (channel_row log))
        (upsert_channel_daily db clock) channel_up _ j
        (channel_other db clock logs date after_epoch small n j b (ground arith)),
  )

  pub channel_day :
      (s s' : db.channel_daily.State) (j : ChannelKey)
      → Slices.slices ChannelKey ChannelLabel Counts add_columns add_columns_assoc db.channel_daily
          (clear_channels db clock logs date)
          (upsert_channel_daily db clock)
          (of_hour db clock logs date)
          24
          s
        ≡ some s'
      → channel_shown s' j ≡ (
          if (ltb 0 24 && j.date == date)
          then channel_total (up_to (of_hour db clock logs date) 24) j
          else channel_shown s j)
  channel_day s s' j h =
      Slices.slices_lem ChannelKey ChannelLabel Counts add_columns add_columns_assoc
        db.channel_daily (channel_row_key db clock) (λ log. delta_of (channel_row log))
        (upsert_channel_daily db clock) channel_up (clear_channels db clock logs date)
        (λ n j. ((n == 0) && j.date == date)) (λ n j. (ltb 0 n && j.date == date))
        (of_hour db clock logs date) 24 clear_channels_lem channel_none_before
        (λ n j b d c. ground (arith)) channel_open_before (λ j. ground (arith)) 24 s s' j
        (omega arith) h
