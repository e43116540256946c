-- ===== src/Master/Billing/Renewed.antt =====
-- internal/dao/billing.go: a day that is rebuilt hour by hour against one that is rebuilt at once.
use vaala_ai_gateway.Prelude.{
  ℕ, ◌<◌, ◌≡◌, ap, inl, inr, Bool, true, false, ◌&&◌, String, List, some, arith, ltb, ◌==◌, filter,
  Option-cases, Bool-cases,
}
use vaala_ai_gateway.Master.Billing.{
  UsageLog, Clock, Counts, HourlyCounts, ChannelLabel, TokenKey, ChannelKey, HourlyKey,
  token_key_comparable, channel_key_comparable, hourly_key_comparable,
}
use vaala_ai_gateway.Master.Billing.Rollup.{
  Database, add_columns, add_hourly_columns, upsert_token_daily, upsert_channel_daily,
  upsert_hourly_bucket, token_row_key, channel_row_key, hourly_row_key,
}
use vaala_ai_gateway.Master.Billing.Wiring.{Contents}
use vaala_ai_gateway.Master.Billing.Columns.{
  add_columns_assoc, add_columns_comm, add_hourly_columns_assoc, add_hourly_columns_comm,
}
use vaala_ai_gateway.Master.Billing.Rebuild.{
  Targets, on_table, replay_logs, created_from, created_to, from_day, to_day, clear_days,
  rebuild_daily_rollups, rebuild_hours,
}
use vaala_ai_gateway.Master.Billing.Slices.{delta_of}
use vaala_ai_gateway.Master.Billing.Rebuilt.{
  Each, on_tables-Each, rebuild_hours-Each, replay_logs-Each,
}
use vaala_ai_gateway.Master.Billing.Totals.{
  columns_of, totals_of, on_target, off_target, same_totals, same_columns,
}
use vaala_ai_gateway.Master.Billing.TokenDay.{token_row, token_up, token_day}
use vaala_ai_gateway.Master.Billing.ChannelDay.{channel_row, channel_up, channel_day}
use vaala_ai_gateway.Master.Billing.BucketDay.{bucket_row, bucket_up, bucket_day}

module _ (db : Database) (clock : Clock) (logs : List UsageLog) (date : ℕ) (after_epoch : 0 < date)
    (small : date < 100000000000000) (targets : Targets) where
  -- The tables `s'` that are rebuilt from `s` against the tables `r'` that another way has rebuilt:
  -- in each target, the day's rows have the same totals and those of the other days are as in `s`;
  -- the tables that are no targets are those of `s`.
  pub record SameDay (s s' r' : Contents db) : Type 0 where
    pub token_daily :
        targets.token_daily ≡ true
        → (k : TokenKey) → (k.date == date) ≡ true
        → totals_of (db.token_daily.select s'.token_daily k)
          ≡ totals_of (db.token_daily.select r'.token_daily k)
    pub token_daily_others :
        (k : TokenKey)
        → (k.date == date) ≡ false
        → columns_of (db.token_daily.select s'.token_daily k)
          ≡ columns_of (db.token_daily.select s.token_daily k)
    pub token_daily_kept : targets.token_daily ≡ false → s'.token_daily ≡ s.token_daily
    pub channel_daily :
        targets.channel_daily ≡ true
        → (k : ChannelKey) → (k.date == date) ≡ true
        → totals_of (db.channel_daily.select s'.channel_daily k)
          ≡ totals_of (db.channel_daily.select r'.channel_daily k)
    pub channel_daily_others :
        (k : ChannelKey)
        → (k.date == date) ≡ false
        → columns_of (db.channel_daily.select s'.channel_daily k)
          ≡ columns_of (db.channel_daily.select s.channel_daily k)
    pub channel_daily_kept : targets.channel_daily ≡ false → s'.channel_daily ≡ s.channel_daily
    pub hourly_bucket :
        targets.hourly_bucket ≡ true
        → (k : HourlyKey) → (k.date == date && ltb k.hour 24) ≡ true
        → totals_of (db.hourly_bucket.select s'.hourly_bucket k)
          ≡ totals_of (db.hourly_bucket.select r'.hourly_bucket k)
    pub hourly_bucket_others :
        (k : HourlyKey)
        → (k.date == date) ≡ false
        → columns_of (db.hourly_bucket.select s'.hourly_bucket k)
          ≡ columns_of (db.hourly_bucket.select s.hourly_bucket k)
    pub hourly_bucket_kept : targets.hourly_bucket ≡ false → s'.hourly_bucket ≡ s.hourly_bucket

  abbrev of_day : {K : Type 0} → (K → ℕ) → K → Bool
  of_day date_of k = from_day db (some date) (date_of k) && to_day db (some date) (date_of k)

  module _ (s s' r r' : Contents db)
      (rebuilt : rebuild_hours db clock logs date targets 24 s ≡ some s')
      (rolled_up : rebuild_daily_rollups db clock logs (some date) (some date) targets r
        ≡ some r') where
    rolled :
        (r1 : Contents db) × (clear_days db (some date) (some date) targets r ≡ some r1)
        × (replay_logs db clock targets
              (filter
                (λ log. created_from db (some date) log && created_to db (some date) log)
                logs)
              r1
            ≡ some r')
    unfolding rebuild_daily_rollups
    rolled = elim (Option-cases (clear_days db (some date) (some date) targets r)) [
      | inl bad ↦ let h = rw (bad, rebuild_daily_rollups) at rolled_up in absurd (cc)
      | inr (r1, ran) ↦ (r1, ran, let h = rw (ran, rebuild_daily_rollups) at rolled_up in h)
    ]

    cleared-Each :
        (r1 : Contents db)
        → clear_days db (some date) (some date) targets r ≡ some r1
        → Each db clock logs date targets
            (db.token_daily.delete_where (of_day (λ (k : TokenKey). k.date)))
            (db.channel_daily.delete_where (of_day (λ (k : ChannelKey). k.date)))
            (db.hourly_bucket.delete_where (of_day (λ (k : HourlyKey). k.date)))
            r
            r1
    unfolding clear_days
    cleared-Each r1 h =
        on_tables-Each db clock logs date
          (on_table db targets.token_daily
            (db.token_daily.delete_where (of_day (λ (k : TokenKey). k.date))))
          (on_table db targets.channel_daily
            (db.channel_daily.delete_where (of_day (λ (k : ChannelKey). k.date))))
          (on_table db targets.hourly_bucket
            (db.hourly_bucket.delete_where (of_day (λ (k : HourlyKey). k.date))))
          r r1 h

    kept_token : targets.token_daily ≡ false → s'.token_daily ≡ s.token_daily
    kept_token off =
        off_target db targets.token_daily _ _ _ off
          (rebuild_hours-Each db clock logs date targets 24 s s' (omega arith) rebuilt).0

    kept_channel : targets.channel_daily ≡ false → s'.channel_daily ≡ s.channel_daily
    kept_channel off =
        off_target db targets.channel_daily _ _ _ off
          (rebuild_hours-Each db clock logs date targets 24 s s' (omega arith) rebuilt).1

    kept_bucket : targets.hourly_bucket ≡ false → s'.hourly_bucket ≡ s.hourly_bucket
    kept_bucket off =
        off_target db targets.hourly_bucket _ _ _ off
          (rebuild_hours-Each db clock logs date targets 24 s s' (omega arith) rebuilt).2

    same_token :
        targets.token_daily ≡ true
        → (k : TokenKey) → (k.date == date) ≡ true
        → totals_of (db.token_daily.select s'.token_daily k)
          ≡ totals_of (db.token_daily.select r'.token_daily k)
    same_token on k h =
        let hours = token_day db clock logs date after_epoch small s.token_daily s'.token_daily k (
          on_target db targets.token_daily _ _ _ on
            (rebuild_hours-Each db clock logs date targets 24 s s' (omega arith) rebuilt).0) in
        let (r1, cleared, ran) = rolled in
        let (t, c, b) = cleared-Each r1 cleared in
        same_totals db TokenKey String Counts add_columns add_columns_assoc add_columns_comm
          db.token_daily (token_row_key db clock)
          (λ log. delta_of (token_row db clock logs date after_epoch small log))
          (upsert_token_daily db clock) (token_up db clock logs date after_epoch small)
          (of_day (λ (k : TokenKey). k.date)) date logs s'.token_daily r.token_daily r1.token_daily
          r'.token_daily k (ground (arith, h)) (let hours' = rw h at hours in hours')
          (on_target db targets.token_daily _ _ _ on t)
          (on_target db targets.token_daily _ _ _ on
            (replay_logs-Each db clock logs date targets _ r1 r' ran).0)

    other_token :
        (k : TokenKey)
        → (k.date == date) ≡ false
        → columns_of (db.token_daily.select s'.token_daily k)
          ≡ columns_of (db.token_daily.select s.token_daily k)
    other_token k h = elim (Bool-cases targets.token_daily) [
      | inl on ↦
          let hours =
            token_day db clock logs date after_epoch small s.token_daily s'.token_daily k (
              on_target db targets.token_daily _ _ _ on
                (rebuild_hours-Each db clock logs date targets 24 s s' (omega arith) rebuilt).0) in
          same_columns db TokenKey String Counts add_columns add_columns_assoc add_columns_comm
            db.token_daily (token_row_key db clock)
            (λ log. delta_of (token_row db clock logs date after_epoch small log))
            (upsert_token_daily db clock) (token_up db clock logs date after_epoch small)
            s.token_daily s'.token_daily k (let hours' = rw h at hours in hours')
      | inr off ↦ ap (λ x. columns_of (db.token_daily.select x k)) (kept_token off)
    ]

    same_channel :
        targets.channel_daily ≡ true
        → (k : ChannelKey) → (k.date == date) ≡ true
        → totals_of (db.channel_daily.select s'.channel_daily k)
          ≡ totals_of (db.channel_daily.select r'.channel_daily k)
    same_channel on k h =
        let hours =
          channel_day db clock logs date after_epoch small s.channel_daily s'.channel_daily k (
            on_target db targets.channel_daily _ _ _ on
              (rebuild_hours-Each db clock logs date targets 24 s s' (omega arith) rebuilt).1) in
        let (r1, cleared, ran) = rolled in
        let (t, c, b) = cleared-Each r1 cleared in
        same_totals db ChannelKey ChannelLabel Counts add_columns add_columns_assoc add_columns_comm
          db.channel_daily (channel_row_key db clock)
          (λ log. delta_of (channel_row db clock logs date after_epoch small log))
          (upsert_channel_daily db clock) (channel_up db clock logs date after_epoch small)
          (of_day (λ (k : ChannelKey). k.date)) date logs s'.channel_daily r.channel_daily
          r1.channel_daily r'.channel_daily k (ground (arith, h))
          (let hours' = rw h at hours in hours') (on_target db targets.channel_daily _ _ _ on c)
          (on_target db targets.channel_daily _ _ _ on
            (replay_logs-Each db clock logs date targets _ r1 r' ran).1)

    other_channel :
        (k : ChannelKey)
        → (k.date == date) ≡ false
        → columns_of (db.channel_daily.select s'.channel_daily k)
          ≡ columns_of (db.channel_daily.select s.channel_daily k)
    other_channel k h = elim (Bool-cases targets.channel_daily) [
      | inl on ↦
          let hours =
            channel_day db clock logs date after_epoch small s.channel_daily s'.channel_daily k (
              on_target db targets.channel_daily _ _ _ on
                (rebuild_hours-Each db clock logs date targets 24 s s' (omega arith) rebuilt).1) in
          same_columns db ChannelKey ChannelLabel Counts add_columns add_columns_assoc
            add_columns_comm db.channel_daily (channel_row_key db clock)
            (λ log. delta_of (channel_row db clock logs date after_epoch small log))
            (upsert_channel_daily db clock) (channel_up db clock logs date after_epoch small)
            s.channel_daily s'.channel_daily k (let hours' = rw h at hours in hours')
      | inr off ↦ ap (λ x. columns_of (db.channel_daily.select x k)) (kept_channel off)
    ]

    same_bucket :
        targets.hourly_bucket ≡ true
        → (k : HourlyKey) → (k.date == date && ltb k.hour 24) ≡ true
        → totals_of (db.hourly_bucket.select s'.hourly_bucket k)
          ≡ totals_of (db.hourly_bucket.select r'.hourly_bucket k)
    same_bucket on k h =
        let hours =
          bucket_day db clock logs date after_epoch small s.hourly_bucket s'.hourly_bucket k (
            on_target db targets.hourly_bucket _ _ _ on
              (rebuild_hours-Each db clock logs date targets 24 s s' (omega arith) rebuilt).2) in
        let (r1, cleared, ran) = rolled in
        let (t, c, b) = cleared-Each r1 cleared in
        same_totals db HourlyKey ChannelLabel HourlyCounts add_hourly_columns
          add_hourly_columns_assoc add_hourly_columns_comm db.hourly_bucket
          (hourly_row_key db clock)
          (λ log. delta_of (bucket_row db clock logs date after_epoch small log))
          (upsert_hourly_bucket db clock) (bucket_up db clock logs date after_epoch small)
          (of_day (λ (k : HourlyKey). k.date)) date logs s'.hourly_bucket r.hourly_bucket
          r1.hourly_bucket r'.hourly_bucket k (ground (arith, h))
          (let hours' = rw h at hours in hours') (on_target db targets.hourly_bucket _ _ _ on b)
          (on_target db targets.hourly_bucket _ _ _ on
            (replay_logs-Each db clock logs date targets _ r1 r' ran).2)

    other_bucket :
        (k : HourlyKey)
        → (k.date == date) ≡ false
        → columns_of (db.hourly_bucket.select s'.hourly_bucket k)
          ≡ columns_of (db.hourly_bucket.select s.hourly_bucket k)
    other_bucket k h = elim (Bool-cases targets.hourly_bucket) [
      | inl on ↦
          let hours =
            bucket_day db clock logs date after_epoch small s.hourly_bucket s'.hourly_bucket k (
              on_target db targets.hourly_bucket _ _ _ on
                (rebuild_hours-Each db clock logs date targets 24 s s' (omega arith) rebuilt).2) in
          same_columns db HourlyKey ChannelLabel HourlyCounts add_hourly_columns
            add_hourly_columns_assoc add_hourly_columns_comm db.hourly_bucket
            (hourly_row_key db clock)
            (λ log. delta_of (bucket_row db clock logs date after_epoch small log))
            (upsert_hourly_bucket db clock) (bucket_up db clock logs date after_epoch small)
            s.hourly_bucket s'.hourly_bucket k (let hours' = rw h at hours in hours')
      | inr off ↦ ap (λ x. columns_of (db.hourly_bucket.select x k)) (kept_bucket off)
    ]

  -- Rebuilding a day hour by hour, each hour a transaction of its own, and rebuilding it at once with
  -- `RebuildDailyRollups`, which replays the logs in the order of their ids: where both succeed, the
  -- rows of the day have the same counters and the same last use in each table that is a target,
  -- whatever the tables held before. Names and `updated_at`, which the last log writes, are not
  -- compared: the hours may replay the logs in another order. The slices leave the rows of other days,
  -- but for `created_at`, and the tables that are no targets alone. The rows of
  -- the hourly table are those of the 24 hours, and the day is behind 1970-01-01, with a number below 10^14.
  pub rebuild_hours-SameDay :
      (s s' r r' : Contents db)
      → rebuild_hours db clock logs date targets 24 s ≡ some s'
      → rebuild_daily_rollups db clock logs (some date) (some date) targets r ≡ some r'
      → SameDay s s' r'
  rebuild_hours-SameDay s s' r r' rebuilt rolled_up = record {
    token_daily = same_token s s' r r' rebuilt rolled_up;
    token_daily_others = other_token s s' r r' rebuilt rolled_up;
    token_daily_kept = kept_token s s' r r' rebuilt rolled_up;
    channel_daily = same_channel s s' r r' rebuilt rolled_up;
    channel_daily_others = other_channel s s' r r' rebuilt rolled_up;
    channel_daily_kept = kept_channel s s' r r' rebuilt rolled_up;
    hourly_bucket = same_bucket s s' r r' rebuilt rolled_up;
    hourly_bucket_others = other_bucket s s' r r' rebuilt rolled_up;
    hourly_bucket_kept = kept_bucket s s' r r' rebuilt rolled_up;
  }
