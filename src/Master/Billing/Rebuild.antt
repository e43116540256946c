-- ===== src/Master/Billing/Rebuild.antt =====
-- internal/dao/billing.go: `RebuildHourSlice` and `RebuildDailyRollups` replay usage logs into the
-- tables of totals.
use vaala_ai_gateway.Prelude.{
  ℕ, zero, suc, ◌+◌, ◌*◌, Bool, true, false, ◌&&◌, String, str_eq, List, [], ◌∷◌, Option, none,
  some, ltb, leb, ◌==◌, if◌then◌else◌, filter,
}
use vaala_ai_gateway.Master.Billing.{
  UsageLog, Clock, token_key_comparable, channel_key_comparable, hourly_key_comparable,
}
use vaala_ai_gateway.Master.Billing.Rollup.{
  Database, upsert_token_daily, upsert_channel_daily, upsert_hourly_bucket,
}
use vaala_ai_gateway.Master.Billing.Wiring.{Contents}

-- The set that `resolveRebuildTargets` returns.
pub record Targets : Type 0 where
  pub token_daily : Bool
  pub channel_daily : Bool
  pub hourly_bucket : Bool

unfoldable pub add_target : String → Targets → Option Targets
add_target name t =
    if str_eq name "token_daily"
    then some (record t { token_daily = true })
    else if str_eq name "channel_daily"
    then some (record t { channel_daily = true })
    else if str_eq name "hourly_bucket"
    then some (record t { hourly_bucket = true })
    else none

unfoldable pub add_targets : List String → Targets → Option Targets
unfolding add_target
add_targets [] t = some t
add_targets (name ∷ more) t = elim (add_target name t) [
  | none ↦ none
  | some t' ↦ add_targets more t'
]

abbrev no_targets : Targets
no_targets = record { token_daily = false; channel_daily = false; hourly_bucket = false }

-- `none` is `ErrInvalidRebuildTarget`. No target means all of them.
unfoldable pub resolve_rebuild_targets : List String → Option Targets
unfolding add_targets
resolve_rebuild_targets [] =
    some (record { token_daily = true; channel_daily = true; hourly_bucket = true })
resolve_rebuild_targets (name ∷ more) = add_targets (name ∷ more) no_targets

-- The seconds of an hour of a day. `none` is an hour out of range; a date is its day already.
unfoldable pub hour_range_unix : ℕ → ℕ → Option (ℕ × ℕ)
hour_range_unix date hour =
    if ltb 23 hour
    then none
    else some (date * 86400 + hour * 3600, date * 86400 + hour * 3600 + 3600)

abbrev pub created_between : ℕ → ℕ → UsageLog → Bool
created_between start end log = leb start log.created_at && ltb log.created_at end

module _ (db : Database) where
  -- A statement for one of the tables, where it is a target.
  abbrev pub on_table : {S : Type 0} → Bool → (S → Option S) → S → Option S
  on_table true run s = run s
  on_table false run s = some s

  abbrev pub on_tables :
      (db.token_daily.State → Option db.token_daily.State)
      → (db.channel_daily.State → Option db.channel_daily.State)
      → (db.hourly_bucket.State → Option db.hourly_bucket.State)
      → Contents db
      → Option (Contents db)
  on_tables f g h s = elim (f s.token_daily) [
    | none ↦ none
    | some t ↦ elim (g s.channel_daily) [
      | none ↦ none
      | some c ↦ elim (h s.hourly_bucket) [
        | none ↦ none
        | some b ↦ some (record { token_daily = t; channel_daily = c; hourly_bucket = b })
      ]
    ]
  ]

  -- The body of the loop over a batch: the log goes into each table that is a target.
  unfoldable pub replay_log : Clock → Targets → UsageLog → Contents db → Option (Contents db)
  unfolding upsert_token_daily upsert_channel_daily upsert_hourly_bucket
  replay_log clock targets log s =
      on_tables (on_table targets.token_daily (upsert_token_daily db clock log))
        (on_table targets.channel_daily (upsert_channel_daily db clock log))
        (on_table targets.hourly_bucket (upsert_hourly_bucket db clock log)) s

  -- `FindInBatches` passes over the logs in the order of their ids, whatever the batches are.
  unfoldable pub replay_logs : Clock → Targets → List UsageLog → Contents db → Option (Contents db)
  unfolding replay_log
  replay_logs clock targets [] s = some s
  replay_logs clock targets (log ∷ logs) s = elim (replay_log clock targets log s) [
    | none ↦ none
    | some s' ↦ replay_logs clock targets logs s'
  ]

  -- The deletions at the head of a slice.
  unfoldable pub clear_slice : ℕ → ℕ → Targets → Bool → Contents db → Option (Contents db)
  clear_slice date hour targets reset s =
      on_tables
        (on_table (reset && targets.token_daily)
          (db.token_daily.delete_where (λ k. k.date == date)))
        (on_table (reset && targets.channel_daily)
          (db.channel_daily.delete_where (λ k. k.date == date)))
        (on_table targets.hourly_bucket
          (db.hourly_bucket.delete_where (λ k. k.date == date && k.hour == hour)))
        s

  -- The transaction of a slice, with the number of logs that it replays. `none` is an error, and then
  -- the tables are as before. The usage logs are in the order of their ids.
  unfoldable pub rebuild_hour_slice :
      Clock → List UsageLog → ℕ → ℕ → Targets → Bool → Contents db → Option (Contents db)
  unfolding hour_range_unix clear_slice replay_logs
  rebuild_hour_slice clock logs date hour targets reset s = elim (hour_range_unix date hour) [
    | none ↦ none
    | some (start, end) ↦ elim (clear_slice date hour targets reset s) [
      | none ↦ none
      | some s' ↦ replay_logs clock targets (filter (created_between start end) logs) s'
    ]
  ]

  -- The loop of a rebuild over the hours of a day, which starts with a reset.
  unfoldable pub rebuild_hours :
      Clock → List UsageLog → ℕ → Targets → ℕ → Contents db → Option (Contents db)
  unfolding rebuild_hour_slice
  rebuild_hours clock logs date targets zero s = some s
  rebuild_hours clock logs date targets (suc h) s =
      elim (rebuild_hours clock logs date targets h s) [
        | none ↦ none
        | some s' ↦ rebuild_hour_slice clock logs date h targets (h == 0) s'
      ]

  -- `applyUsageLogDateFilter` and the conditions on a row's date: a bound that is not given is none.
  abbrev pub from_day : Option ℕ → ℕ → Bool
  from_day none date = true
  from_day (some start) date = leb start date

  abbrev pub to_day : Option ℕ → ℕ → Bool
  to_day none date = true
  to_day (some end) date = leb date end

  abbrev pub created_from : Option ℕ → UsageLog → Bool
  created_from none log = true
  created_from (some start) log = leb (start * 86400) log.created_at

  abbrev pub created_to : Option ℕ → UsageLog → Bool
  created_to none log = true
  created_to (some end) log = ltb log.created_at (end * 86400 + 86400)

  unfoldable pub clear_days : Option ℕ → Option ℕ → Targets → Contents db → Option (Contents db)
  clear_days start end targets s =
      on_tables
        (on_table targets.token_daily
          (db.token_daily.delete_where (λ k. from_day start k.date && to_day end k.date)))
        (on_table targets.channel_daily
          (db.channel_daily.delete_where (λ k. from_day start k.date && to_day end k.date)))
        (on_table targets.hourly_bucket
          (db.hourly_bucket.delete_where (λ k. from_day start k.date && to_day end k.date)))
        s

  -- The transaction of `RebuildDailyRollups` over the days from `start` to `end`.
  unfoldable pub rebuild_daily_rollups :
      Clock → List UsageLog → Option ℕ → Option ℕ → Targets → Contents db → Option (Contents db)
  unfolding clear_days replay_logs
  rebuild_daily_rollups clock logs start end targets s = elim (clear_days start end targets s) [
    | none ↦ none
    | some s' ↦
        replay_logs clock targets
          (filter (λ log. created_from start log && created_to end log) logs) s'
  ]
