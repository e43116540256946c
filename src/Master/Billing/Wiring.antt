-- ===== src/Master/Billing/Wiring.antt =====
-- internal/master/server.go and internal/dao/billing.go: the persist functions of the aggregator in
-- production write each buffer as one batch.
use vaala_ai_gateway.Prelude.{String, List, map, Option, none, some}
use vaala_ai_gateway.Master.Billing.{
  TokenKey, ChannelKey, HourlyKey, token_key_comparable, channel_key_comparable,
  hourly_key_comparable,
}
use vaala_ai_gateway.Master.Billing.Rollup.{
  Row, Database, add_columns, add_hourly_columns, batch_upsert,
}
use vaala_ai_gateway.Master.Billing.Aggregator.{
  Delta, TokenDelta, ChannelDelta, HourlyDelta, FlushFns,
}

-- The row of a delta: `CreatedAt: r.UpdatedAt`.
unfoldable pub delta_row : {D M : Type 0} → Delta D M → Row D M
delta_row d = record {
  described = d.described;
  counters = d.counters;
  last_used_at = d.last_used_at;
  created_at = d.updated_at;
  updated_at = d.updated_at;
}

abbrev pub rows_of : {K D M : Type 0} → List (K × Delta D M) → List (K × Row D M)
rows_of l = map (λ entry. (entry.0, delta_row entry.1)) l

-- The contents of the three tables.
pub record Contents (db : Database) : Type 0 where
  pub token_daily : db.token_daily.State
  pub channel_daily : db.channel_daily.State
  pub hourly_bucket : db.hourly_bucket.State

module _ (db : Database) where
  abbrev pub batch_upsert_token_daily :
      List (TokenKey × TokenDelta) → db.token_daily.State → Option db.token_daily.State
  batch_upsert_token_daily rows s = batch_upsert db.token_daily add_columns s (rows_of rows)

  abbrev pub batch_upsert_channel_daily :
      List (ChannelKey × ChannelDelta) → db.channel_daily.State → Option db.channel_daily.State
  batch_upsert_channel_daily rows s = batch_upsert db.channel_daily add_columns s (rows_of rows)

  abbrev pub batch_upsert_hourly_bucket :
      List (HourlyKey × HourlyDelta) → db.hourly_bucket.State → Option db.hourly_bucket.State
  batch_upsert_hourly_bucket rows s =
      batch_upsert db.hourly_bucket add_hourly_columns s (rows_of rows)

  abbrev pub written :
      {S : Type 0} → Option S → (S → Contents db) → Contents db → Contents db × Option String
  written none after s = (s, some "rolled back")
  written (some t) after s = (after t, none)

  unfoldable pub production_fns : FlushFns (Contents db)
  unfolding batch_upsert delta_row add_columns add_hourly_columns
  production_fns = record {
    tokens_fn = some (λ rows s.
        written (batch_upsert_token_daily rows s.token_daily) (λ t. record s { token_daily = t })
          s);
    channels_fn = some (λ rows s.
        written (batch_upsert_channel_daily rows s.channel_daily)
          (λ t. record s { channel_daily = t }) s);
    hourly_fn = some (λ rows s.
        written (batch_upsert_hourly_bucket rows s.hourly_bucket)
          (λ t. record s { hourly_bucket = t }) s);
  }
