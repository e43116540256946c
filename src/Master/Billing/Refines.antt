-- ===== src/Master/Billing/Refines.antt =====
-- internal/master/billing/aggregator.go and internal/dao/billing.go: the aggregator in front of the
-- database against a database to which each log is added on its own.
use vaala_ai_gateway.Prelude.{
  ℕ, ◌≡◌, refl, sym, ◌∙◌, inl, inr, false, String, List, [], ◌∷◌, Option, none, some, arith,
  Bool-cases, Option-cases, ◌==◌, ==_iff, length,
}
use vaala_ai_gateway.Utils.SyncMap.{Comparable, load}
use vaala_ai_gateway.Utils.SyncMap.Unique.{IsUnique, put-IsUnique}
use vaala_ai_gateway.Master.Billing.{
  UsageLog, Clock, Counts, HourlyCounts, ChannelLabel, TokenKey, ChannelKey, HourlyKey,
  token_key_comparable, channel_key_comparable, hourly_key_comparable, seconds_or, label_of,
}
use vaala_ai_gateway.Master.Billing.Rollup.{
  Row, Database, Table, add_columns, add_hourly_columns, row_counts, row_hourly_counts,
  upsert_token_daily, upsert_channel_daily, upsert_hourly_bucket, token_row_key, channel_row_key,
  hourly_row_key, batch_upsert,
}
use vaala_ai_gateway.Master.Billing.Aggregator.{
  Delta, Aggregator, count_log, count_hourly, submit, flush, new_aggregator, token_key, channel_key,
  hourly_key, row_count, empty_delta, no_counts, no_hourly_counts, no_label, accumulate,
}
use vaala_ai_gateway.Master.Billing.Wiring.{Contents, production_fns, rows_of}
use vaala_ai_gateway.Master.Billing.Columns.{
  IsCountable, IsNormal, none-IsNormal, add_columns_assoc, add_hourly_columns_assoc,
  add_hourly_columns-IsNormal, count_log_lem, count_hourly_lem, zero_add_counts,
  zero_add_hourly_counts,
}
use vaala_ai_gateway.Master.Billing.Merge
use vaala_ai_gateway.Master.Billing.Mirrors

module _ (db : Database) where
  -- The aggregator, the tables behind it, and tables to which each log is added on its own, from the
  -- same contents on. The two sides read the clock on their own.
  pub data Tracked : Aggregator → Contents db → Contents db → Type 0 where
    started : (max_rows : ℕ) (s : Contents db) → Tracked (new_aggregator max_rows) s s
    submitted :
        (a : Aggregator) (s t t' : Contents db) (clock clock' : Clock) (log : UsageLog)
        → Tracked a s t
        → IsCountable log
        → upsert_token_daily db clock' log t.token_daily ≡ some t'.token_daily
        → upsert_channel_daily db clock' log t.channel_daily ≡ some t'.channel_daily
        → upsert_hourly_bucket db clock' log t.hourly_bucket ≡ some t'.hourly_bucket
        → Tracked (submit clock log a) s t'
    flushed :
        (a : Aggregator) (s t : Contents db)
        → Tracked a s t
        → (flush (production_fns db) a s).2 ≡ none
        → Tracked (flush (production_fns db) a s).0 (flush (production_fns db) a s).1 t

  abbrev TokenMirrors : Aggregator → Contents db → Contents db → Type 0
  TokenMirrors a s t =
      Mirrors.Mirrors String Counts add_columns add_columns_assoc db.token_daily s.token_daily
        a.tokens t.token_daily

  abbrev ChannelMirrors : Aggregator → Contents db → Contents db → Type 0
  ChannelMirrors a s t =
      Mirrors.Mirrors ChannelLabel Counts add_columns add_columns_assoc db.channel_daily
        s.channel_daily a.channels t.channel_daily

  abbrev HourlyMirrors : Aggregator → Contents db → Contents db → Type 0
  HourlyMirrors a s t =
      Mirrors.Mirrors ChannelLabel HourlyCounts add_hourly_columns add_hourly_columns_assoc
        db.hourly_bucket s.hourly_bucket a.hourly t.hourly_bucket

  pub record Refined (a : Aggregator) (s t : Contents db) : Type 0 where
    pub tokens : TokenMirrors a s t
    pub channels : ChannelMirrors a s t
    pub hourly : HourlyMirrors a s t
    pub tokens_unique : IsUnique a.tokens
    pub channels_unique : IsUnique a.channels
    pub hourly_unique : IsUnique a.hourly
    pub hourly_normal :
        (k : HourlyKey) (d : Delta ChannelLabel HourlyCounts)
        → load a.hourly k ≡ some d
        → IsNormal d.counters

  -- The keys and the moment of a log whose moment is set do not depend on the clock.
  same_token_key :
      (clock clock' : Clock) (log : UsageLog)
      → IsCountable log
      → token_row_key db clock' log ≡ token_key clock log
  unfolding token_row_key token_key
  same_token_key clock clock' log h = rw h.moment refl

  same_channel_key :
      (clock clock' : Clock) (log : UsageLog)
      → IsCountable log
      → channel_row_key db clock' log ≡ channel_key clock log
  unfolding channel_row_key channel_key
  same_channel_key clock clock' log h = rw h.moment refl

  same_hourly_key :
      (clock clock' : Clock) (log : UsageLog)
      → IsCountable log
      → hourly_row_key db clock' log ≡ hourly_key clock log
  unfolding hourly_row_key hourly_key
  same_hourly_key clock clock' log h = rw h.moment refl

  same_moment :
      (clock clock' : Clock) (log : UsageLog)
      → IsCountable log
      → seconds_or clock'.now log ≡ seconds_or clock.now log
  same_moment clock clock' log h = rw h.moment refl

  Refined-started : (max_rows : ℕ) (s : Contents db) → Refined (new_aggregator max_rows) s s
  unfolding new_aggregator load
  Refined-started max_rows s = record {
    tokens = λ j. sym (Merge.merge-none String Counts add_columns add_columns_assoc _);
    channels = λ j. sym (Merge.merge-none ChannelLabel Counts add_columns add_columns_assoc _);
    hourly = λ j.
        sym (
          Merge.merge-none ChannelLabel HourlyCounts add_hourly_columns add_hourly_columns_assoc _);
    tokens_unique = tt;
    channels_unique = tt;
    hourly_unique = tt;
    hourly_normal = λ k d h. absurd (cc);
  }

  Refined-submitted :
      (a : Aggregator) (s t t' : Contents db) (clock clock' : Clock) (log : UsageLog)
      → Refined a s t
      → IsCountable log
      → upsert_token_daily db clock' log t.token_daily ≡ some t'.token_daily
      → upsert_channel_daily db clock' log t.channel_daily ≡ some t'.channel_daily
      → upsert_hourly_bucket db clock' log t.hourly_bucket ≡ some t'.hourly_bucket
      → Refined (submit clock log a) s t'
  unfolding submit accumulate upsert_token_daily upsert_channel_daily upsert_hourly_bucket
  Refined-submitted a s t t' clock clock' log r h token channel hourly = record {
    tokens =
        Mirrors.Mirrors-submit String Counts add_columns add_columns_assoc (λ c. Unit) (λ c d. tt)
          (empty_delta "" no_counts) tt (count_log log) (row_counts log)
          (λ c _. count_log_lem log c) (zero_add_counts log h) refl db.token_daily s.token_daily
          t.token_daily t'.token_daily a.tokens (token_key clock log) log.token_name
          (seconds_or clock.now log) r.tokens (λ j d _. tt)
          (rw (same_token_key clock clock' log h, same_moment clock clock' log h) at token);
    channels =
        Mirrors.Mirrors-submit ChannelLabel Counts add_columns add_columns_assoc (λ c. Unit)
          (λ c d. tt) (empty_delta no_label no_counts) tt (count_log log) (row_counts log)
          (λ c _. count_log_lem log c) (zero_add_counts log h) refl db.channel_daily s.channel_daily
          t.channel_daily t'.channel_daily a.channels (channel_key clock log) (label_of log)
          (seconds_or clock.now log) r.channels (λ j d _. tt)
          (rw (same_channel_key clock clock' log h, same_moment clock clock' log h) at channel);
    hourly =
        Mirrors.Mirrors-submit ChannelLabel HourlyCounts add_hourly_columns add_hourly_columns_assoc
          IsNormal add_hourly_columns-IsNormal (empty_delta no_label no_hourly_counts) none-IsNormal
          (count_hourly log) (row_hourly_counts log) (count_hourly_lem log)
          (zero_add_hourly_counts log h) refl db.hourly_bucket s.hourly_bucket t.hourly_bucket
          t'.hourly_bucket a.hourly (hourly_key clock log) (label_of log) (seconds_or clock.now log)
          r.hourly r.hourly_normal
          (rw (same_hourly_key clock clock' log h, same_moment clock clock' log h) at hourly);
    tokens_unique = put-IsUnique _ _ _ r.tokens_unique;
    channels_unique = put-IsUnique _ _ _ r.channels_unique;
    hourly_unique = put-IsUnique _ _ _ r.hourly_unique;
    hourly_normal =
        Merge.accumulate-IsNormal ChannelLabel HourlyCounts add_hourly_columns
          add_hourly_columns_assoc IsNormal add_hourly_columns-IsNormal
          (empty_delta no_label no_hourly_counts) none-IsNormal (count_hourly log)
          (row_hourly_counts log) (count_hourly_lem log) (zero_add_hourly_counts log h) refl
          a.hourly (hourly_key clock log) (label_of log) (seconds_or clock.now log) r.hourly_normal;
  }

  -- What a flush that writes without an error has done.
  record Written (a : Aggregator) (s s' : Contents db) : Type 0 where
    tokens :
        batch_upsert db.token_daily add_columns s.token_daily (rows_of a.tokens)
        ≡ some s'.token_daily
    channels :
        batch_upsert db.channel_daily add_columns s.channel_daily (rows_of a.channels)
        ≡ some s'.channel_daily
    hourly :
        batch_upsert db.hourly_bucket add_hourly_columns s.hourly_bucket (rows_of a.hourly)
        ≡ some s'.hourly_bucket

  write_all :
      (a : Aggregator) (s : Contents db)
      → (row_count a == 0) ≡ false
      → (flush (production_fns db) a s).2 ≡ none
      → Written a s (flush (production_fns db) a s).1
        × ((flush (production_fns db) a s).0 ≡ record a { tokens = []; channels = []; hourly = [] })
  unfolding flush production_fns
  write_all a s some_rows h =
      elim (Option-cases
        (batch_upsert db.token_daily add_columns s.token_daily (rows_of a.tokens))) [
          | inl e1 ↦ let h' = rw (some_rows, e1) at h in absurd (cc)
          | inr (t1, e1) ↦
              elim (Option-cases
                (batch_upsert db.channel_daily add_columns s.channel_daily (rows_of a.channels))) [
                  | inl e2 ↦ let h' = rw (some_rows, e1, e2) at h in absurd (cc)
                  | inr (t2, e2) ↦
                      elim (Option-cases (
                        batch_upsert db.hourly_bucket add_hourly_columns s.hourly_bucket
                          (rows_of a.hourly))) [
                            | inl e3 ↦ let h' = rw (some_rows, e1, e2, e3) at h in absurd (cc)
                            | inr (t3, e3) ↦
                                rw (some_rows, e1, e2, e3)
                                  (record { tokens = e1; channels = e2; hourly = e3 }, refl)
                          ]
                ]
        ]

  Refined-flushed :
      (a : Aggregator) (s t : Contents db)
      → Refined a s t
      → (flush (production_fns db) a s).2 ≡ none
      → Refined (flush (production_fns db) a s).0 (flush (production_fns db) a s).1 t
  unfolding flush load
  Refined-flushed a s t r h = elim (Bool-cases (row_count a == 0)) [
    | inl e ↦ rw e r
    | inr e ↦
        let (w, emptied) = write_all a s e h in
        rw emptied (record {
          tokens =
              Mirrors.Mirrors-flush String Counts add_columns add_columns_assoc db.token_daily
                s.token_daily _ t.token_daily a.tokens r.tokens r.tokens_unique w.tokens;
          channels =
              Mirrors.Mirrors-flush ChannelLabel Counts add_columns add_columns_assoc
                db.channel_daily s.channel_daily _ t.channel_daily a.channels r.channels
                r.channels_unique w.channels;
          hourly =
              Mirrors.Mirrors-flush ChannelLabel HourlyCounts add_hourly_columns
                add_hourly_columns_assoc db.hourly_bucket s.hourly_bucket _ t.hourly_bucket a.hourly
                r.hourly r.hourly_unique w.hourly;
          tokens_unique = tt;
          channels_unique = tt;
          hourly_unique = tt;
          hourly_normal = λ k d q. absurd (cc);
        })
  ]

  Tracked-Refined : (a : Aggregator) (s t : Contents db) → Tracked a s t → Refined a s t
  Tracked-Refined _ _ _ (started max_rows s) = Refined-started max_rows s
  Tracked-Refined _ _ _ (submitted a s t t' clock clock' log h c token channel hourly) =
      Refined-submitted a s t t' clock clock' log (Tracked-Refined a s t h) c token channel hourly
  Tracked-Refined _ _ _ (flushed a s t h e) = Refined-flushed a s t (Tracked-Refined a s t h) e

  -- The columns of a row but `created_at`.
  abbrev pub columns : {D M : Type 0} → Option (Row D M) → Option (Delta D M)
  columns none = none
  columns (some r) = some (record {
    described = r.described;
    counters = r.counters;
    last_used_at = r.last_used_at;
    updated_at = r.updated_at;
  })

  pub record SameTables (s t : Contents db) : Type 0 where
    pub token_daily :
        (k : TokenKey)
        → columns (db.token_daily.select s.token_daily k)
          ≡ columns (db.token_daily.select t.token_daily k)
    pub channel_daily :
        (k : ChannelKey)
        → columns (db.channel_daily.select s.channel_daily k)
          ≡ columns (db.channel_daily.select t.channel_daily k)
    pub hourly_bucket :
        (k : HourlyKey)
        → columns (db.hourly_bucket.select s.hourly_bucket k)
          ≡ columns (db.hourly_bucket.select t.hourly_bucket k)

  flush-empty : (a : Aggregator) (s : Contents db) → row_count (flush (production_fns db) a s).0 ≡ 0
  unfolding flush
  flush-empty a s = elim (Bool-cases (row_count a == 0)) [
    | inl e ↦ rw e ((==_iff _ 0).0 e)
    | inr e ↦ rw e (omega arith)
  ]

  shown-columns :
      {D M : Type 0} (plus : M → M → M)
      (assoc : (a b c : M) → plus (plus a b) c ≡ plus a (plus b c)) (o : Option (Row D M))
      → Merge.shown D M plus assoc o ≡ columns o
  shown-columns plus assoc none = refl
  shown-columns plus assoc (some r) = refl

  Mirrors-empty :
      {K D M : Type 0} ⦃e : Comparable K⦄ (plus : M → M → M)
      (assoc : (a b c : M) → plus (plus a b) c ≡ plus a (plus b c)) (table : Table K (Row D M))
      (s t : table.State) (l : List (K × Delta D M))
      → length l ≡ 0
      → Mirrors.Mirrors D M plus assoc table s l t
      → (k : K) → columns (table.select s k) ≡ columns (table.select t k)
  unfolding load
  Mirrors-empty plus assoc table s t [] e h k =
      sym (shown-columns plus assoc _)
      ∙ sym (Merge.merge-none _ _ plus assoc _)
      ∙ sym (h k)
      ∙ shown-columns plus assoc _
  Mirrors-empty plus assoc table s t (x ∷ l) e h k = absurd (omega (arith, e))

  -- However submissions and flushes without an error follow on one another, behind a further flush
  -- without an error the tables have the same rows, but for `created_at`, as tables to which each
  -- log was added on its own, where the numbers of each log are words and its moment is set.
  pub flush-SameTables :
      (a : Aggregator) (s t : Contents db)
      → Tracked a s t
      → (flush (production_fns db) a s).2 ≡ none
      → SameTables (flush (production_fns db) a s).1 t
  flush-SameTables a s t h e =
      let r = Refined-flushed a s t (Tracked-Refined a s t h) e in
      let gone = flush-empty a s in
      record {
        token_daily =
            Mirrors-empty add_columns add_columns_assoc db.token_daily _ _ _ (omega (arith, gone))
              r.tokens;
        channel_daily =
            Mirrors-empty add_columns add_columns_assoc db.channel_daily _ _ _ (omega (arith, gone))
              r.channels;
        hourly_bucket =
            Mirrors-empty add_hourly_columns add_hourly_columns_assoc db.hourly_bucket _ _ _
              (omega (arith, gone)) r.hourly;
      }
