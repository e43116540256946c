-- ===== src/Master/Billing/Rebuilt.antt =====
-- internal/dao/billing.go: what the slices of a day leave in the tables.
use vaala_ai_gateway.Prelude.{
  ℕ, zero, suc, ◌+◌, ◌*◌, ◌≤◌, ◌<◌, ◌≡◌, refl, sym, ap, ◌∙◌, inl, inr, Bool, true, false, ◌&&◌,
  String, List, [], ◌∷◌, Option, none, some, arith, Option-cases, ltb, ◌==◌, filter,
}
use vaala_ai_gateway.Master.Billing.{
  UsageLog, Clock, Counts, HourlyCounts, ChannelLabel, TokenKey, ChannelKey, HourlyKey,
  token_key_comparable, channel_key_comparable, hourly_key_comparable,
}
use vaala_ai_gateway.Utils.SyncMap.{Comparable}
use vaala_ai_gateway.Master.Billing.Rollup.{
  Row, Table, Database, add_columns, add_hourly_columns, upsert_token_daily, upsert_channel_daily,
  upsert_hourly_bucket,
}
use vaala_ai_gateway.Master.Billing.Wiring.{Contents}
use vaala_ai_gateway.Master.Billing.Columns.{add_columns_assoc, add_hourly_columns_assoc}
use vaala_ai_gateway.Master.Billing.Rebuild.{
  Targets, created_between, hour_range_unix, on_table, on_tables, replay_log, replay_logs,
  clear_slice, rebuild_hour_slice, rebuild_hours,
}
use vaala_ai_gateway.Master.Billing.Slices.{replay, slices}

module _ (db : Database) (clock : Clock) (logs : List UsageLog) (date : ℕ) where
  -- The logs of an hour of the day, in the order of their ids.
  abbrev pub of_hour : ℕ → List UsageLog
  of_hour h =
      filter (created_between (date * 86400 + h * 3600) (date * 86400 + h * 3600 + 3600)) logs

  abbrev pub clear_tokens : ℕ → db.token_daily.State → Option db.token_daily.State
  clear_tokens h =
      on_table db ((h == 0) && true) (db.token_daily.delete_where (λ k. k.date == date))

  abbrev pub clear_channels : ℕ → db.channel_daily.State → Option db.channel_daily.State
  clear_channels h =
      on_table db ((h == 0) && true) (db.channel_daily.delete_where (λ k. k.date == date))

  abbrev pub clear_buckets : ℕ → db.hourly_bucket.State → Option db.hourly_bucket.State
  clear_buckets h = db.hourly_bucket.delete_where (λ k. k.date == date && k.hour == h)

  abbrev pub token_slices : ℕ → db.token_daily.State → Option db.token_daily.State
  token_slices n s =
      slices TokenKey String Counts add_columns add_columns_assoc db.token_daily clear_tokens
        (upsert_token_daily db clock) of_hour n s

  abbrev pub channel_slices : ℕ → db.channel_daily.State → Option db.channel_daily.State
  channel_slices n s =
      slices ChannelKey ChannelLabel Counts add_columns add_columns_assoc db.channel_daily
        clear_channels (upsert_channel_daily db clock) of_hour n s

  abbrev pub bucket_slices : ℕ → db.hourly_bucket.State → Option db.hourly_bucket.State
  bucket_slices n s =
      slices HourlyKey ChannelLabel HourlyCounts add_hourly_columns add_hourly_columns_assoc
        db.hourly_bucket clear_buckets (upsert_hourly_bucket db clock) of_hour n s

  -- A statement on the three tables is one on each.
  pub on_tables-Each :
      (f : db.token_daily.State → Option db.token_daily.State)
      (g : db.channel_daily.State → Option db.channel_daily.State)
      (h : db.hourly_bucket.State → Option db.hourly_bucket.State) (s s' : Contents db)
      → on_tables db f g h s ≡ some s'
      → (f s.token_daily ≡ some s'.token_daily)
        × (g s.channel_daily ≡ some s'.channel_daily)
        × (h s.hourly_bucket ≡ some s'.hourly_bucket)
  on_tables-Each f g h s s' ran = go (f s.token_daily) (g s.channel_daily) (h s.hourly_bucket) ran
    where
      go :
          (t : Option db.token_daily.State) (c : Option db.channel_daily.State)
          (b : Option db.hourly_bucket.State)
          → (elim t [
            | none ↦ none
            | some t ↦ elim c [
              | none ↦ none
              | some c ↦ elim b [
                | none ↦ none
                | some b ↦ some (record { token_daily = t; channel_daily = c; hourly_bucket = b })
              ]
            ]
          ])
            ≡ some s'
          → (t ≡ some s'.token_daily) × (c ≡ some s'.channel_daily) × (b ≡ some s'.hourly_bucket)
      go none c b h = absurd (cc)
      go (some t) none b h = absurd (cc)
      go (some t) (some c) none h = absurd (cc)
      go (some t) (some c) (some b) h =
          let q : record { token_daily = t; channel_daily = c; hourly_bucket = b } ≡ s' = cc in
          (
            ap (λ x. some x.token_daily) q,
            ap (λ x. some x.channel_daily) q,
            ap (λ x. some x.hourly_bucket) q,
          )

  -- A statement where the table is a target, then one on the result.
  on_table-then :
      {S : Type 0} (b : Bool) (f g h : S → Option S)
      → ((s s1 s' : S) → f s ≡ some s1 → g s1 ≡ some s' → h s ≡ some s')
      → (s s1 s' : S) → on_table db b f s ≡ some s1
      → on_table db b g s1 ≡ some s'
      → on_table db b h s ≡ some s'
  on_table-then true f g h step s s1 s' p q = step s s1 s' p q
  on_table-then false f g h step s s1 s' p q = p ∙ q

  replay-cons :
      {K D M : Type 0} ⦃e : Comparable K⦄ (plus : M → M → M)
      (assoc : (a b c : M) → plus (plus a b) c ≡ plus a (plus b c)) (table : Table K (Row D M))
      (up : UsageLog → table.State → Option table.State) (log : UsageLog) (l : List UsageLog)
      (s s1 s' : table.State)
      → up log s ≡ some s1
      → replay K D M plus assoc table up l s1 ≡ some s'
      → replay K D M plus assoc table up (log ∷ l) s ≡ some s'
  unfolding replay
  replay-cons plus assoc table up log l s s1 s' p q = rw (p, replay) q

  abbrev token_replay : List UsageLog → db.token_daily.State → Option db.token_daily.State
  token_replay l s =
      replay TokenKey String Counts add_columns add_columns_assoc db.token_daily
        (upsert_token_daily db clock) l s

  abbrev channel_replay : List UsageLog → db.channel_daily.State → Option db.channel_daily.State
  channel_replay l s =
      replay ChannelKey ChannelLabel Counts add_columns add_columns_assoc db.channel_daily
        (upsert_channel_daily db clock) l s

  abbrev bucket_replay : List UsageLog → db.hourly_bucket.State → Option db.hourly_bucket.State
  bucket_replay l s =
      replay HourlyKey ChannelLabel HourlyCounts add_hourly_columns add_hourly_columns_assoc
        db.hourly_bucket (upsert_hourly_bucket db clock) l s

  -- A statement for each table, where it is a target.
  abbrev pub Each :
      Targets
      → (db.token_daily.State → Option db.token_daily.State)
      → (db.channel_daily.State → Option db.channel_daily.State)
      → (db.hourly_bucket.State → Option db.hourly_bucket.State)
      → Contents db
      → Contents db
      → Type 0
  Each targets f g h s s' =
      (on_table db targets.token_daily f s.token_daily ≡ some s'.token_daily)
      × (on_table db targets.channel_daily g s.channel_daily ≡ some s'.channel_daily)
      × (on_table db targets.hourly_bucket h s.hourly_bucket ≡ some s'.hourly_bucket)

  on_table_nothing :
      {S : Type 0} (b : Bool) (f : S → Option S)
      → ((s : S) → f s ≡ some s)
      → (s : S) → on_table db b f s ≡ some s
  on_table_nothing true f h s = h s
  on_table_nothing false f h s = refl

  -- A replay of logs into the three tables is one into each.
  pub replay_logs-Each :
      (targets : Targets) (l : List UsageLog) (s s' : Contents db)
      → replay_logs db clock targets l s ≡ some s'
      → Each targets (token_replay l) (channel_replay l) (bucket_replay l) s s'
  unfolding replay_logs replay_log replay
  replay_logs-Each targets [] s s' h =
      let q : s ≡ s' = cc in
      (
        on_table_nothing targets.token_daily _ (λ x. refl) s.token_daily
            ∙ ap (λ x. some x.token_daily) q,
        on_table_nothing targets.channel_daily _ (λ x. refl) s.channel_daily
            ∙ ap (λ x. some x.channel_daily) q,
        on_table_nothing targets.hourly_bucket _ (λ x. refl) s.hourly_bucket
            ∙ ap (λ x. some x.hourly_bucket) q,
      )
  replay_logs-Each targets (log ∷ l) s s' h =
      elim (Option-cases (replay_log db clock targets log s)) [
        | inl bad ↦ let h' = rw (bad, replay_logs) at h in absurd (cc)
        | inr (s1, ran) ↦
            let h' = rw (ran, replay_logs) at h in
            let (t, c, b) =
              on_tables-Each (on_table db targets.token_daily (upsert_token_daily db clock log))
                (on_table db targets.channel_daily (upsert_channel_daily db clock log))
                (on_table db targets.hourly_bucket (upsert_hourly_bucket db clock log)) s s1 ran in
            let (t', c', b') = replay_logs-Each targets l s1 s' h' in
            (
              on_table-then targets.token_daily (upsert_token_daily db clock log) (token_replay l)
                  (token_replay (log ∷ l))
                  (replay-cons add_columns add_columns_assoc db.token_daily
                    (upsert_token_daily db clock) log l)
                  _ _ _ t t',
              on_table-then targets.channel_daily (upsert_channel_daily db clock log)
                  (channel_replay l) (channel_replay (log ∷ l))
                  (replay-cons add_columns add_columns_assoc db.channel_daily
                    (upsert_channel_daily db clock) log l)
                  _ _ _ c c',
              on_table-then targets.hourly_bucket (upsert_hourly_bucket db clock log)
                  (bucket_replay l) (bucket_replay (log ∷ l))
                  (replay-cons add_hourly_columns add_hourly_columns_assoc db.hourly_bucket
                    (upsert_hourly_bucket db clock) log l)
                  _ _ _ b b',
            )
      ]

  slice_steps :
      (targets : Targets) (n : ℕ) (s s' : Contents db)
      → n < 24
      → rebuild_hour_slice db clock logs date n targets (n == 0) s ≡ some s'
      → (s2 : Contents db) × (clear_slice db date n targets (n == 0) s ≡ some s2)
        × (replay_logs db clock targets (of_hour n) s2 ≡ some s')
  unfolding rebuild_hour_slice hour_range_unix
  slice_steps targets n s s' b h =
      let small : ltb 23 n ≡ false = ground arith in
      let h' = rw (small, rebuild_hour_slice) at h in
      elim (Option-cases (clear_slice db date n targets (n == 0) s)) [
        | inl bad ↦ let h2 = rw (bad, rebuild_hour_slice) at h' in absurd (cc)
        | inr (s2, ran) ↦ (s2, ran, let h2 = rw (ran, rebuild_hour_slice) at h' in h2)
      ]

  -- A deletion only at a reset.
  reset_table :
      {S : Type 0} (reset b : Bool) (f : S → Option S) (s : S)
      → on_table db (reset && b) f s ≡ on_table db b (on_table db (reset && true) f) s
  reset_table true true f s = refl
  reset_table true false f s = refl
  reset_table false true f s = refl
  reset_table false false f s = refl

  clear_slice-Each :
      (targets : Targets) (n : ℕ) (s s' : Contents db)
      → clear_slice db date n targets (n == 0) s ≡ some s'
      → Each targets (clear_tokens n) (clear_channels n) (clear_buckets n) s s'
  unfolding clear_slice
  clear_slice-Each targets n s s' h =
      let (t, c, b) =
        on_tables-Each
          (on_table db ((n == 0) && targets.token_daily)
            (db.token_daily.delete_where (λ k. k.date == date)))
          (on_table db ((n == 0) && targets.channel_daily)
            (db.channel_daily.delete_where (λ k. k.date == date)))
          (on_table db targets.hourly_bucket (clear_buckets n)) s s' h in
      (
        sym (reset_table (n == 0) targets.token_daily _ s.token_daily) ∙ t,
        sym (reset_table (n == 0) targets.channel_daily _ s.channel_daily) ∙ c,
        b,
      )

  slices-suc :
      {K D M : Type 0} ⦃e : Comparable K⦄ (plus : M → M → M)
      (assoc : (a b c : M) → plus (plus a b) c ≡ plus a (plus b c)) (table : Table K (Row D M))
      (clear : ℕ → table.State → Option table.State)
      (up : UsageLog → table.State → Option table.State) (n : ℕ) (b : Bool)
      (s s1 s2 s' : table.State)
      → on_table db b (slices K D M plus assoc table clear up of_hour n) s ≡ some s1
      → on_table db b (clear n) s1 ≡ some s2
      → on_table db b (replay K D M plus assoc table up (of_hour n)) s2 ≡ some s'
      → on_table db b (slices K D M plus assoc table clear up of_hour (suc n)) s ≡ some s'
  unfolding slices
  slices-suc plus assoc table clear up n true s s1 s2 s' p q r = rw (p, q, slices) r
  slices-suc plus assoc table clear up n false s s1 s2 s' p q r = p ∙ q ∙ r

  -- The hours of the day on the three tables are slices of each.
  pub rebuild_hours-Each :
      (targets : Targets) (n : ℕ) (s s' : Contents db)
      → n ≤ 24
      → rebuild_hours db clock logs date targets n s ≡ some s'
      → Each targets (token_slices n) (channel_slices n) (bucket_slices n) s s'
  unfolding rebuild_hours slices
  rebuild_hours-Each targets zero s s' b h =
      let q : s ≡ s' = cc in
      (
        on_table_nothing targets.token_daily _ (λ x. refl) s.token_daily
            ∙ ap (λ x. some x.token_daily) q,
        on_table_nothing targets.channel_daily _ (λ x. refl) s.channel_daily
            ∙ ap (λ x. some x.channel_daily) q,
        on_table_nothing targets.hourly_bucket _ (λ x. refl) s.hourly_bucket
            ∙ ap (λ x. some x.hourly_bucket) q,
      )
  rebuild_hours-Each targets (suc n) s s' b h =
      elim (Option-cases (rebuild_hours db clock logs date targets n s)) [
        | inl bad ↦ let h' = rw (bad, rebuild_hours) at h in absurd (cc)
        | inr (s1, ran1) ↦
            let h' = rw (ran1, rebuild_hours) at h in
            let (s2, ran2, ran3) = slice_steps targets n s1 s' (omega arith) h' in
            let (t, c, k) = rebuild_hours-Each targets n s s1 (omega arith) ran1 in
            let (t2, c2, k2) = clear_slice-Each targets n s1 s2 ran2 in
            let (t3, c3, k3) = replay_logs-Each targets (of_hour n) s2 s' ran3 in
            (
              slices-suc add_columns add_columns_assoc db.token_daily clear_tokens
                  (upsert_token_daily db clock) n targets.token_daily _ _ _ _ t t2 t3,
              slices-suc add_columns add_columns_assoc db.channel_daily clear_channels
                  (upsert_channel_daily db clock) n targets.channel_daily _ _ _ _ c c2 c3,
              slices-suc add_hourly_columns add_hourly_columns_assoc db.hourly_bucket clear_buckets
                  (upsert_hourly_bucket db clock) n targets.hourly_bucket _ _ _ _ k k2 k3,
            )
      ]
