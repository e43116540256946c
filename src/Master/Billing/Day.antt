-- ===== src/Master/Billing/Day.antt =====
-- internal/dao/billing.go: the logs of an hour have keys of that hour.
use vaala_ai_gateway.Prelude.{
  ℕ, zero, suc, ◌+◌, ◌*◌, ◌≤◌, ◌<◌, ◌≡◌, refl, true, false, ◌&&◌, List, arith, ◌==◌, All,
  All-of_IsIn, All-concat, All-mono, IsIn-filter,
}
use vaala_ai_gateway.Master.Billing.{
  UsageLog, Clock, TokenKey, ChannelKey, HourlyKey, token_key_comparable, channel_key_comparable,
  hourly_key_comparable, seconds_or, is_positive, day_of, hour_of,
}
use vaala_ai_gateway.Master.Billing.Rollup.{
  Database, token_row_key, channel_row_key, hourly_row_key,
}
use vaala_ai_gateway.Master.Billing.Rebuilt.{of_hour}
use vaala_ai_gateway.Master.Billing.Slices.{up_to}

module _ (db : Database) (clock : Clock) (logs : List UsageLog) (date : ℕ) (after_epoch : 0 < date)
    (small : date < 100000000000000) where
  abbrev pub InHour : ℕ → UsageLog → Type 0
  InHour h log =
      (date * 86400 + h * 3600 ≤ log.created_at) × (log.created_at < date * 86400 + h * 3600 + 3600)

  of_hour-InHour : (h : ℕ) → All (InHour h) (of_hour db clock logs date h)
  of_hour-InHour h =
      All-of_IsIn _ _ λ log i. let (_, e) = IsIn-filter _ logs i in (ground (arith), ground (arith))

  seconds_of :
      (now h : ℕ) (log : UsageLog) → h < 24 → InHour h log → seconds_or now log ≡ log.created_at
  seconds_of now h log b i =
      let p : is_positive log.created_at ≡ true = ground (arith, i.0, i.1) in rw p refl

  day_of_hour :
      (h : ℕ) (c : ℕ)
      → h < 24
      → date * 86400 + h * 3600 ≤ c
      → c < date * 86400 + h * 3600 + 3600
      → day_of c ≡ date
  day_of_hour h c b lo hi = omega arith

  hour_of_hour :
      (h : ℕ) (c : ℕ)
      → h < 24
      → date * 86400 + h * 3600 ≤ c
      → c < date * 86400 + h * 3600 + 3600
      → hour_of c ≡ h
  hour_of_hour h c b lo hi = omega arith

  -- A log of an hour has no key of another day, nor in the hourly table of another hour.
  pub token_other :
      (h : ℕ) (j : TokenKey)
      → h < 24
      → (j.date == date) ≡ false
      → All
          (λ log. token_key_comparable.eqb (token_row_key db clock log) j ≡ false)
          (of_hour db clock logs date h)
  unfolding token_row_key
  token_other h j b o =
      All-mono _ _ _
        (λ log i.
          let m = seconds_of clock.date_now h log b i in
          let d = day_of_hour h log.created_at b i.0 i.1 in rw (m, d) (ground (arith)))
        (of_hour-InHour h)

  pub channel_other :
      (h : ℕ) (j : ChannelKey)
      → h < 24
      → (j.date == date) ≡ false
      → All
          (λ log. channel_key_comparable.eqb (channel_row_key db clock log) j ≡ false)
          (of_hour db clock logs date h)
  unfolding channel_row_key
  channel_other h j b o =
      All-mono _ _ _
        (λ log i.
          let m = seconds_of clock.date_now h log b i in
          let d = day_of_hour h log.created_at b i.0 i.1 in rw (m, d) (ground (arith)))
        (of_hour-InHour h)

  pub bucket_other :
      (h : ℕ) (j : HourlyKey)
      → h < 24
      → (j.date == date && j.hour == h) ≡ false
      → All
          (λ log. hourly_key_comparable.eqb (hourly_row_key db clock log) j ≡ false)
          (of_hour db clock logs date h)
  unfolding hourly_row_key
  bucket_other h j b o =
      All-mono _ _ _
        (λ log i.
          let m = seconds_of clock.now h log b i in
          let d = day_of_hour h log.created_at b i.0 i.1 in
          let k = hour_of_hour h log.created_at b i.0 i.1 in rw (m, d, k) (ground (arith)))
        (of_hour-InHour h)

  pub bucket_later :
      (n : ℕ) (j : HourlyKey)
      → n ≤ 24
      → n ≤ j.hour
      → All
          (λ log. hourly_key_comparable.eqb (hourly_row_key db clock log) j ≡ false)
          (up_to (of_hour db clock logs date) n)
  bucket_later zero j b o = tt
  bucket_later (suc n) j b o =
      All-concat _ (up_to (of_hour db clock logs date) n) _
        (bucket_later n j (omega arith) (omega arith))
        (bucket_other n j (omega arith) (ground arith))
