-- ===== src/Relay/Affinity.antt =====
-- internal/agent/relay/affinity: which channel a user's model last had cache activity on. A time is
-- a number of nanoseconds, and each call takes the reading of the clock that it makes.
pub mod Store
pub mod Engine
pub mod Sticky
use vaala_ai_gateway.Prelude.{
  ℕ, ◌≡◌, ◌↔◌, ℤ, leb, Bool, true, ◌&&◌, String, str_eq, eq_iff, List, Option, ◌==◌, arith,
}
use vaala_ai_gateway.Utils.SyncMap.{Comparable}
use vaala_ai_gateway.Relay.State.{ChannelSource}

pub record Key : Type 0 where
  pub user_id : ℕ
  pub real_model : String

pub key_eq :
    (a b : Key) → ((a.user_id == b.user_id && str_eq a.real_model b.real_model) ≡ true) ↔ (a ≡ b)
key_eq a b = (
  λ h. ground (arith, eq_iff a.real_model b.real_model),
  λ h. ground (arith, eq_iff a.real_model b.real_model),
)

instance abbrev pub key_comparable : Comparable Key
key_comparable = record {
  eqb = λ a b. a.user_id == b.user_id && str_eq a.real_model b.real_model;
  eqb_iff = key_eq;
}

pub record Entry : Type 0 where
  pub source : ChannelSource
  pub source_id : ℕ
  pub expires_at : ℕ

abbrev pub max_entries : ℕ
max_entries = 50000

-- `ttlStore`
abbrev pub TtlStore : Type 0
TtlStore = List (Key × Entry)

-- `!now.Before(e.ExpiresAt)`
abbrev pub is_expired : ℕ → Entry → Bool
is_expired now e = leb e.expires_at now

-- The two settings that a `ConfigReader` gives.
pub record AffinitySettings : Type 0 where
  pub affinity_enabled : ℤ
  pub affinity_ttl_sec : ℤ

pub record Decision : Type 0 where
  pub record_it : Bool
  pub apply_it : Bool

-- `Engine` with the global policy; a nil `cfg` is `none`.
pub record AffinityEngine : Type 0 where
  pub entries : TtlStore
  pub cfg : Option AffinitySettings

-- `time.Second` in nanoseconds.
abbrev pub second : ℕ
second = 1000000000
