-- ===== src/Relay/Resilience/Breakers.antt =====
-- internal/agent/relay/resilience/breakers.go: the registry of circuit breakers, one for each
-- channel. `Breaker` is the library's type; a value of it is a reference to one instance.
pub mod Kept
use vaala_ai_gateway.Prelude.{
  ℕ, ◌+◌, ◌*◌, ◌<◌, ◌≡◌, refl, ◌↔◌, leb, Bool, true, false, ◌&&◌, List, Option, none, some, ◌==◌,
  arith, if◌then◌else◌, length,
}
use vaala_ai_gateway.Utils.SyncMap
use vaala_ai_gateway.Utils.SyncMap.{Comparable}
use vaala_ai_gateway.Relay.State.{ChannelSource, admin, private, source_eq}
use vaala_ai_gateway.Relay.Resilience.{Config}

-- An hour, in nanoseconds.
abbrev pub idle_ttl : ℕ
idle_ttl = 3600000000000

abbrev pub max_breakers : ℕ
max_breakers = 10000

pub record BreakerKey : Type 0 where
  pub source : ChannelSource
  pub id : ℕ

source_eq_iff : (a b : ChannelSource) → (source_eq a b ≡ true) ↔ (a ≡ b)
source_eq_iff admin admin = (λ h. refl, λ h. refl)
source_eq_iff private private = (λ h. refl, λ h. refl)
source_eq_iff admin private = (λ h. absurd (cc), λ h. absurd (cc))
source_eq_iff private admin = (λ h. absurd (cc), λ h. absurd (cc))

pub breaker_key_eq :
    (a b : BreakerKey) → ((source_eq a.source b.source && a.id == b.id) ≡ true) ↔ (a ≡ b)
breaker_key_eq a b = (
  λ h. ground (arith, source_eq_iff a.source b.source),
  λ h. ground (arith, source_eq_iff a.source b.source),
)

instance abbrev pub breaker_key_comparable : Comparable BreakerKey
breaker_key_comparable = record {
  eqb = λ a b. source_eq a.source b.source && a.id == b.id;
  eqb_iff = breaker_key_eq;
}

pub record BreakerEntry (Breaker : Type 0) : Type 0 where
  pub cb : Breaker
  pub exp : ℕ

module _ (Breaker Heap : Type 0) (build : Config → Heap → Breaker × Heap) where
  abbrev pub Registry : Type 0
  Registry = List (BreakerKey × BreakerEntry Breaker)

  abbrev pub is_idle : ℕ → BreakerEntry Breaker → Bool
  is_idle now e = leb e.exp now

  unfoldable pub sweep : ℕ → Registry → Registry
  unfolding SyncMap.sweep
  sweep now m = SyncMap.sweep (is_idle now) (SyncMap.keys m) m

  -- The part of `Get` behind the sweep: a breaker that is there is kept, and its time is renewed.
  unfoldable pub get_or_build :
      ℕ → BreakerKey → Config → Registry → Heap → Breaker × Registry × Heap
  unfolding SyncMap.load SyncMap.put SyncMap.load_or_store
  get_or_build now key cfg m h = elim (SyncMap.load m key) [
    | some e ↦ (e.cb, SyncMap.put m key (record e { exp = now + idle_ttl }), h)
    | none ↦
        let (cb, h') = build cfg h in
        let (m', actual, loaded) =
          SyncMap.load_or_store m key (record { cb = cb; exp = now + idle_ttl }) in
        (actual.cb, m', h')
  ]

  -- `now` is read for the sweep, and `now'` behind it.
  unfoldable pub get : ℕ → ℕ → BreakerKey → Config → Registry → Heap → Breaker × Registry × Heap
  unfolding sweep get_or_build
  get now now' key cfg m h =
      get_or_build now' key cfg (if leb max_breakers (length m) then sweep now m else m) h
