-- ===== src/Relay/Resilience/Breakers/Kept.antt =====
-- internal/agent/relay/resilience/breakers.go: requests for one channel share its breaker.
use vaala_ai_gateway.Prelude.{
  Bool, ap, sym, ◌∙◌, ℕ, ◌+◌, ◌<◌, ◌≡◌, refl, leb, Option-cases, inl, inr, Bool-cases, some, arith,
  if◌then◌else◌, length,
}
use vaala_ai_gateway.Utils.SyncMap
use vaala_ai_gateway.Utils.SyncMap.{load-put, load-sweep}
use vaala_ai_gateway.Relay.Resilience.{Config}
use vaala_ai_gateway.Relay.Resilience.Breakers.{
  BreakerKey, BreakerEntry, breaker_key_comparable, breaker_key_eq, Registry, is_idle, sweep,
  get_or_build, get, idle_ttl, max_breakers,
}

abbrev pub same_key : BreakerKey → BreakerKey → Bool
same_key = breaker_key_comparable.eqb

module _ (Breaker Heap : Type 0) (build : Config → Heap → Breaker × Heap) where
  load-get_or_build :
      (now : ℕ) (key j : BreakerKey) (cfg : Config) (m : Registry Breaker Heap build) (h : Heap)
      (e : BreakerEntry Breaker)
      → SyncMap.load m j ≡ some e
      → SyncMap.load (get_or_build Breaker Heap build now key cfg m h).1 j
        ≡ some (if same_key key j then record e { exp = now + idle_ttl } else e)
  unfolding get_or_build SyncMap.load_or_store
  load-get_or_build now key j cfg m h e found = elim (Option-cases (SyncMap.load m key)) [
    | inl miss ↦
        rw (miss, get_or_build)
          (rw (miss, SyncMap.load_or_store)
            (load-put m key j _ ∙ elim (Bool-cases (same_key key j)) [
              | inl t ↦
                  absurd (let p = (breaker_key_eq key j).0 t in let q = ap (SyncMap.load m) p in cc)
              | inr t ↦ rw t found
            ]))
    | inr (old, hit) ↦
        rw (hit, get_or_build)
          (load-put m key j _ ∙ elim (Bool-cases (same_key key j)) [
            | inl t ↦
                let p = (breaker_key_eq key j).0 t in
                let q = ap (SyncMap.load m) p in
                let r = sym hit ∙ q ∙ found in let same : old ≡ e = cc in rw (t, same) refl
            | inr t ↦ rw t found
          ])
  ]

  get_or_build-hit :
      (now : ℕ) (key : BreakerKey) (cfg : Config) (m : Registry Breaker Heap build) (h : Heap)
      (e : BreakerEntry Breaker)
      → SyncMap.load m key ≡ some e
      → ((get_or_build Breaker Heap build now key cfg m h).0 ≡ e.cb)
        × ((get_or_build Breaker Heap build now key cfg m h).2 ≡ h)
  unfolding get_or_build
  get_or_build-hit now key cfg m h e found = rw (found, get_or_build) (refl, refl)

  -- A breaker that is still in use at the sweep survives the call for any channel and with any
  -- parameters: only the time of the channel that was asked for is renewed, and that channel gets
  -- its own breaker back.
  pub get_keeps :
      (now now' : ℕ) (key j : BreakerKey) (cfg : Config) (m : Registry Breaker Heap build)
      (h : Heap) (e : BreakerEntry Breaker)
      → SyncMap.load m j ≡ some e
      → now < e.exp
      → let (cb, m', h') = get Breaker Heap build now now' key cfg m h in
        (SyncMap.load m' j
          ≡ some (if same_key key j then record e { exp = now' + idle_ttl } else e))
        × (key ≡ j → (cb ≡ e.cb) × (h' ≡ h))
  unfolding get
  get_keeps now now' key j cfg m h e found live = (
    load-get_or_build now' key j cfg kept h e found',
    λ p. get_or_build-hit now' key cfg kept h e (ap (SyncMap.load kept) p ∙ found'),
  )
    where
      kept : Registry Breaker Heap build
      kept = if leb max_breakers (length m) then sweep Breaker Heap build now m else m

      found' : SyncMap.load kept j ≡ some e
      found' = elim (Bool-cases (leb max_breakers (length m))) [
        | inl t ↦ rw t (
            unfold sweep in
            load-sweep (is_idle Breaker Heap build now) (SyncMap.keys m) m j e found (ground arith))
        | inr t ↦ rw t found
      ]
