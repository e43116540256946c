-- ===== src/Relay/Affinity/Sticky.antt =====
-- internal/agent/relay/affinity: a remembered channel is found until its time is over.
use vaala_ai_gateway.Prelude.{
  ℕ, ◌+◌, ◌≡◌, refl, ◌∙◌, sym, ltb, leb, true, none, some, arith, if◌then◌else◌, Bool-cases,
  Option-cases, inl, inr,
}
use vaala_ai_gateway.Utils.SyncMap
use vaala_ai_gateway.Utils.SyncMap.{load-put, load-delete}
use vaala_ai_gateway.Relay.State.{ChannelSource}
use vaala_ai_gateway.Relay.Affinity.{Key, key_eq, key_comparable, Entry, TtlStore, AffinityEngine}
use vaala_ai_gateway.Relay.Affinity.Store
use vaala_ai_gateway.Relay.Affinity.Engine

load-Store-remember :
    (now : ℕ) (s : TtlStore) (k : Key) (e : Entry)
    → SyncMap.load (Store.remember now s k e) k ≡ some e
unfolding Store.remember
load-Store-remember now s k e = let same = (key_eq k k).1 refl in load-put _ k k e ∙ rw same refl

lookup-load :
    (later : ℕ) (s : TtlStore) (k : Key) (e : Entry)
    → SyncMap.load s k ≡ some e
    → (Store.lookup later s k).1 ≡ (if leb e.expires_at later then none else some e)
unfolding Store.lookup
lookup-load later s k e h = elim (Bool-cases (leb e.expires_at later)) [
  | inl t ↦ rw (h, t, Store.lookup) refl
  | inr t ↦ rw (h, t, Store.lookup) refl
]

-- With a time to live above zero, a channel that was remembered is found by every lookup of its key
-- before the time is over, and by none from then on.
pub lookup-remember :
    (now now' later : ℕ) (engine : AffinityEngine) (k : Key) (source : ChannelSource)
    (source_id : ℕ)
    → ltb 0 (Engine.ttl engine) ≡ true
    → (Engine.lookup later (Engine.remember now now' engine k source source_id) k).1 ≡ (
        if ltb later (now + Engine.ttl engine)
        then some (record {
          source = source;
          source_id = source_id;
          expires_at = now + Engine.ttl engine;
        })
        else none)
unfolding Engine.lookup Engine.remember
lookup-remember now now' later engine k source source_id alive =
    rw (alive, Engine.remember)
      (lookup-load later _ k _ (load-Store-remember now' engine.entries k _) ∙ ground arith)

lookup-miss :
    (later : ℕ) (s : TtlStore) (k : Key)
    → SyncMap.load s k ≡ none
    → (Store.lookup later s k).1 ≡ none
unfolding Store.lookup
lookup-miss later s k h = rw (h, Store.lookup) refl

lookup-cong :
    (later : ℕ) (s s' : TtlStore) (k : Key)
    → SyncMap.load s k ≡ SyncMap.load s' k
    → (Store.lookup later s k).1 ≡ (Store.lookup later s' k).1
lookup-cong later s s' k h = elim (Option-cases (SyncMap.load s' k)) [
  | inl e ↦ lookup-miss later s k (h ∙ e) ∙ sym (lookup-miss later s' k e)
  | inr (found, e) ↦ lookup-load later s k found (h ∙ e) ∙ sym (lookup-load later s' k found e)
]

-- A channel that was forgotten is not found, and a lookup of any other key gives what it gave.
pub lookup-forget :
    (later : ℕ) (engine : AffinityEngine) (k j : Key)
    → (Engine.lookup later (Engine.forget engine k) j).1
      ≡ (if key_comparable.eqb k j then none else (Engine.lookup later engine j).1)
unfolding Engine.lookup Engine.forget Store.forget
lookup-forget later engine k j = elim (Bool-cases (key_comparable.eqb k j)) [
  | inl e ↦ rw e (lookup-miss later _ j (load-delete engine.entries k j ∙ rw e refl))
  | inr e ↦ rw e (lookup-cong later _ _ j (load-delete engine.entries k j ∙ rw e refl))
]
