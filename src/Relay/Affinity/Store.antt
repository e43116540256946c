-- ===== src/Relay/Affinity/Store.antt =====
-- internal/agent/relay/affinity/store.go: the table with expiring entries.
use vaala_ai_gateway.Prelude.{ℕ, leb, Option, none, some, if◌then◌else◌, length}
use vaala_ai_gateway.Utils.SyncMap
use vaala_ai_gateway.Relay.Affinity.{Key, key_comparable, Entry, TtlStore, is_expired, max_entries}

-- An entry that has expired is a miss, and is deleted.
unfoldable pub lookup : ℕ → TtlStore → Key → TtlStore × Option Entry
unfolding SyncMap.load SyncMap.delete
lookup now s k = elim (SyncMap.load s k) [
  | none ↦ (s, none)
  | some e ↦ if is_expired now e then (SyncMap.delete s k, none) else (s, some e)
]

unfoldable pub sweep_expired : ℕ → TtlStore → TtlStore
unfolding SyncMap.sweep
sweep_expired now s = SyncMap.sweep (is_expired now) (SyncMap.keys s) s

-- `now` is read by the sweep only.
unfoldable pub remember : ℕ → TtlStore → Key → Entry → TtlStore
unfolding sweep_expired SyncMap.put
remember now s k e = SyncMap.put (if leb max_entries (length s) then sweep_expired now s else s) k e

unfoldable pub forget : TtlStore → Key → TtlStore
unfolding SyncMap.delete
forget s k = SyncMap.delete s k
