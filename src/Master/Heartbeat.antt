-- ===== src/Master/Heartbeat.antt =====
-- internal/master/sync/heartbeat_tracker.go: the last heartbeats of the agents in memory, flushed to
-- the database in batches. Each method holds the lock; the ticker of `Start` calls `flush`.
pub mod Touched
use vaala_ai_gateway.Prelude.{
  ℕ, ℤ, pos, Bool, true, false, ◌||◌, String, str_eq, eq_iff, List, [], ◌∷◌, Option, none, some,
  if◌then◌else◌,
}
use vaala_ai_gateway.Relay.Plan.{is_empty}
use vaala_ai_gateway.Utils.SyncMap
use vaala_ai_gateway.Utils.SyncMap.{Comparable}

instance abbrev pub string_comparable : Comparable String
string_comparable = record { eqb = str_eq; eqb_iff = eq_iff }

pub record HeartbeatTracker : Type 0 where
  pub seen : List (String × ℤ)
  pub dirty : List String
  pub cfg_fp : List (String × String)

unfoldable pub contains_name : List String → String → Bool
contains_name [] name = false
contains_name (n ∷ ns) name = str_eq n name || contains_name ns name

abbrev pub mark_dirty : String → List String → List String
mark_dirty id dirty = if contains_name dirty id then dirty else id ∷ dirty

unfoldable pub touch : String → ℤ → HeartbeatTracker → HeartbeatTracker
unfolding SyncMap.put contains_name
touch agent_id ts t = record t {
  seen = SyncMap.put t.seen agent_id ts;
  dirty = mark_dirty agent_id t.dirty;
}

unfoldable pub get : String → HeartbeatTracker → Option ℤ
unfolding SyncMap.load
get agent_id t = SyncMap.load t.seen agent_id

-- The entries that are in memory.
unfoldable pub get_many : List String → HeartbeatTracker → List (String × ℤ)
unfolding get SyncMap.put
get_many [] t = []
get_many (id ∷ ids) t = elim (get id t) [
  | none ↦ get_many ids t
  | some ts ↦ SyncMap.put (get_many ids t) id ts
]

abbrev pub or_zero : Option ℤ → ℤ
or_zero none = pos 0
or_zero (some ts) = ts

-- A missing key reads as 0, as in Go.
unfoldable pub snapshot_of : List (String × ℤ) → List String → List (String × ℤ)
unfolding SyncMap.load
snapshot_of seen [] = []
snapshot_of seen (id ∷ ids) = (id, or_zero (SyncMap.load seen id)) ∷ snapshot_of seen ids

-- What is given to the persistence function, if it is called; `installed` is false for a nil one.
-- Its error is only returned.
unfoldable pub flush : Bool → HeartbeatTracker → HeartbeatTracker × Option (List (String × ℤ))
unfolding snapshot_of
flush installed t =
    if is_empty t.dirty
    then (t, none)
    else (record t { dirty = [] }, if installed then some (snapshot_of t.seen t.dirty) else none)

-- `fingerprint` is the SHA-1 of the four fields. A missing fingerprint reads as the empty string.
unfoldable pub config_changed : String → String → HeartbeatTracker → Bool × HeartbeatTracker
unfolding SyncMap.load SyncMap.put
config_changed agent_id fingerprint t =
    let same : Bool = elim (SyncMap.load t.cfg_fp agent_id) [
      | none ↦ str_eq "" fingerprint
      | some fp ↦ str_eq fp fingerprint
    ] in
    if same
    then (false, t)
    else (true, record t { cfg_fp = SyncMap.put t.cfg_fp agent_id fingerprint })
