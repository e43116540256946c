-- ===== src/Relay/Inflight.antt =====
-- internal/agent/relay/inflight/registry.go: the requests under way. The map is the list of the
-- entries of a `sync.Map`, a handle is the identifier of its entry, and a nil one is `none`. The
-- counter is taken not to reach 2 ^ 63, and a request not to start after the moment of a snapshot.
pub mod Tracked
use vaala_ai_gateway.Prelude.{
  ℕ, ◌+◌, ◌-◌, ◌/◌, Bool, true, false, String, List, [], ◌∷◌, map, Option, none, some,
}
use vaala_ai_gateway.Utils.SyncMap.{load, put, delete}
use vaala_ai_gateway.Agent.RouteIndex.{number_comparable}

-- `start_time` is `none` for the zero time, `cancel` for a nil function.
pub record Meta (Cancel : Type 0) : Type 0 where
  pub req_id : String
  pub channel_id : ℕ
  pub channel_name : String
  pub model : String
  pub is_stream : Bool
  pub start_time : Option ℕ
  pub cancel : Option Cancel

pub record Snapshot : Type 0 where
  pub id : ℕ
  pub req_id : String
  pub channel_id : ℕ
  pub channel_name : String
  pub model : String
  pub is_stream : Bool
  pub stage : String
  pub elapsed_ms : ℕ

-- `start_time` counts nanoseconds.
pub record Entry (Cancel : Type 0) : Type 0 where
  pub req_id : String
  pub channel_id : ℕ
  pub start_time : ℕ
  pub id : ℕ
  pub cancel : Option Cancel
  pub stage : String
  pub model : String
  pub is_stream : Bool
  pub channel_name : String

pub record Registry (Cancel : Type 0) : Type 0 where
  pub entries : List (ℕ × Entry Cancel)
  pub next_id : ℕ

-- The setters of an entry.
pub data Change : Type 0 where
  set_stage : String → Change
  set_model : String → Change
  set_stream : Bool → Change
  set_channel : String → Change

abbrev pub or_now : ℕ → Option ℕ → ℕ
or_now now none = now
or_now now (some start) = start

module _ {Cancel : Type 0} where
  abbrev pub new_registry : Registry Cancel
  new_registry = record { entries = []; next_id = 0 }

  abbrev pub change_entry : Change → Entry Cancel → Entry Cancel
  change_entry (set_stage s) e = record e { stage = s }
  change_entry (set_model m) e = record e { model = m }
  change_entry (set_stream b) e = record e { is_stream = b }
  change_entry (set_channel name) e = record e { channel_name = name }

  abbrev pub store_changed : ℕ → Change → Registry Cancel → Option (Entry Cancel) → Registry Cancel
  store_changed id c r none = r
  store_changed id c r (some e) = record r { entries = put r.entries id (change_entry c e) }

  -- A setter on the handle of an entry: one that is done is no longer in the map.
  unfoldable pub set_entry : Option ℕ → Change → Registry Cancel → Registry Cancel
  unfolding load put
  set_entry none c r = r
  set_entry (some id) c r = store_changed id c r (load r.entries id)

  unfoldable pub done : Option ℕ → Registry Cancel → Registry Cancel
  unfolding delete
  done none r = r
  done (some id) r = record r { entries = delete r.entries id }

  abbrev pub new_entry : ℕ → Meta Cancel → ℕ → Entry Cancel
  new_entry now meta id = record {
    req_id = meta.req_id;
    channel_id = meta.channel_id;
    start_time = or_now now meta.start_time;
    id = id;
    cancel = meta.cancel;
    stage = "";
    model = meta.model;
    is_stream = meta.is_stream;
    channel_name = meta.channel_name;
  }

  -- The handle is `next_id` afterwards.
  unfoldable pub track : ℕ → Meta Cancel → Registry Cancel → Registry Cancel
  unfolding put
  track now meta r =
      let id = r.next_id + 1 in
      record { entries = put r.entries id (new_entry now meta id); next_id = id }

  abbrev pub snapshot_entry : ℕ → ℕ × Entry Cancel → Snapshot
  snapshot_entry now (key, e) = record {
    id = e.id;
    req_id = e.req_id;
    channel_id = e.channel_id;
    channel_name = e.channel_name;
    model = e.model;
    is_stream = e.is_stream;
    stage = e.stage;
    elapsed_ms = (now - e.start_time) / 1000000;
  }

  unfoldable pub snapshot : ℕ → Registry Cancel → List Snapshot
  snapshot now r = map (snapshot_entry now) r.entries

  -- The result, and the cancel functions that are called.
  abbrev pub call_cancel : Option Cancel → Bool × List Cancel
  call_cancel none = (false, [])
  call_cancel (some cancel) = (true, cancel ∷ [])

  abbrev pub interrupt_entry : Option (Entry Cancel) → Bool × List Cancel
  interrupt_entry none = (false, [])
  interrupt_entry (some e) = call_cancel e.cancel

  unfoldable pub interrupt : ℕ → Registry Cancel → Bool × List Cancel
  unfolding load
  interrupt id r = interrupt_entry (load r.entries id)
