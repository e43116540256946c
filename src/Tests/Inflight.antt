-- ===== src/Tests/Inflight.antt =====
-- internal/agent/relay/inflight/registry.go on two requests, one of which is done.
use vaala_ai_gateway.Prelude.{ℕ, ◌≡◌, refl, true, false, [], ◌∷◌, none, some, List}
use vaala_ai_gateway.Relay.Inflight.{Meta, snapshot, interrupt, set_stage, track, set_entry, done}
use vaala_ai_gateway.Relay.Inflight.Tracked.{
  Event, tracked, changed, finished, after, is_listed, is_open, open_cancel, interrupt_open,
  interrupt-after,
}

abbrev meta : ℕ → Meta ℕ
meta cancel = record {
  req_id = "";
  channel_id = 4;
  channel_name = "a";
  model = "m";
  is_stream = false;
  start_time = none;
  cancel = some cancel;
}

-- The latest event comes first.
abbrev two_requests : List (Event ℕ)
two_requests =
    finished (some 1)
    ∷ changed (some 2) (set_stage "dispatch")
    ∷ tracked 50 (meta 9)
    ∷ tracked 40 (meta 8)
    ∷ []

interrupt-after_example :
    (is_listed 2 (snapshot 60 (after two_requests)) ≡ is_open (open_cancel two_requests 2))
    × (interrupt 2 (after two_requests) ≡ interrupt_open (open_cancel two_requests 2))
interrupt-after_example = interrupt-after two_requests 60 2

second_interrupted :
    (interrupt 2 (after two_requests) ≡ (true, 9 ∷ []))
    × (interrupt 1 (after two_requests) ≡ (false, []))
unfolding interrupt track set_entry done
second_interrupted = (refl, refl)
