-- ===== src/Relay/Usage/Latest.antt =====
-- internal/agent/relay/upstream/usage.go: the usage of a stream, told from the lines in their order.
use vaala_ai_gateway.Prelude.{
  str_eq, List, [], ◌∷◌, if◌then◌else◌, Option, none, some, ℤ, pos, ltb_ℤ,
}
use vaala_ai_gateway.Relay.Usage.{
  Bytes, TokenCounts, ClaudeEvent, Json, no_tokens, is_absent, parse_usage_json, data_of,
  line_usage, is_counted, backward, any_start,
}

-- What a line of a Claude stream says.
pub data Said : Type 0 where
  starts : TokenCounts → Said
  adds : TokenCounts → Said
  silent : Said

abbrev pub or_counts : Option TokenCounts → TokenCounts → TokenCounts
or_counts none c = c
or_counts (some c') c = c'

abbrev pub or_keep : Option TokenCounts → Option TokenCounts → Option TokenCounts
or_keep (some c) u = some c
or_keep none none = none
or_keep none (some c) = if is_counted c then some c else none

abbrev pub or_first : Option TokenCounts → Option TokenCounts → Option TokenCounts
or_first none later = later
or_first (some c) later = some c

-- A count said by a line, over that of the lines before it.
abbrev pub update : (TokenCounts → ℤ) → Said → ℤ → ℤ
update field (starts d) old = field d
update field (adds d) old = if ltb_ℤ (pos 0) (field d) then field d else old
update field silent old = old

module _ (json : Json) where
  abbrev pub event_said : Option ClaudeEvent → Said
  event_said none = silent
  event_said (some ev) =
      if str_eq ev.kind "message_start"
      then if is_absent ev.message_usage
        then silent
        else starts (parse_usage_json json ev.message_usage)
      else if str_eq ev.kind "message_delta"
      then if is_absent ev.usage then silent else adds (parse_usage_json json ev.usage)
      else silent

  abbrev pub data_said : Option Bytes → Said
  data_said none = silent
  data_said (some raw) = event_said (json.unmarshal_claude raw)

  -- The lines from the last one on: the last positive count since the last start, or the start's.
  unfoldable pub latest : (TokenCounts → ℤ) → List Bytes → ℤ
  latest field [] = pos 0
  latest field (line ∷ lines) = update field (data_said (data_of json line)) (latest field lines)

  abbrev pub latest_counts : List Bytes → TokenCounts
  latest_counts lines = record {
    prompt = latest (λ c. c.prompt) (backward lines []);
    completion = latest (λ c. c.completion) (backward lines []);
    cache_read = latest (λ c. c.cache_read) (backward lines []);
    cache_write = latest (λ c. c.cache_write) (backward lines []);
  }

  -- The last usage with tokens, and the first usage at all.
  unfoldable pub last_counted : List Bytes → Option TokenCounts
  last_counted [] = none
  last_counted (line ∷ lines) = or_keep (last_counted lines) (line_usage json line)

  unfoldable pub first_usage : List Bytes → Option TokenCounts
  first_usage [] = none
  first_usage (line ∷ lines) = or_first (line_usage json line) (first_usage lines)

  abbrev pub last_counts : List Bytes → TokenCounts
  last_counts lines = or_counts (last_counted lines) (or_counts (first_usage lines) no_tokens)

  abbrev pub streamed : List Bytes → TokenCounts
  streamed lines = if any_start json lines then latest_counts lines else last_counts lines
