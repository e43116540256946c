-- ===== src/Relay/Usage.antt =====
-- internal/agent/relay/upstream/usage.go: `NormalizeUsage`, `ExtractUsageFromPassthroughBody`,
-- `extractClaudeSSEUsage`, `ParseUsageJSON`; the usage that the decoders of
-- internal/agent/relay/codec read from a whole body, and `extractPassthroughUsage` of
-- internal/agent/relay/backend/passthrough. `json.Unmarshal` and `bytes.TrimSpace` are parameters.
use vaala_ai_gateway.Prelude.{
  ℕ, ◌-◌, ◌+◌, ◌==◌, Bool, true, false, not, ◌&&◌, ◌||◌, String, str_eq, List, [], ◌∷◌, ◌++◌,
  Option, none, some, leb, if◌then◌else◌, ℤ, pos, negsuc, pos_part, neg_part, ltb_ℤ, eq_ℤ,
}
pub mod Latest
pub mod Streamed
pub mod Claude
pub mod Cached

abbrev pub Bytes : Type 0
Bytes = List ℕ

-- The named results `prompt`, `completion`, `cacheRead`, `cacheWrite`.
pub record TokenCounts : Type 0 where
  pub prompt : ℤ
  pub completion : ℤ
  pub cache_read : ℤ
  pub cache_write : ℤ

abbrev pub no_tokens : TokenCounts
no_tokens = record { prompt = pos 0; completion = pos 0; cache_read = pos 0; cache_write = pos 0 }

-- The struct that `ParseUsageJSON` reads; a missing field is zero.
pub record UsageFields : Type 0 where
  pub input_tokens : ℤ
  pub output_tokens : ℤ
  pub prompt_tokens : ℤ
  pub completion_tokens : ℤ
  pub input_cached : ℤ
  pub prompt_cached : ℤ
  pub cache_read_input_tokens : ℤ
  pub cache_creation_input_tokens : ℤ

-- The event of an OpenAI stream, with its raw usages; a missing one is empty.
pub record OpenaiEvent : Type 0 where
  pub response_usage : Bytes
  pub usage : Bytes

pub record ClaudeEvent : Type 0 where
  pub kind : String
  pub message_usage : Bytes
  pub usage : Bytes

-- `json.Unmarshal` into each struct of the file (`none` is an error), and `bytes.TrimSpace`.
pub record Json : Type 0 where
  pub unmarshal_peek : Bytes → Option String
  pub unmarshal_openai : Bytes → Option OpenaiEvent
  pub unmarshal_claude : Bytes → Option ClaudeEvent
  pub unmarshal_response : Bytes → Option Bytes
  pub unmarshal_usage : Bytes → Option UsageFields
  pub trim_space : Bytes → Bytes

abbrev pub is_absent : Bytes → Bool
is_absent [] = true
is_absent (b ∷ bs) = false

abbrev pub or_fallback : ℤ → ℤ → ℤ
or_fallback x y = if eq_ℤ x (pos 0) then y else x

abbrev pub counts_of : UsageFields → TokenCounts
counts_of f = record {
  prompt = or_fallback f.input_tokens f.prompt_tokens;
  completion = or_fallback f.output_tokens f.completion_tokens;
  cache_read = or_fallback (or_fallback f.input_cached f.prompt_cached) f.cache_read_input_tokens;
  cache_write = f.cache_creation_input_tokens;
}

abbrev pub fields_parsed : Option UsageFields → TokenCounts
fields_parsed none = no_tokens
fields_parsed (some f) = counts_of f

-- "data:"
abbrev pub data_prefix : Bytes
data_prefix = 100 ∷ 97 ∷ 116 ∷ 97 ∷ 58 ∷ []

-- `bytes.HasPrefix` and `bytes.TrimPrefix`.
unfoldable pub after_prefix : Bytes → Bytes → Option Bytes
after_prefix [] bs = some bs
after_prefix (p ∷ ps) [] = none
after_prefix (p ∷ ps) (b ∷ bs) = let rest = after_prefix ps bs in if p == b then rest else none

abbrev pub prepend : ℕ → List Bytes → List Bytes
prepend b [] = (b ∷ []) ∷ []
prepend b (line ∷ lines) = (b ∷ line) ∷ lines

-- `bytes.Split(body, "\n")`.
unfoldable pub split_lines : Bytes → List Bytes
split_lines [] = [] ∷ []
split_lines (b ∷ bs) = let lines = split_lines bs in if b == 10 then [] ∷ lines else prepend b lines

-- The loop that counts down from the last line meets the lines in this order.
unfoldable pub backward {ℓ} : {A : Type ℓ} → List A → List A → List A
backward [] acc = acc
backward (x ∷ xs) acc = backward xs (x ∷ acc)

abbrev pub set_positive : ℤ → ℤ → ℤ
set_positive new old = if ltb_ℤ (pos 0) new then new else old

-- The usage of a `message_delta` over that of the lines before it.
abbrev pub merge_delta : TokenCounts → TokenCounts → TokenCounts
merge_delta d c = record {
  prompt = set_positive d.prompt c.prompt;
  completion = set_positive d.completion c.completion;
  cache_read = set_positive d.cache_read c.cache_read;
  cache_write = set_positive d.cache_write c.cache_write;
}

abbrev pub difference : ℕ → ℕ → ℤ
difference m n = if leb n m then pos (m - n) else negsuc (n - m - 1)

abbrev pub subtract : ℤ → ℤ → ℤ
subtract a b = difference (pos_part a + neg_part b) (pos_part b + neg_part a)

-- The fields of `codec.Usage` that reach an attempt's result.
pub record Usage : Type 0 where
  pub prompt_tokens : ℤ
  pub completion_tokens : ℤ
  pub cache_read_tokens : ℤ
  pub cache_write_tokens : ℤ
  pub cached_tokens : ℤ

abbrev pub at_least_zero : ℤ → ℤ
at_least_zero x = if ltb_ℤ x (pos 0) then pos 0 else x

abbrev pub normalize_usage : Usage → Usage
normalize_usage u =
    if ltb_ℤ (pos 0) u.cached_tokens && eq_ℤ u.cache_read_tokens (pos 0)
    then record u {
      cache_read_tokens = u.cached_tokens;
      prompt_tokens = at_least_zero (subtract u.prompt_tokens u.cached_tokens);
    }
    else u

-- What the native backend reports of a usage.
abbrev pub reported : Usage → TokenCounts
reported u = record {
  prompt = u.prompt_tokens;
  completion = u.completion_tokens;
  cache_read = u.cache_read_tokens;
  cache_write = u.cache_write_tokens;
}

abbrev pub chat_usage : UsageFields → Usage
chat_usage f = record {
  prompt_tokens = f.prompt_tokens;
  completion_tokens = f.completion_tokens;
  cache_read_tokens = pos 0;
  cache_write_tokens = pos 0;
  cached_tokens = f.prompt_cached;
}

abbrev pub responses_usage : UsageFields → Usage
responses_usage f = record {
  prompt_tokens = f.input_tokens;
  completion_tokens = f.output_tokens;
  cache_read_tokens = pos 0;
  cache_write_tokens = pos 0;
  cached_tokens = f.input_cached;
}

abbrev pub claude_usage : UsageFields → Usage
claude_usage f = record {
  prompt_tokens = f.input_tokens;
  completion_tokens = f.output_tokens;
  cache_read_tokens = f.cache_read_input_tokens;
  cache_write_tokens = f.cache_creation_input_tokens;
  cached_tokens = pos 0;
}

-- The correction of `extractPassthroughUsage`.
abbrev pub without_cached : TokenCounts → TokenCounts
without_cached c =
    if ltb_ℤ (pos 0) c.cache_read && not (ltb_ℤ c.prompt c.cache_read)
    then record c { prompt = subtract c.prompt c.cache_read }
    else c

abbrev pub is_counted : TokenCounts → Bool
is_counted c = ltb_ℤ (pos 0) c.prompt || ltb_ℤ (pos 0) c.completion

-- The named results keep what a line wrote last. `after` are the results of the other lines.
abbrev pub scan_line : Option TokenCounts → TokenCounts → (TokenCounts → TokenCounts) → TokenCounts
scan_line none c after = after c
scan_line (some c') c after = if is_counted c' then c' else after c'

module _ (json : Json) where
  unfoldable pub parse_usage_json : Bytes → TokenCounts
  parse_usage_json raw = fields_parsed (json.unmarshal_usage raw)

  abbrev pub trimmed : Option Bytes → Option Bytes
  trimmed none = none
  trimmed (some rest) = some (json.trim_space rest)

  -- The data of a `data:` line.
  unfoldable pub data_of : Bytes → Option Bytes
  unfolding after_prefix
  data_of line = trimmed (after_prefix data_prefix (json.trim_space line))

  abbrev pub is_start : Option String → Bool
  is_start none = false
  is_start (some kind) = str_eq kind "message_start"

  abbrev pub peek_data : Option Bytes → Bool
  peek_data none = false
  peek_data (some raw) = is_start (json.unmarshal_peek raw)

  unfoldable pub any_start : List Bytes → Bool
  any_start [] = false
  any_start (line ∷ lines) = peek_data (data_of line) || any_start lines

  abbrev pub on_message_start : Bytes → TokenCounts → TokenCounts
  on_message_start raw c = if is_absent raw then c else parse_usage_json raw

  abbrev pub on_message_delta : Bytes → TokenCounts → TokenCounts
  on_message_delta raw c = if is_absent raw then c else merge_delta (parse_usage_json raw) c

  abbrev pub on_event : Option ClaudeEvent → TokenCounts → TokenCounts
  on_event none c = c
  on_event (some ev) c =
      if str_eq ev.kind "message_start"
      then on_message_start ev.message_usage c
      else if str_eq ev.kind "message_delta"
      then on_message_delta ev.usage c
      else c

  abbrev pub on_data : Option Bytes → TokenCounts → TokenCounts
  on_data none c = c
  on_data (some raw) c = on_event (json.unmarshal_claude raw) c

  unfoldable pub claude_lines : List Bytes → TokenCounts → TokenCounts
  claude_lines [] c = c
  claude_lines (line ∷ lines) c = claude_lines lines (on_data (data_of line) c)

  abbrev pub extract_claude_sse_usage : List Bytes → TokenCounts
  extract_claude_sse_usage lines = claude_lines lines no_tokens

  abbrev pub openai_usage : Option OpenaiEvent → Option TokenCounts
  openai_usage none = none
  openai_usage (some ev) =
      let raw = if is_absent ev.response_usage then ev.usage else ev.response_usage in
      if is_absent raw then none else some (parse_usage_json raw)

  abbrev pub usage_of_data : Option Bytes → Option TokenCounts
  usage_of_data none = none
  usage_of_data (some raw) = openai_usage (json.unmarshal_openai raw)

  -- The usage that a line of an OpenAI stream carries.
  unfoldable pub line_usage : Bytes → Option TokenCounts
  line_usage line = usage_of_data (data_of line)

  unfoldable pub scan_back : List Bytes → TokenCounts → TokenCounts
  scan_back [] c = c
  scan_back (line ∷ lines) c = scan_line (line_usage line) c (scan_back lines)

  abbrev pub stream_usage : List Bytes → TokenCounts
  stream_usage lines =
      if any_start lines
      then extract_claude_sse_usage lines
      else scan_back (backward lines []) no_tokens

  abbrev pub response_usage_of : Option Bytes → TokenCounts
  response_usage_of none = no_tokens
  response_usage_of (some raw) = if is_absent raw then no_tokens else parse_usage_json raw

  unfoldable pub extract_usage : Bytes → Bool → TokenCounts
  unfolding split_lines
  extract_usage body is_stream =
      if is_absent body
      then no_tokens
      else if is_stream
      then stream_usage (split_lines body)
      else response_usage_of (json.unmarshal_response body)

  unfoldable pub extract_passthrough_usage : Bytes → Bool → TokenCounts
  unfolding extract_usage
  extract_passthrough_usage body is_stream = without_cached (extract_usage body is_stream)
