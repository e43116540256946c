-- ===== src/Tests/Usage.antt =====
-- The usage of a response at concrete inputs, with a decoder that reads one number for each struct.
use vaala_ai_gateway.Prelude.{
  ℕ, ◌==◌, ◌≡◌, refl, arith, true, false, String, [], ◌∷◌, ◌++◌, Option, none, some, if◌then◌else◌,
}
use vaala_ai_gateway.Relay.Usage.{
  Bytes, UsageFields, OpenaiEvent, ClaudeEvent, Json, data_prefix, split_lines, normalize_usage,
  reported, extract_usage, extract_passthrough_usage, after_prefix, parse_usage_json, data_of,
  any_start, claude_lines, line_usage, scan_back, backward,
}
use vaala_ai_gateway.Relay.Usage.Latest.{streamed}
use vaala_ai_gateway.Relay.Usage.Streamed.{extract_usage_lem}
use vaala_ai_gateway.Relay.Usage.Cached.{
  chat, claude, sent, decoded, usage_with, extract_passthrough_usage_lem,
}

abbrev kind_of : ℕ → String
kind_of k = if k == 1 then "message_start" else if k == 2 then "message_delta" else "ping"

abbrev peek_of : Bytes → Option String
peek_of [] = none
peek_of (k ∷ bs) = some (kind_of k)

abbrev openai_of : Bytes → Option OpenaiEvent
openai_of [] = none
openai_of (k ∷ bs) = some (record { response_usage = []; usage = k ∷ [] })

abbrev claude_of : Bytes → Option ClaudeEvent
claude_of [] = none
claude_of (k ∷ bs) = some (record { kind = kind_of k; message_usage = k ∷ []; usage = k ∷ [] })

abbrev fields_of : ℕ → UsageFields
fields_of k =
    if k == 1
    then sent claude 20 1 5 4
    else if k == 2
    then sent claude 0 9 0 0
    else if k == 3
    then sent chat 12 3 5 0
    else sent chat 0 0 0 0

abbrev usage_of : Bytes → Option UsageFields
usage_of [] = none
usage_of (k ∷ bs) = some (fields_of k)

abbrev decoder : Json
decoder = record {
  unmarshal_peek = peek_of;
  unmarshal_openai = openai_of;
  unmarshal_claude = claude_of;
  unmarshal_response = λ bs. some bs;
  unmarshal_usage = usage_of;
  trim_space = λ bs. bs;
}

abbrev claude_body : Bytes
claude_body = data_prefix ++ 1 ∷ 10 ∷ data_prefix ++ 2 ∷ 10 ∷ data_prefix ++ 7 ∷ []

abbrev chat_body : Bytes
chat_body = data_prefix ++ 3 ∷ 10 ∷ data_prefix ++ 4 ∷ []

-- The delta's output over that of the start, and the start's other counts.
claude_stream : extract_usage decoder claude_body true ≡ usage_with claude 20 9 5 4
unfolding extract_usage split_lines any_start data_of after_prefix claude_lines parse_usage_json
claude_stream = refl

-- The usage before the one that is empty.
chat_stream : extract_usage decoder chat_body true ≡ usage_with chat 12 3 5 0
unfolding extract_usage split_lines any_start data_of after_prefix scan_back backward line_usage
    parse_usage_json
chat_stream = refl

extract_usage_lem_example :
    extract_usage decoder claude_body true ≡ streamed decoder (split_lines claude_body)
extract_usage_lem_example = extract_usage_lem decoder claude_body refl

-- 20 prompt tokens through the native backend, 15 through the passthrough.
extract_passthrough_usage_lem_example :
    (reported (normalize_usage (decoded claude (sent claude 20 1 5 4)))
      ≡ usage_with claude 20 1 5 4)
    × (extract_passthrough_usage decoder (1 ∷ []) false ≡ usage_with claude 15 1 5 4)
extract_passthrough_usage_lem_example =
    extract_passthrough_usage_lem decoder 1 [] [] 1 claude 20 1 5 4 refl refl (omega arith)
