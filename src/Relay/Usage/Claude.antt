-- ===== src/Relay/Usage/Claude.antt =====
-- internal/agent/relay/upstream/usage.go: `extractClaudeSSEUsage` count by count.
use vaala_ai_gateway.Prelude.{
  ◌≡◌, refl, ◌∙◌, ap, List, [], ◌∷◌, Bool-cases, inl, inr, Option, none, some, ℤ, pos, str_eq,
}
use vaala_ai_gateway.Relay.Usage.{
  Bytes, TokenCounts, ClaudeEvent, Json, no_tokens, is_absent, parse_usage_json, data_of,
  set_positive, merge_delta, on_event, on_data, claude_lines, extract_claude_sse_usage, backward,
}
use vaala_ai_gateway.Relay.Usage.Latest.{update, event_said, data_said, latest, latest_counts}

module _ (json : Json) (field : TokenCounts → ℤ)
    (merges : (d c : TokenCounts) → field (merge_delta d c) ≡ set_positive (field d) (field c))
    (blank : field no_tokens ≡ pos 0) where
  on_event_lem :
      (e : Option ClaudeEvent) (c : TokenCounts)
      → field (on_event json e c) ≡ update field (event_said json e) (field c)
  on_event_lem none c = refl
  on_event_lem (some ev) c = elim (Bool-cases (str_eq ev.kind "message_start")) [
    | inl s ↦ elim (Bool-cases (is_absent ev.message_usage)) [
      | inl b ↦ rw (s, b) refl
      | inr b ↦ rw (s, b) refl
    ]
    | inr s ↦ elim (Bool-cases (str_eq ev.kind "message_delta")) [
      | inl d ↦ elim (Bool-cases (is_absent ev.usage)) [
        | inl b ↦ rw (s, d, b) refl
        | inr b ↦ rw (s, d, b) (merges (parse_usage_json json ev.usage) c)
      ]
      | inr d ↦ rw (s, d) refl
    ]
  ]

  on_data_lem :
      (d : Option Bytes) (c : TokenCounts)
      → field (on_data json d c) ≡ update field (data_said json d) (field c)
  on_data_lem none c = refl
  on_data_lem (some raw) c = on_event_lem (json.unmarshal_claude raw) c

  claude_lines_lem :
      (lines acc : List Bytes) (c : TokenCounts)
      → field c ≡ latest json field acc
      → field (claude_lines json lines c) ≡ latest json field (backward lines acc)
  unfolding claude_lines backward latest
  claude_lines_lem [] acc c h = h
  claude_lines_lem (line ∷ lines) acc c h =
      claude_lines_lem lines (line ∷ acc) (on_data json (data_of json line) c) (
        on_data_lem (data_of json line) c
        ∙ ap (λ old. update field (data_said json (data_of json line)) old) h)

  pub field-claude :
      (lines : List Bytes)
      → field (extract_claude_sse_usage json lines) ≡ latest json field (backward lines [])
  unfolding latest
  field-claude lines = claude_lines_lem lines [] no_tokens blank

pub extract_claude_sse_usage_lem :
    (json : Json) (lines : List Bytes)
    → extract_claude_sse_usage json lines ≡ latest_counts json lines
extract_claude_sse_usage_lem json lines =
    let p = field-claude json (λ c. c.prompt) (λ d c. refl) refl lines in
    let q = field-claude json (λ c. c.completion) (λ d c. refl) refl lines in
    let r = field-claude json (λ c. c.cache_read) (λ d c. refl) refl lines in
    let w = field-claude json (λ c. c.cache_write) (λ d c. refl) refl lines in cc
