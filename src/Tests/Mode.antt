-- ===== src/Tests/Mode.antt =====
-- The negotiation of a protocol and the mode at concrete inputs.
use vaala_ai_gateway.Prelude.{
  ◌≡◌, ◌⊎◌, refl, true, false, String, str_eq, List, [], ◌∷◌, Option, none, some, All,
}
use vaala_ai_gateway.Relay.State.{openai_chat, openai_responses, claude, passthrough}
use vaala_ai_gateway.Relay.Mode.{
  is_supported, negotiate_outbound_protocol, ModelOverrideRule, ChannelOverrideRules,
  expand_rule_overrides, resolve_override, ModeChannel, pick,
}
use vaala_ai_gateway.Relay.Mode.Declared.{Negotiated, negotiate_outbound_protocol_lem}
use vaala_ai_gateway.Relay.Mode.Specific.{MostSpecific, resolve_override_lem}
use vaala_ai_gateway.Relay.Mode.Picked.{Promised, pick-Promised}

abbrev any_rule : ModelOverrideRule
any_rule = record {
  matches = λ m. true;
  pattern_len = 2;
  is_exact = false;
  overrides = (none, claude) ∷ [];
}

abbrev gpt_rule : ModelOverrideRule
gpt_rule = record {
  matches = λ m. str_eq m "gpt";
  pattern_len = 3;
  is_exact = true;
  overrides = (some openai_chat, openai_responses) ∷ (none, claude) ∷ [];
}

abbrev rules : ChannelOverrideRules
rules = record { channel_level = λ p. none; model_level = any_rule ∷ gpt_rule ∷ [] }

abbrev both_types : Option (List String)
both_types = some ("claude" ∷ "chat-completion" ∷ [])

exact_wins : resolve_override (some rules) "gpt" openai_chat ≡ some openai_responses
unfolding resolve_override
exact_wins = refl

unreachable_target :
    negotiate_outbound_protocol openai_chat 14 both_types none (resolve_override (some rules) "gpt")
    ≡ openai_chat
unfolding negotiate_outbound_protocol resolve_override
unreachable_target = refl

abbrev mode_channel : ModeChannel
mode_channel = record {
  channel_type = 14;
  supported_api_types = both_types;
  endpoints = none;
  use_legacy_adaptor = false;
  passthrough_enabled = true;
  rules = some rules;
}

passed_through : pick is_supported is_supported mode_channel "gpt" openai_chat ≡ passthrough
unfolding pick
passed_through = refl

negotiate_outbound_protocol_lem_example :
    Negotiated openai_chat 14 both_types none (resolve_override (some rules) "gpt") (
      negotiate_outbound_protocol openai_chat 14 both_types none
        (resolve_override (some rules) "gpt"))
negotiate_outbound_protocol_lem_example =
    negotiate_outbound_protocol_lem openai_chat 14 both_types none
      (resolve_override (some rules) "gpt")

resolve_override_lem_example :
    ((resolve_override (some rules) "gpt" ≡ rules.channel_level)
      × All (λ q. q.matches "gpt" ≡ false) rules.model_level)
    ⊎ ((r : ModelOverrideRule) × MostSpecific rules.model_level "gpt" r
        × (resolve_override (some rules) "gpt" ≡ expand_rule_overrides r))
resolve_override_lem_example = resolve_override_lem rules "gpt"

pick-Promised_example :
    Promised is_supported is_supported mode_channel "gpt" openai_chat
      (pick is_supported is_supported mode_channel "gpt" openai_chat)
pick-Promised_example = pick-Promised is_supported is_supported mode_channel "gpt" openai_chat
