-- ===== src/Relay/Status.antt =====
-- internal/agent/relay/state/status.go: the HTTP status and the message of a failed request.
use vaala_ai_gateway.Prelude.{ℕ, Bool, false, not, ◌||◌, String, Option, none, some, if◌then◌else◌}
use vaala_ai_gateway.Relay.State.{
  Err, read_body, invalid_body, model_required, invalid_forced_channel_id, no_routable_model,
  no_channel_available, model_not_allowed, routing_fallback, wrap, UserInfo,
}
use vaala_ai_gateway.Relay.Plan.{is_empty}
use Prim.Native.String.{◌++◌ as str_append}

-- The sentinel that `errors.Is` finds in the error, if there is one.
unfoldable pub sentinel : Err → Option Err
sentinel read_body = some read_body
sentinel invalid_body = some invalid_body
sentinel model_required = some model_required
sentinel invalid_forced_channel_id = some invalid_forced_channel_id
sentinel no_routable_model = some no_routable_model
sentinel no_channel_available = some no_channel_available
sentinel model_not_allowed = some model_not_allowed
sentinel routing_fallback = some routing_fallback
sentinel (wrap message e) = sentinel e
sentinel _ = none

unfoldable pub whitelist_active_for : Option UserInfo → Bool
whitelist_active_for none = false
whitelist_active_for (some ui) =
    not (is_empty ui.allowed_channel_ids) || not (is_empty ui.group_allowed_channel_ids)

-- `text` is `Error()`.
unfoldable pub status_of_sentinel :
    (Err → String) → String → Option UserInfo → Err → Option Err → ℕ × String
unfolding whitelist_active_for
status_of_sentinel text model ui e (some read_body) = (400, text e)
status_of_sentinel text model ui e (some invalid_body) = (400, text e)
status_of_sentinel text model ui e (some model_required) = (400, text e)
status_of_sentinel text model ui e (some invalid_forced_channel_id) =
    (404, str_append "no channel available for model " model)
status_of_sentinel text model ui e (some no_routable_model) =
    (404, str_append "no available real model after routing: " model)
status_of_sentinel text model ui e (some model_not_allowed) =
    (404, str_append "model not allowed: " model)
status_of_sentinel text model ui e (some no_channel_available) =
    let message = str_append "no channel available for model " model in
    (
      404,
      if whitelist_active_for ui then str_append message " (token whitelist active)" else message,
    )
status_of_sentinel text model ui e _ = (502, text e)

unfoldable pub status_from_state :
    (Err → String) → String → Option UserInfo → Option Err → ℕ × String
unfolding sentinel status_of_sentinel
status_from_state text model ui none = (500, "")
status_from_state text model ui (some e) = status_of_sentinel text model ui e (sentinel e)

unfoldable pub user_facing_error_message :
    (Err → String) → String → Option UserInfo → Option Err → String
unfolding status_from_state
user_facing_error_message text model ui none = ""
user_facing_error_message text model ui (some e) = (status_from_state text model ui (some e)).1
