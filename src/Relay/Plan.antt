-- ===== src/Relay/Plan.antt =====
-- internal/agent/relay/pipeline/plan: pool.go and whitelist.go, the candidates of a real model.
pub mod Order
pub mod Solve
pub mod Wiring
pub mod Pool
use vaala_ai_gateway.Prelude.{
  ℕ, suc, ℤ, Bool, true, false, ◌&&◌, ◌||◌, not, String, str_eq, List, [], ◌∷◌, ◌++◌, map, Option,
  none, some, ◌==◌, if◌then◌else◌, filter,
}
use vaala_ai_gateway.Relay.State.{
  Channel, ChannelSource, admin, private, source_eq, UserInfo, RelayInput,
}

pub record ScoredCandidate : Type 0 where
  pub channel : Channel
  pub source : ChannelSource
  pub source_id : ℕ
  pub by_affinity : Bool

-- Whether an identifier is in the set that is built from the list.
unfoldable pub contains_id : List ℕ → ℕ → Bool
contains_id [] id = false
contains_id (i ∷ is) id = i == id || contains_id is id

abbrev pub is_empty {ℓ} : {A : Type ℓ} → List A → Bool
is_empty [] = true
is_empty (x ∷ xs) = false

-- Private candidates stay; shared ones stay if they are listed.
unfoldable pub filter_scored_by_allowed_channels :
    List ScoredCandidate → List ℕ → List ScoredCandidate
unfolding contains_id
filter_scored_by_allowed_channels cands allowed =
    filter (λ sc. source_eq sc.source private || contains_id allowed sc.channel.id) cands

-- An empty list of identifiers restricts nothing.
unfoldable pub filter_by_allowed_channels : List Channel → List ℕ → List Channel
unfolding contains_id
filter_by_allowed_channels channels allowed =
    if is_empty allowed then channels else filter (λ ch. contains_id allowed ch.id) channels

-- The agent's cache, as far as the pool reads it. A private channel arrives projected onto a
-- channel, which keeps its identifier (`ProjectPrivateChannelToChannel`).
pub record ChannelCache : Type 0 where
  pub visible_private_channels : ℕ → String → List Channel
  pub channels_for_model : String → List Channel

unfoldable pub private_channels_visible_to_caller :
    ChannelCache → RelayInput → String → List ScoredCandidate
private_channels_visible_to_caller cache input real_model = elim input.user_info [
  | none ↦ []
  | some ui ↦
      if ui.user_id == 0
      then []
      else map
          (λ pc. record { channel = pc; source = private; source_id = pc.id; by_affinity = false })
          (cache.visible_private_channels ui.user_id real_model)
]

unfoldable pub shared_channels : ChannelCache → RelayInput → String → List ScoredCandidate
shared_channels cache input real_model =
    map (λ ch. record { channel = ch; source = admin; source_id = ch.id; by_affinity = false })
      (cache.channels_for_model real_model)

-- The default pool's listers, in order.
unfoldable pub collect_candidates : ChannelCache → RelayInput → String → List ScoredCandidate
unfolding private_channels_visible_to_caller shared_channels
collect_candidates cache input real_model =
    private_channels_visible_to_caller cache input real_model
    ++ shared_channels cache input real_model

-- The whitelist of the group, then that of the token; an empty one restricts nothing.
unfoldable pub apply_whitelist : List ScoredCandidate → Option UserInfo → List ScoredCandidate
unfolding filter_scored_by_allowed_channels
apply_whitelist cands none = cands
apply_whitelist cands (some ui) =
    let cands' =
      if is_empty ui.group_allowed_channel_ids
      then cands
      else filter_scored_by_allowed_channels cands ui.group_allowed_channel_ids in
    if is_empty ui.allowed_channel_ids
    then cands'
    else filter_scored_by_allowed_channels cands' ui.allowed_channel_ids

-- The first shared candidate of the identifier, alone.
unfoldable pub find_forced : List ScoredCandidate → ℕ → List ScoredCandidate
find_forced [] id = []
find_forced (sc ∷ cands) id =
    if source_eq sc.source admin && sc.channel.id == id then sc ∷ [] else find_forced cands id

unfoldable pub apply_forced_id : List ScoredCandidate → ℕ → List ScoredCandidate
unfolding find_forced
apply_forced_id cands id = if id == 0 then cands else find_forced cands id

unfoldable pub available : ChannelCache → RelayInput → String → List ScoredCandidate
unfolding collect_candidates apply_whitelist apply_forced_id
available cache input real_model =
    apply_forced_id (apply_whitelist (collect_candidates cache input real_model) input.user_info)
      input.forced_channel_id
