-- ===== src/Relay/Plan/Pool.antt =====
-- internal/agent/relay/pipeline/plan/pool.go: which candidates a request may use.
use vaala_ai_gateway.Prelude.{
  ℕ, ◌≡◌, refl, ◌↔◌, Bool, true, false, ◌&&◌, ◌||◌, String, List, [], ◌∷◌, Option, none, some,
  if◌then◌else◌, ◌==◌, arith, IsIn, IsIn-filter, IsIn-filter_of, Bool-cases, inl, inr,
}
use vaala_ai_gateway.Relay.State.{admin, private, source_eq, UserInfo, RelayInput}
use vaala_ai_gateway.Relay.Plan.{
  ScoredCandidate, ChannelCache, contains_id, is_empty, filter_scored_by_allowed_channels,
  collect_candidates, apply_whitelist, find_forced, apply_forced_id, available,
}

-- A list of identifiers permits a candidate if it is empty, lists the channel, or the candidate is
-- the user's own.
abbrev pub permits : List ℕ → ScoredCandidate → Bool
permits ids sc = is_empty ids || (source_eq sc.source private || contains_id ids sc.channel.id)

abbrev pub permitted : Option UserInfo → ScoredCandidate → Bool
permitted none sc = true
permitted (some ui) sc =
    permits ui.group_allowed_channel_ids sc && permits ui.allowed_channel_ids sc

IsIn-permits :
    (ids : List ℕ) (cands : List ScoredCandidate) (sc : ScoredCandidate)
    → IsIn sc (if is_empty ids then cands else filter_scored_by_allowed_channels cands ids)
      ↔ (IsIn sc cands × (permits ids sc ≡ true))
unfolding filter_scored_by_allowed_channels
IsIn-permits ids cands sc = elim (Bool-cases (is_empty ids)) [
  | inl e ↦ rw e (λ i. (i, refl), λ h. h.0)
  | inr e ↦ rw e (λ i. IsIn-filter _ cands i, λ h. IsIn-filter_of _ cands sc h.0 h.1)
]

-- The whitelists of group and token keep the permitted candidates and no others: the private
-- ones, and those whose channel each list that is not empty names.
pub IsIn-apply_whitelist :
    (cands : List ScoredCandidate) (ui : Option UserInfo) (sc : ScoredCandidate)
    → IsIn sc (apply_whitelist cands ui) ↔ (IsIn sc cands × (permitted ui sc ≡ true))
unfolding apply_whitelist
IsIn-apply_whitelist cands none sc = (λ i. (i, refl), λ h. h.0)
IsIn-apply_whitelist cands (some ui) sc =
    let g = ui.group_allowed_channel_ids in
    let first = IsIn-permits g cands sc in
    let second =
      IsIn-permits ui.allowed_channel_ids
        (if is_empty g then cands else filter_scored_by_allowed_channels cands g) sc in
    (
      λ i. let (j, p) = second.0 i in let (k, q) = first.0 j in (k, rw (q, p) refl),
      λ h. second.1 (first.1 (h.0, ground (arith, h.1)), ground (arith, h.1)),
    )

IsIn-find_forced :
    (cands : List ScoredCandidate) (id : ℕ) (sc : ScoredCandidate)
    → IsIn sc (find_forced cands id)
    → IsIn sc cands × ((source_eq sc.source admin && sc.channel.id == id) ≡ true)
unfolding find_forced
IsIn-find_forced [] id sc i = elim i [ ]
IsIn-find_forced (c ∷ cands) id sc i =
    elim (Bool-cases (source_eq c.source admin && c.channel.id == id)) [
      | inl e ↦ elim (rw e at i) [ inl p ↦ (inl p, rw p e) | inr q ↦ elim q [ ] ]
      | inr e ↦ let (j, p) = IsIn-find_forced cands id sc (rw e at i) in (inr j, p)
    ]

-- Every available candidate was collected for the model and is permitted, and with a forced
-- channel it is the shared channel of that identifier.
pub IsIn-available :
    (cache : ChannelCache) (input : RelayInput) (model : String) (sc : ScoredCandidate)
    → IsIn sc (available cache input model)
    → IsIn sc (collect_candidates cache input model)
      × (permitted input.user_info sc ≡ true)
      × ((input.forced_channel_id == 0 ≡ false)
          → (source_eq sc.source admin && sc.channel.id == input.forced_channel_id) ≡ true)
unfolding available apply_forced_id
IsIn-available cache input model sc i = elim (Bool-cases (input.forced_channel_id == 0)) [
  | inl e ↦
      let (j, p) = (IsIn-apply_whitelist _ input.user_info sc).0 (rw e at i) in
      (j, p, λ h. absurd (cc))
  | inr e ↦
      let (k, f) = IsIn-find_forced _ input.forced_channel_id sc (rw e at i) in
      let (j, p) = (IsIn-apply_whitelist _ input.user_info sc).0 k in (j, p, λ h. f)
]
