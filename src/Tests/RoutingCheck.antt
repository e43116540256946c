-- ===== src/Tests/RoutingCheck.antt =====
-- The checks of a model routing at concrete inputs.
use vaala_ai_gateway.Prelude.{
  ℕ, ◌≡◌, refl, sym, ap, ◌∙◌, ◌↔◌, inl, inr, false, not, String, str_eq, List, [], ◌∷◌, Option,
  none, some, arith, Bool-cases, IsIn, All, if◌then◌else◌, eq_iff,
}
use mathlib.Core.Option
use vaala_ai_gateway.Relay.Routing.{
  SyncedRouting, RoutingStore, new_resolve_ctx, resolve_to_real_model, try_members,
  select_routing_member, enter, exclude,
}
use vaala_ai_gateway.Master.RoutingCheck.{
  ModelRouting, NameProvider, Parse, mark, dfs_routing, validate_routing, validate_delete, code,
}
use vaala_ai_gateway.Master.RoutingCheck.Paths.{IsSound, IsCoherent, dfs_routing_iff}
use vaala_ai_gateway.Master.RoutingCheck.Saved.{
  IsSavable, RefersTo, validate_routing_iff, validate_delete_iff,
}
use vaala_ai_gateway.Master.RoutingCheck.Resolves.{IsSynced, Resolves, resolve-of_sound}
use vaala_ai_gateway.Tests.Routing.{counting, member}

-- A text of members that is the one reference itself.
abbrev parse : Parse
parse text = (member text ∷ [], not (str_eq text ""))

abbrev routing : ℕ → String → String → ModelRouting
routing id name ref = record { id = id; name = name; scope = "global"; members = ref }

abbrev stored : List ModelRouting → String → Option ModelRouting
stored [] n = none
stored (r ∷ rs) n = if str_eq r.name n then some r else stored rs n

abbrev provider : List ModelRouting → NameProvider
provider l = record {
  has_model = λ n. str_eq n "gpt";
  get_global_routing = stored l;
  all_global_routings = l;
}

stored_lem :
    (l : List ModelRouting) (n : String) (r : ModelRouting)
    → stored l n ≡ some r
    → IsIn r l × (r.name ≡ n)
stored_lem [] n r h = absurd (cc)
stored_lem (s ∷ l) n r h = elim (Bool-cases (str_eq s.name n)) [
  | inl e ↦
      let k : s ≡ r = (let h' = rw e at h in cc) in
      (inl (sym k), ap (λ (x : ModelRouting). x.name) (sym k) ∙ (eq_iff s.name n).0 e)
  | inr e ↦ let (i, q) = stored_lem l n r (let h' = rw e at h in h') in (inr i, q)
]

coherent : (l : List ModelRouting) → IsCoherent parse (provider l)
coherent l n r h = (stored_lem l n r h).1

-- Five routings, one in the other, the last of the model `gpt`.
abbrev nested : List ModelRouting
nested =
    routing 1 "a" "b"
    ∷ routing 2 "b" "c"
    ∷ routing 3 "c" "d"
    ∷ routing 4 "d" "e"
    ∷ routing 5 "e" "gpt"
    ∷ []

nested_accepted : validate_routing parse (provider nested) (routing 1 "a" "b") ≡ none
unfolding validate_routing
nested_accepted = refl

abbrev sync : ModelRouting → SyncedRouting
sync r = record { id = r.id; name = r.name; scope = r.scope; members = (parse r.members).0 }

abbrev sync_found : Option ModelRouting → Option SyncedRouting
sync_found none = none
sync_found (some r) = some (sync r)

abbrev agent_store : List ModelRouting → RoutingStore
agent_store l = record {
  resolve_routing = λ n user_id. sync_found (stored l n);
  get_global_routing = λ n. sync_found (stored l n);
  has_real_model = λ n. str_eq n "gpt";
}

abbrev outcome_of : {S : Type 0} → Option (String × S) → Option String
outcome_of none = none
outcome_of (some (result, c)) = some result

-- What was accepted resolves to nothing at the agent.
nested_unresolved :
    outcome_of
      (resolve_to_real_model counting (agent_store nested) 0 "a" (new_resolve_ctx counting 0))
    ≡ some ""
unfolding resolve_to_real_model new_resolve_ctx try_members select_routing_member enter exclude
nested_unresolved = refl

cycle_rejected :
    Option.map code (validate_routing parse (provider (routing 2 "b" "a" ∷ [])) (routing 1 "a" "b"))
    ≡ some "cycle_detected"
unfolding validate_routing code
cycle_rejected = refl

abbrev single : List ModelRouting
single = routing 7 "smart" "gpt" ∷ []

smart_accepted :
    dfs_routing parse (provider single) 4 (member "gpt" ∷ []) (mark "smart" (λ n. false)) []
    ≡ inr (mark "smart" (λ n. false))
unfolding dfs_routing
smart_accepted = refl

dfs_routing_iff_example :
    (dfs_routing parse (provider nested) 5 (member "b" ∷ []) (mark "a" (λ n. false)) []
      ≡ inr (mark "a" (λ n. false)))
    ↔ IsSound parse (provider nested) 5 (mark "a" (λ n. false)) (member "b" ∷ [])
dfs_routing_iff_example =
    dfs_routing_iff parse (provider nested) (coherent nested) 5 (member "b" ∷ [])
      (mark "a" (λ n. false)) []

validate_routing_iff_example :
    (validate_routing parse (provider nested) (routing 1 "a" "b") ≡ none)
    ↔ IsSavable parse (provider nested) (routing 1 "a" "b")
validate_routing_iff_example =
    validate_routing_iff parse (provider nested) (coherent nested) (routing 1 "a" "b")

validate_delete_iff_example :
    (validate_delete parse (provider nested) (routing 2 "b" "c") ≡ none)
    ↔ All (λ r. ¬ RefersTo parse (routing 2 "b" "c") r) nested
validate_delete_iff_example = validate_delete_iff parse (provider nested) (routing 2 "b" "c") refl

only_smart :
    (n : String) (r : ModelRouting)
    → stored single n ≡ some r
    → (r ≡ routing 7 "smart" "gpt") × ("smart" ≡ n)
only_smart n r h =
    let (i, q) = stored_lem single n r h in
    elim i [ inl e ↦ (e, ap (λ (x : ModelRouting). x.name) (sym e) ∙ q) | inr j ↦ elim j [ ] ]

single_synced : IsSynced parse (provider single) counting (agent_store single) 0
single_synced = record {
  absent = λ n h. rw h refl;
  present = λ n r h. (sync r, rw h refl, refl, refl);
  models = λ n. refl;
  ids = λ n n' r r' h h' e. sym (only_smart n r h).1 ∙ (only_smart n' r' h').1;
  stored_name = coherent single;
  has_refs = λ n r h. rw (only_smart n r h).0 (omega arith, (refl, tt));
}

resolve-of_sound_example :
    Resolves parse
      (provider single)
      counting
      (agent_store single)
      0
      (resolve_to_real_model counting (agent_store single) 0 "smart" (new_resolve_ctx counting 0))
resolve-of_sound_example =
    resolve-of_sound parse (provider single) counting (agent_store single) 0 single_synced
      (routing 7 "smart" "gpt") (sync (routing 7 "smart" "gpt")) 0 refl refl refl refl
      ((dfs_routing_iff parse (provider single) (coherent single) 4 (member "gpt" ∷ [])
          (mark "smart" (λ n. false)) []).0
        smart_accepted)
