-- ===== src/Master/RoutingCheck.antt =====
-- internal/dao/model_routing_validate.go: what a model routing must satisfy before it is saved or
-- deleted. `parse` is `json.Unmarshal` into a slice of members: what the slice holds afterwards,
-- and whether there was no error.
pub mod Paths
pub mod Saved
pub mod Resolves
use vaala_ai_gateway.Prelude.{
  ℕ, zero, suc, ◌+◌, Bool, false, not, ◌&&◌, ◌||◌, String, str_eq, List, [], ◌∷◌, ◌++◌, Option,
  none, some, inl, inr, ◌⊎◌, ltb, leb, ◌==◌, if◌then◌else◌, length,
}
use Prim.Native.String.{len, find}
use vaala_ai_gateway.Relay.Routing.{RoutingMember}

abbrev pub max_name_len : ℕ
max_name_len = 128

abbrev pub max_members : ℕ
max_members = 32

abbrev pub max_depth : ℕ
max_depth = 5

abbrev scope_global : String
scope_global = "global"

-- The fields of `models.ModelRouting` that are checked.
pub record ModelRouting : Type 0 where
  pub id : ℕ
  pub name : String
  pub scope : String
  pub members : String

-- A constructor for each code, with the details.
pub data ValidateError : Type 0 where
  name_required : ValidateError
  name_too_long : ValidateError
  name_contains_comma : ValidateError
  members_invalid_json : ValidateError
  members_empty : ValidateError
  members_too_many : ValidateError
  ref_empty : ℕ → ValidateError
  invalid_ref : String → ValidateError
  cycle_detected : List String → ValidateError
  depth_exceeded : List String → ValidateError
  referenced_by : List String → ValidateError

unfoldable pub code : ValidateError → String
code name_required = "name_required"
code name_too_long = "name_too_long"
code name_contains_comma = "name_contains_comma"
code members_invalid_json = "members_invalid_json"
code members_empty = "members_empty"
code members_too_many = "members_too_many"
code (ref_empty i) = "ref_empty"
code (invalid_ref ref) = "invalid_ref"
code (cycle_detected path) = "cycle_detected"
code (depth_exceeded path) = "max_depth"
code (referenced_by refs) = "referenced_by"

-- The interface `NameProvider`, whose methods only read.
pub record NameProvider : Type 0 where
  pub has_model : String → Bool
  pub get_global_routing : String → Option ModelRouting
  pub all_global_routings : List ModelRouting

-- The Go map `visited`, and its two updates.
abbrev pub Visited : Type 0
Visited = String → Bool

abbrev pub mark : String → Visited → Visited
mark name v = λ n. str_eq n name || v n

abbrev pub unmark : String → Visited → Visited
unmark name v = λ n. not (str_eq n name) && v n

abbrev pub Parse : Type 0
Parse = String → List RoutingMember × Bool

-- Either the error that is returned, or `visited` as the call leaves it.
abbrev pub Outcome : Type 0
Outcome = ValidateError ⊎ Visited

abbrev pub and_then : (Visited → Outcome) → Outcome → Outcome
and_then next (inl e) = inl e
and_then next (inr v) = next v

module _ (parse : Parse) (np : NameProvider) where
  -- The body of the loop of `dfsRouting`, `step` being the recursive call.
  unfoldable pub check_member :
      (List RoutingMember → Visited → List String → Outcome)
      → RoutingMember
      → Visited
      → List String
      → Outcome
  check_member step m v path =
      if v m.ref
      then (if np.has_model m.ref then inr v else inl (cycle_detected (path ++ m.ref ∷ [])))
      else elim (np.get_global_routing m.ref) [
        | none ↦ inr v
        | some r ↦
            and_then (λ v'. inr (unmark r.name v'))
              (step (parse r.members).0 (mark r.name v) (path ++ r.name ∷ []))
      ]

  unfoldable pub check_members :
      (List RoutingMember → Visited → List String → Outcome)
      → List RoutingMember
      → Visited
      → List String
      → Outcome
  unfolding check_member
  check_members step [] v path = inr v
  check_members step (m ∷ ms) v path =
      and_then (λ v'. check_members step ms v' path) (check_member step m v path)

  -- `left` is `routingMaxDepth + 1 - depth`, so the depth is over the limit when nothing is left.
  unfoldable pub dfs_routing : ℕ → List RoutingMember → Visited → List String → Outcome
  unfolding check_members
  dfs_routing zero ms v path = inl (depth_exceeded path)
  dfs_routing (suc left) ms v path = check_members (dfs_routing left) ms v path

  abbrev error_of : Outcome → Option ValidateError
  error_of (inl e) = some e
  error_of (inr v) = none

  unfoldable pub dfs_cycle_and_depth : ModelRouting → List RoutingMember → Option ValidateError
  unfolding dfs_routing
  dfs_cycle_and_depth start members =
      error_of (dfs_routing max_depth members (mark start.name (λ n. false)) (start.name ∷ []))

  -- The loop over the members with their index.
  unfoldable pub check_refs : ℕ → List RoutingMember → Option ValidateError
  check_refs i [] = none
  check_refs i (m ∷ ms) =
      let rest = check_refs (i + 1) ms in
      if str_eq m.ref ""
      then some (ref_empty i)
      else if np.has_model m.ref
      then rest
      else elim (np.get_global_routing m.ref) [ none ↦ some (invalid_ref m.ref) | some r ↦ rest ]

  abbrev pub or_error : Option ValidateError → Option ValidateError → Option ValidateError
  or_error none later = later
  or_error (some e) later = some e

  unfoldable pub check_name : String → Option ValidateError
  check_name name =
      if str_eq name ""
      then some name_required
      else if ltb max_name_len (len name)
      then some name_too_long
      else if leb (find name ",") (len name)
      then some name_contains_comma
      else none

  unfoldable pub check_count : List RoutingMember → Option ValidateError
  check_count members =
      if length members == 0
      then some members_empty
      else if ltb max_members (length members)
      then some members_too_many
      else none

  unfoldable pub validate_routing : ModelRouting → Option ValidateError
  unfolding check_name check_count check_refs dfs_cycle_and_depth
  validate_routing r =
      let members = (parse r.members).0 in
      or_error (check_name r.name) (
        if (parse r.members).1
        then or_error (check_count members) (
            or_error (check_refs 0 members)
              (if str_eq r.scope scope_global then dfs_cycle_and_depth r members else none))
        else some members_invalid_json)

  unfoldable pub names : String → List RoutingMember → Bool
  names target [] = false
  names target (m ∷ ms) = str_eq m.ref target || names target ms

  -- The names of the other routings that list `target`; one whose members do not parse is skipped.
  unfoldable pub referrers : ModelRouting → List ModelRouting → List String
  unfolding names
  referrers target [] = []
  referrers target (r ∷ rs) =
      if not (r.id == target.id) && (parse r.members).1 && names target.name (parse r.members).0
      then r.name ∷ referrers target rs
      else referrers target rs

  unfoldable pub validate_delete : ModelRouting → Option ValidateError
  unfolding referrers
  validate_delete target =
      if str_eq target.scope scope_global
      then elim (referrers target np.all_global_routings) [
        | [] ↦ none
        | (name ∷ more) ↦ some (referenced_by (name ∷ more))
      ]
      else none
