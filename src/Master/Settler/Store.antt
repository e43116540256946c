-- ===== src/Master/Settler/Store.antt =====
-- internal/dao: the statements on usage logs, traces and quotas that the settlement runs. The
-- database is a parameter.
use vaala_ai_gateway.Prelude.{
  ℕ, ◌<◌, ◌≡◌, Bool, true, false, ◌&&◌, ◌||◌, String, str_eq, List, [], ◌∷◌, Option, none, some,
  ◌⊎◌, inl, inr, ltb, ◌==◌, if◌then◌else◌,
}
use Prim.Native.String.{len, find}
use vaala_ai_gateway.Master.Billing.{UsageLog, word_size, add64, sub64}
use vaala_ai_gateway.Master.Settler.{Trace}
use vaala_ai_gateway.Relay.Exec.{AttemptRecord}

-- `models.UsageLog`: `counted` holds the columns that the totals count. `HasTrace` is left out.
pub record StoredLog (F : Type 0) : Type 0 where
  pub counted : UsageLog
  pub cache_read_cost : ℕ
  pub cache_write_cost : ℕ
  pub raw_input_cost : ℕ
  pub raw_output_cost : ℕ
  pub raw_cache_read_cost : ℕ
  pub raw_cache_write_cost : ℕ
  pub billing_factor : F
  pub free : Bool
  pub price_ratio : F
  pub request_id : String
  pub client_ip : String
  pub upstream_model : String
  pub inbound_protocol : String
  pub outbound_protocol : String
  pub use_legacy : Bool
  pub error_message : String
  pub other : String
  pub fallback_chain : List AttemptRecord
  pub token_source : String
  pub routing_name : String
  pub affinity_status : String
  pub affinity_recorded : Bool
  pub error_stage : String

-- An error of an insertion: whether it is `gorm.ErrDuplicatedKey`, and its text in lower case.
pub record InsertError : Type 0 where
  pub duplicated_key : Bool
  pub lower : String

-- `strings.Contains`: `find` gives a number past the end where there is no match.
abbrev pub contains_text : String → String → Bool
contains_text s part = ltb (find s part) (len s)

unfoldable pub is_duplicate_request_id_error : InsertError → Bool
is_duplicate_request_id_error e =
    e.duplicated_key
    || (contains_text e.lower "unique" || contains_text e.lower "duplicate")
      && (contains_text e.lower "request_id" || contains_text e.lower "idx_usage_logs_request_id")

abbrev pub has_request : {F : Type 0} → String → List (StoredLog F) → Bool
has_request id [] = false
has_request id (l ∷ logs) = str_eq l.request_id id || has_request id logs

-- What `quota - ?` and `used_quota + ?` make of a user's two columns.
abbrev pub deducted : ℕ → Option (ℕ × ℕ) → Option (ℕ × ℕ)
deducted amount none = none
deducted amount (some (quota, used)) = some (sub64 quota amount, add64 used amount)

-- The database, seen by its logs, the newest first, and by each user's `quota` and `used_quota`.
-- `none` is an error of a statement; an update of no row is none, a `First` of no row is one.
-- `request_id` has a unique index.
pub record LogDatabase (F Body : Type 0) : Type 1 where
  pub State : Type 0
  pub logs : State → List (StoredLog F)
  pub quotas : State → ℕ → Option (ℕ × ℕ)
  pub count_request : State → String → Option ℕ
  pub insert_log : State → StoredLog F → InsertError ⊎ State
  pub insert_trace : State → Trace Body → Option State
  pub mark_traced : State → String → State
  pub update_quota : State → ℕ → ℕ → Option State
  pub select_quota : State → ℕ → Option ℕ
  -- Whether the commit of a transaction that ends in this state goes through.
  pub commits : State → Bool
  pub quotas-word :
      (s : State) (u : ℕ) (q used : ℕ)
      → quotas s u ≡ some (q, used)
      → (q < word_size) × (used < word_size)
  pub count_request_lem :
      (s : State) (id : String) (n : ℕ)
      → count_request s id ≡ some n
      → ltb 0 n ≡ has_request id (logs s)
  pub insert_log_lem :
      (s s' : State) (l : StoredLog F)
      → insert_log s l ≡ inr s'
      → (logs s' ≡ l ∷ logs s)
        × ((u : ℕ) → quotas s' u ≡ quotas s u)
        × (has_request l.request_id (logs s) ≡ false)
  pub insert_log-duplicate :
      (s : State) (l : StoredLog F) (e : InsertError)
      → insert_log s l ≡ inl e
      → is_duplicate_request_id_error e ≡ true
      → has_request l.request_id (logs s) ≡ true
  pub insert_trace_lem :
      (s s' : State) (t : Trace Body)
      → insert_trace s t ≡ some s'
      → (logs s' ≡ logs s) × ((u : ℕ) → quotas s' u ≡ quotas s u)
  pub mark_traced_lem :
      (s : State) (id : String)
      → (logs (mark_traced s id) ≡ logs s) × ((u : ℕ) → quotas (mark_traced s id) u ≡ quotas s u)
  pub update_quota_lem :
      (s s' : State) (u amount : ℕ)
      → update_quota s u amount ≡ some s'
      → (logs s' ≡ logs s)
        × ((v : ℕ) → quotas s' v ≡ (if u == v then deducted amount (quotas s v) else quotas s v))
  pub select_quota_lem :
      (s : State) (u q : ℕ) → select_quota s u ≡ some q → (used : ℕ) × (quotas s u ≡ some (q, used))
