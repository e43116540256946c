-- ===== src/Tests/Settler.antt =====
-- internal/master/billing/settler.go on a database in memory, with whole numbers as `float64`.
use vaala_ai_gateway.Prelude.{
  ℕ, ◌*◌, ◌/◌, ◌%◌, ◌≡◌, ◌<◌, refl, sym, ap, ◌∙◌, Bool, true, false, not, String, str_eq, List, [],
  ◌∷◌, Option, none, some, ◌⊎◌, inl, inr, arith, ltb, ◌==◌, if◌then◌else◌, Bool-cases,
}
use vaala_ai_gateway.Master.Billing.{word_size, add64, sub64}
use vaala_ai_gateway.Master.Settler.{
  Float64, UsageLogEntry, raw_costs, bucket_cost, cache_cost, bill, apply_byok_billing_mode,
  apply_channel_price_ratio,
}
use vaala_ai_gateway.Master.Settler.Store.{
  StoredLog, InsertError, is_duplicate_request_id_error, LogDatabase, has_request, deducted,
}
use vaala_ai_gateway.Master.Settler.Log.{
  Env, settled_log, build_log, model_prices, parse_channel_snapshot,
}
use vaala_ai_gateway.Master.Settler.Settle.{
  World, settle, settle_one, settle_new, write_traces, write_attempts, deduct_quota,
}
use vaala_ai_gateway.Master.Settler.Charged.{IsCharged, settle-IsCharged}
use vaala_ai_gateway.Master.Settler.Again.{settle-settle}

abbrev whole_numbers : Float64
whole_numbers = record {
  F = ℕ;
  of_int = λ n. n;
  to_int = λ x. x;
  times = λ x y. x * y;
  divided_by = λ x y. x / y;
  is_above_zero = λ x. ltb 0 x;
  is_at_most_zero = λ x. not (ltb 0 x);
}

abbrev Memory : Type 0
Memory = List (StoredLog ℕ) × (ℕ → Option (ℕ × ℕ))

abbrev as_words : Option (ℕ × ℕ) → Option (ℕ × ℕ)
as_words none = none
as_words (some (q, used)) = some (q % word_size, used % word_size)

as_words-word :
    (o : Option (ℕ × ℕ)) (q used : ℕ)
    → as_words o ≡ some (q, used)
    → (q < word_size) × (used < word_size)
as_words-word none q used e = absurd (cc)
as_words-word (some (p, v)) q used e =
    let a : p % word_size ≡ q = cc in let b : v % word_size ≡ used = cc in omega (arith, a, b)

as_words-deducted :
    (amount : ℕ) (o : Option (ℕ × ℕ)) → as_words (deducted amount o) ≡ deducted amount (as_words o)
as_words-deducted amount none = refl
as_words-deducted amount (some (q, used)) =
    let a : sub64 q amount % word_size ≡ sub64 (q % word_size) amount = omega arith in
    let b : add64 used amount % word_size ≡ add64 (used % word_size) amount = omega arith in cc

abbrev update_user : ℕ → ℕ → (ℕ → Option (ℕ × ℕ)) → ℕ → Option (ℕ × ℕ)
update_user u amount users v = if u == v then deducted amount (users v) else users v

update_user_lem :
    (u amount : ℕ) (users : ℕ → Option (ℕ × ℕ)) (v : ℕ)
    → as_words (update_user u amount users v)
      ≡ (if u == v then deducted amount (as_words (users v)) else as_words (users v))
update_user_lem u amount users v = elim (Bool-cases (u == v)) [
  | inl e ↦ rw e (as_words-deducted amount (users v))
  | inr e ↦ rw e refl
]

abbrev quota_of : Option (ℕ × ℕ) → Option ℕ
quota_of none = none
quota_of (some (q, used)) = some q

quota_of_lem :
    (o : Option (ℕ × ℕ)) (q : ℕ) → quota_of o ≡ some q → (used : ℕ) × (o ≡ some (q, used))
quota_of_lem none q e = absurd (cc)
quota_of_lem (some (p, used)) q e = (used, cc)

abbrev insert_fresh : Memory → StoredLog ℕ → Bool → InsertError ⊎ Memory
insert_fresh s l true = inl (record { duplicated_key = true; lower = "" })
insert_fresh s l false = inr (l ∷ s.0, s.1)

abbrev as_count : Bool → ℕ
as_count b = if b then 1 else 0

insert_fresh_lem :
    (s s' : Memory) (l : StoredLog ℕ) (b : Bool)
    → has_request l.request_id s.0 ≡ b
    → insert_fresh s l b ≡ inr s'
    → (s'.0 ≡ l ∷ s.0)
      × ((u : ℕ) → as_words (s'.1 u) ≡ as_words (s.1 u))
      × (has_request l.request_id s.0 ≡ false)
insert_fresh_lem s s' l true h e = absurd (cc)
insert_fresh_lem s s' l false h e =
    let same : s' ≡ (l ∷ s.0, s.1) = cc in (λ i. (same i).0, λ u i. as_words ((same i).1 u), h)

insert_fresh-duplicate :
    (s : Memory) (l : StoredLog ℕ) (b : Bool) (e : InsertError)
    → insert_fresh s l b ≡ inl e
    → b ≡ true
insert_fresh-duplicate s l true e h = refl
insert_fresh-duplicate s l false e h = absurd (cc)

abbrev count_of : Memory → String → Option ℕ
count_of s id = some (if has_request id s.0 then 1 else 0)

count_of_lem :
    (b : Bool) (n : ℕ) → ◌≡◌ {A = Option ℕ} (some (if b then 1 else 0)) (some n) → ltb 0 n ≡ b
count_of_lem true n e = let one : ◌≡◌ {A = ℕ} 1 n = cc in rw (sym one) refl
count_of_lem false n e = let zero_ : ◌≡◌ {A = ℕ} 0 n = cc in rw (sym zero_) refl

update_lem :
    (s s' : Memory) (u amount : ℕ)
    → ◌≡◌ {A = Option Memory} (some (s.0, update_user u amount s.1)) (some s')
    → (s'.0 ≡ s.0)
      × ((v : ℕ)
          → as_words (s'.1 v)
            ≡ (if u == v then deducted amount (as_words (s.1 v)) else as_words (s.1 v)))
update_lem s s' u amount e =
    let same : s' ≡ (s.0, update_user u amount s.1) = cc in
    (
      λ i. (same i).0,
      λ v. ap (λ (x : Memory). as_words (x.1 v)) same ∙ update_user_lem u amount s.1 v,
    )

same_lem :
    (s s' : Memory)
    → ◌≡◌ {A = Option Memory} (some s) (some s')
    → (s'.0 ≡ s.0) × ((u : ℕ) → as_words (s'.1 u) ≡ as_words (s.1 u))
same_lem s s' e = let same : s' ≡ s = cc in (λ i. (same i).0, λ u i. as_words ((same i).1 u))

abbrev memory : LogDatabase ℕ ℕ
memory = record {
  State = Memory;
  logs = λ s. s.0;
  quotas = λ s u. as_words (s.1 u);
  count_request = count_of;
  insert_log = λ s l. insert_fresh s l (has_request l.request_id s.0);
  insert_trace = λ s t. some s;
  mark_traced = λ s id. s;
  update_quota = λ s u amount. some (s.0, update_user u amount s.1);
  select_quota = λ s u. quota_of (as_words (s.1 u));
  commits = λ s. true;
  quotas-word = λ s u. as_words-word (s.1 u);
  count_request_lem = λ s id. count_of_lem (has_request id s.0);
  insert_log_lem = λ s s' l. insert_fresh_lem s s' l (has_request l.request_id s.0) refl;
  insert_log-duplicate = λ s l e h d. insert_fresh-duplicate s l (has_request l.request_id s.0) e h;
  insert_trace_lem = λ s s' t. same_lem s s';
  mark_traced_lem = λ s id. (refl, λ u. refl);
  update_quota_lem = update_lem;
  select_quota_lem = λ s u. quota_of_lem (as_words (s.1 u));
}

abbrev env : Env ℕ ℕ
env = record {
  prices = λ name.
      some (record {
        input_price = 30;
        output_price = 60;
        cache_read_price = 0;
        cache_write_price = 0;
      });
  settings = record { billing_mode = "free"; service_fee_ratio = 1 };
  unmarshal_trace = λ s. none;
  unmarshal_snapshot = λ s. none;
  is_blank = λ s. str_eq s "";
  now = 100;
}

abbrev entry : String → UsageLogEntry ℕ ℕ
entry id = record {
  request_id = id;
  user_id = 3;
  token_id = 1;
  channel_id = 1;
  private_channel_id = 0;
  owner_type = "admin";
  model_name = "m";
  prompt_tokens = 1000000;
  completion_tokens = 0;
  is_stream = false;
  duration = 1;
  client_ip = "";
  timestamp = 7;
  token_name = "";
  upstream_model = "";
  first_response_ms = 1;
  cache_read_tokens = 0;
  cache_write_tokens = 0;
  inbound_protocol = "";
  outbound_protocol = "";
  use_legacy = false;
  status = 1;
  error_message = "";
  trace_data = "";
  other = "";
  token_source = "";
  routing_name = "";
  affinity_status = "";
  affinity_recorded = false;
  error_stage = "";
  inbound_decode_ms = 0;
  outbound_encode_ms = 0;
  upstream_dispatch_ms = 0;
  upstream_decode_ms = 0;
  client_encode_ms = 0;
  price_ratio = 0;
  free = false;
  fallback_chain = [];
  attempt_traces = [];
}

abbrev before : World Memory
before = record {
  db = ([], λ u. if u == 3 then some (4000000, 0) else none);
  submitted = [];
  depleted = [];
}

-- A request that is reported twice, and one more.
abbrev report : List (UsageLogEntry ℕ ℕ)
report = entry "a" ∷ entry "a" ∷ entry "b" ∷ []

settle-IsCharged_example :
    (new : List (StoredLog ℕ)) × IsCharged whole_numbers memory before new
      (settle whole_numbers env memory "agent" report before).1
settle-IsCharged_example = settle-IsCharged whole_numbers memory env "agent" report before

none_failed : (settle whole_numbers env memory "agent" report before).0 ≡ []
unfolding settle settle_one settle_new settled_log build_log model_prices write_traces
    write_attempts deduct_quota parse_channel_snapshot raw_costs bucket_cost cache_cost bill
    apply_byok_billing_mode apply_channel_price_ratio is_duplicate_request_id_error
none_failed = refl

two_charged :
    memory.quotas (settle whole_numbers env memory "agent" report before).1.db 3
    ≡ some (18446744073707551616, 6000000)
unfolding settle settle_one settle_new settled_log build_log model_prices write_traces
    write_attempts deduct_quota parse_channel_snapshot raw_costs bucket_cost cache_cost bill
    apply_byok_billing_mode apply_channel_price_ratio is_duplicate_request_id_error
two_charged = refl

settle-settle_example :
    (settle whole_numbers env memory "other" report
      (settle whole_numbers env memory "agent" report before).1).1
    ≡ (settle whole_numbers env memory "agent" report before).1
settle-settle_example =
    settle-settle whole_numbers memory env "agent" "other" report before none_failed
