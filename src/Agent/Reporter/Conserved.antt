-- ===== src/Agent/Reporter/Conserved.antt =====
-- internal/agent/reporter/reporter.go: no usage log is lost but by a cap, a missing client or a
-- flush under way.
use vaala_ai_gateway.Prelude.{
  ℕ, zero, suc, ◌+◌, ◌-◌, ◌*◌, ◌≡◌, refl, sym, ap, ◌∙◌, inl, inr, some, Bool, false, List, [], ◌∷◌,
  ◌++◌, arith, Bool-cases, if◌then◌else◌, ltb, length, length-append,
}
use vaala_ai_gateway.Agent.Reporter.{
  Reporter, receive, take, take_from, drop, cap, give_back, set_client, pending_count,
}

module _ {Entry : Type 0} (stamp : Entry → Entry) where
  -- The reporter with the flushes that are under way, and what has become of the entries so far: how
  -- many were received, reported, and dropped.
  pub record World : Type 0 where
    pub reporter : Reporter Entry
    pub sending : List (List Entry)
    pub received : ℕ
    pub reported : ℕ
    pub dropped : ℕ

  abbrev pub count_all : List (List Entry) → ℕ
  count_all [] = 0
  count_all (l ∷ ls) = length l + count_all ls

  -- The number that a failed report logs as dropped: what its logs and the buffer are over the cap.
  abbrev pub over_cap : List Entry → Reporter Entry → ℕ
  over_cap logs r =
      if ltb (r.buffer_size * 10) (length (logs ++ r.buffer))
      then length (logs ++ r.buffer) - r.buffer_size * 10
      else 0

  -- The steps of any number of subscribers and flushes that interleave.
  pub data Step : World → World → Type 0 where
    received :
        (w : World) (entry : Entry)
        → Step w
            (record w { reporter = (receive stamp entry w.reporter).0; received = w.received + 1 })
    -- A flush reads the client after it has released the lock.
    taken :
        (w : World) (r : Reporter Entry) (logs : List Entry)
        → take w.reporter ≡ some (r, logs)
        → Step w (record w { reporter = r; sending = logs ∷ w.sending })
    -- A flush without a client drops what it took.
    unsent :
        (w : World) (before after : List (List Entry)) (logs : List Entry)
        → w.reporter.has_client ≡ false
        → w.sending ≡ before ++ logs ∷ after
        → Step w (record w { sending = before ++ after; dropped = w.dropped + length logs })
    reported :
        (w : World) (before after : List (List Entry)) (logs : List Entry)
        → w.sending ≡ before ++ logs ∷ after
        → Step w (record w { sending = before ++ after; reported = w.reported + length logs })
    -- The report failed: what is over the cap is dropped.
    returned :
        (w : World) (before after : List (List Entry)) (logs : List Entry)
        → w.sending ≡ before ++ logs ∷ after
        → Step w (record w {
          reporter = give_back logs w.reporter;
          sending = before ++ after;
          dropped = w.dropped + over_cap logs w.reporter;
        })
    client_set :
        (w : World) (there : Bool) → Step w (record w { reporter = set_client there w.reporter })

  pub data Reachable (buffer_size : ℕ) : World → Type 0 where
    started :
        (has_client : Bool)
        → Reachable buffer_size (record {
          reporter = record { buffer = []; buffer_size = buffer_size; has_client = has_client };
          sending = [];
          received = 0;
          reported = 0;
          dropped = 0;
        })
    stepped : (w w' : World) → Reachable buffer_size w → Step w w' → Reachable buffer_size w'

  abbrev pub IsConserved : World → Type 0
  IsConserved w =
      w.received ≡ w.reported + w.dropped + pending_count w.reporter + count_all w.sending

  count_all-append :
      (before after : List (List Entry)) (logs : List Entry)
      → count_all (before ++ logs ∷ after) ≡ length logs + count_all (before ++ after)
  count_all-append [] after logs = refl
  count_all-append (l ∷ before) after logs = omega (arith, count_all-append before after logs)

  length-drop : (n : ℕ) (l : List Entry) → length (drop n l) ≡ length l - n
  unfolding drop
  length-drop zero l = omega arith
  length-drop (suc n) [] = omega arith
  length-drop (suc n) (x ∷ l) = omega (arith, length-drop n l)

  -- A cap drops what is over the bound, and nothing else.
  length-cap :
      (bound : ℕ) (l : List Entry)
      → length (cap bound l) + (if ltb bound (length l) then length l - bound else 0) ≡ length l
  unfolding cap
  length-cap bound l = elim (Bool-cases (ltb bound (length l))) [
    | inl e ↦ rw e (let d = length-drop (length l - bound) l in omega (arith, d))
    | inr e ↦ rw e (omega arith)
  ]

  -- What is taken leaves the buffer empty.
  length-take_from :
      (r r' : Reporter Entry) (l logs : List Entry)
      → take_from r l ≡ some (r', logs)
      → (length l ≡ length logs) × (length r'.buffer ≡ 0)
  length-take_from r r' [] logs e = absurd (cc)
  length-take_from r r' (x ∷ l) logs e =
      let here : record r { buffer = [] } ≡ r' = cc in
      let there : x ∷ l ≡ logs = cc in
      (ap length there, sym (ap (λ (q : Reporter Entry). length q.buffer) here))

  length-take :
      (r r' : Reporter Entry) (logs : List Entry)
      → take r ≡ some (r', logs)
      → (pending_count r ≡ length logs) × (pending_count r' ≡ 0)
  unfolding take pending_count
  length-take r r' logs e = length-take_from r r' r.buffer logs e

  pending_count-receive :
      (entry : Entry) (r : Reporter Entry)
      → pending_count (receive stamp entry r).0 ≡ pending_count r + 1
  unfolding receive pending_count
  pending_count-receive entry r = length-append r.buffer (stamp entry ∷ []) ∙ (omega arith)

  pending_count-give_back :
      (logs : List Entry) (r : Reporter Entry)
      → pending_count (give_back logs r) + over_cap logs r ≡ length logs + pending_count r
  unfolding give_back pending_count
  pending_count-give_back logs r =
      length-cap (r.buffer_size * 10) (logs ++ r.buffer) ∙ length-append logs r.buffer

  Step-IsConserved : (w w' : World) → Step w w' → IsConserved w → IsConserved w'
  unfolding set_client pending_count
  Step-IsConserved _ _ (received w entry) h =
      omega (arith, h, pending_count-receive entry w.reporter)
  Step-IsConserved _ _ (taken w r logs e) h =
      omega (arith, h, (length-take w.reporter r logs e).0, (length-take w.reporter r logs e).1)
  Step-IsConserved _ _ (unsent w before after logs _ e) h =
      omega (arith, h, ap count_all e, count_all-append before after logs)
  Step-IsConserved _ _ (reported w before after logs e) h =
      omega (arith, h, ap count_all e, count_all-append before after logs)
  Step-IsConserved _ _ (returned w before after logs e) h = omega (
    arith,
    h,
    ap count_all e,
    count_all-append before after logs,
    pending_count-give_back logs w.reporter,
  )
  Step-IsConserved _ _ (client_set w there) h = h

  -- However the subscribers, the flushes and the changes of client interleave, the entries received
  -- are those reported, those dropped, those in the buffer and those that a flush is sending. Dropped
  -- are the logs of a flush without a client and the number over the cap that a failed report logs.
  pub Reachable-IsConserved :
      (buffer_size : ℕ) (w : World) → Reachable buffer_size w → IsConserved w
  unfolding pending_count
  Reachable-IsConserved buffer_size _ (started _) = refl
  Reachable-IsConserved buffer_size _ (stepped w w' before step) =
      Step-IsConserved w w' step (Reachable-IsConserved buffer_size w before)
