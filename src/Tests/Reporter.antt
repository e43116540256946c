-- ===== src/Tests/Reporter.antt =====
-- internal/agent/reporter/reporter.go on two entries and a report that fails.
use vaala_ai_gateway.Prelude.{ℕ, ◌+◌, ◌≡◌, refl, true, [], ◌∷◌}
use vaala_ai_gateway.Agent.Reporter.{receive, take, give_back, pending_count}
use vaala_ai_gateway.Agent.Reporter.Conserved.{
  World, Reachable, IsConserved, Reachable-IsConserved, started, stepped, received, taken, returned,
  over_cap,
}

abbrev plain : ℕ → ℕ
plain x = x

abbrev w0 : World plain
w0 = record {
  reporter = record { buffer = []; buffer_size = 1; has_client = true };
  sending = [];
  received = 0;
  reported = 0;
  dropped = 0;
}

abbrev w1 : World plain
w1 = record w0 { reporter = (receive plain 7 w0.reporter).0; received = 1 }

abbrev w2 : World plain
w2 = record w1 { reporter = record w0.reporter { buffer = [] }; sending = (7 ∷ []) ∷ [] }

-- A log arrives while the first one is being sent.
abbrev w3 : World plain
w3 = record w2 { reporter = (receive plain 8 w2.reporter).0; received = 2 }

abbrev w4 : World plain
w4 = record w3 {
  reporter = give_back (7 ∷ []) w3.reporter;
  sending = [];
  dropped = 0 + over_cap plain (7 ∷ []) w3.reporter;
}

run_two : Reachable plain 1 w4
unfolding receive take
run_two =
    stepped w3 w4
      (stepped w2 w3
        (stepped w1 w2 (stepped w0 w1 (started true) (received w0 7))
          (taken w1 (record w0.reporter { buffer = [] }) (7 ∷ []) refl))
        (received w2 8))
      (returned w3 [] [] (7 ∷ []) refl)

Reachable-IsConserved_example : IsConserved plain w4
Reachable-IsConserved_example = Reachable-IsConserved plain 1 w4 run_two

two_kept : (pending_count w4.reporter ≡ 2) × (w4.dropped ≡ 0)
unfolding receive give_back pending_count
two_kept = (refl, refl)
