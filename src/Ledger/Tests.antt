-- ===== src/Ledger/Tests.antt =====
-- Concrete records, and the theorems of the ledger applied to them. Milliseconds are whole numbers
-- here, none of them refused.
use paracetamol.Base.{
  ℕ, zero, suc, ◌+◌, ◌≤◌, ◌<◌, true, false, none, some, List, [], ◌∷◌, ◌≡◌, refl, arith, ltb, ◌-◌,
  length, take,
}
use paracetamol.Base.Int.{pos, negsuc}
use paracetamol.Text.{Text, codes, equal}
use paracetamol.Ledger.Usage.{
  Floats, RequestRecord, RequestOutcome, outcome_succeeded, outcome_canceled, add_aggregate,
  saturating_add,
}
use paracetamol.Ledger.Store.{
  add, recent, lookup, least, recent_request_limit, recent_session_limit, remove_key, insert,
}
use paracetamol.Ledger.Recent.{after, recent-after}
use paracetamol.Ledger.Totals.{Totals, overall-Totals}
use paracetamol.Ledger.Models.{usage_of, by_model, model-Totals}
use paracetamol.Ledger.Sessions.{IsKept, sessions-IsKept}
use paracetamol.Ledger.Lookup.{completed, lookup_report, lookup_report-completed}
use paracetamol.Ledger.Active.{Op, adds, tracks, untracks, behind, active_bounded}

abbrev whole : Floats ℕ
whole = record {
  nothing = 0;
  max_float64 = 1000000;
  refused = λ n. false;
  less = λ a b. ltb a b;
  minus = λ a b. a - b;
  plus = λ a b. a + b;
}

abbrev request : Text → Text → Text → RequestOutcome → RequestRecord ℕ
request id session model outcome = record {
  id = id;
  session_id = session;
  model = model;
  application = codes "llama-cpp";
  peer = codes "127.0.0.1";
  user_agent = codes "curl";
  stream = true;
  outcome = outcome;
  http_status = pos 200;
  started_at = codes "t0";
  finished_at = codes "t1";
  timing = record {
    gateway_wait_milliseconds = pos 3;
    upstream_milliseconds = pos 40;
    total_milliseconds = pos 44;
    first_output_milliseconds = some (pos 9);
  };
  tokens = record {
    input = some (pos 100);
    output = some (pos 20);
    cached = some (pos 60);
    reasoning = some (negsuc 0);
  };
  backend_timings = record {
    prompt_tokens = some (pos 40);
    prompt_milliseconds = some 12;
    generated_tokens = some (pos 20);
    generated_milliseconds = some 28;
    draft_tokens = some (pos 8);
    draft_accepted_tokens = some (pos 5);
    draft_verification_steps = none;
  };
}

abbrev history : List (RequestRecord ℕ)
history =
    request (codes "c") (codes "s2") (codes "small") outcome_canceled
    ∷ request (codes "b") (codes "s1") (codes "large") outcome_succeeded
    ∷ request (codes "a") (codes "s1") (codes "small") outcome_succeeded
    ∷ []

-- more sessions than are kept
abbrev many : ℕ → List (RequestRecord ℕ)
many zero = []
many (suc n) = request (suc n ∷ []) (suc n ∷ []) (codes "small") outcome_succeeded ∷ many n

many_full : length (after whole (many 64)).sessions ≡ recent_session_limit
unfolding after add_aggregate saturating_add lookup insert remove_key equal
many_full = refl

recent-after_example :
    recent whole (after whole history) (pos 2) ≡ some (take (least 2 recent_request_limit) history)
recent-after_example = recent-after whole history 2 (omega arith)

overall-Totals_example : Totals whole (after whole history).overall history
overall-Totals_example = overall-Totals whole history

model-Totals_example :
    Totals whole
      (usage_of whole (codes "small") (after whole history).models)
      (by_model whole (codes "small") history)
model-Totals_example = model-Totals whole history (codes "small") refl

sessions-IsKept_example : IsKept 3 (after whole history).sessions
sessions-IsKept_example = sessions-IsKept whole history (omega arith)

abbrev tracked : RequestRecord ℕ
tracked = request (codes "d") [] [] outcome_succeeded

abbrev ops : List (Op ℕ)
ops = untracks (codes "x") ∷ adds tracked ∷ tracks tracked (codes "waiting") ∷ []

active_bounded_example : length (behind whole ops).active ≤ 128
active_bounded_example = active_bounded whole ops

apart : equal (codes "d") (codes "x") ≡ false
unfolding equal
apart = refl

three_added : (after whole history).sequence < 9223372036854775808
unfolding after
three_added = omega arith

lookup_report-completed_example :
    (q : RequestRecord ℕ) × (lookup_report (add whole (after whole history) tracked) (codes "d")
      ≡ some (completed q))
    × (equal q.id (codes "d") ≡ true)
lookup_report-completed_example =
    lookup_report-completed whole (after whole history) tracked three_added
