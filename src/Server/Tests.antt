-- ===== src/Server/Tests.antt =====
-- Runs of the chat handler and of the reports.
use paracetamol.Base.{
  ℕ, ◌+◌, ◌-◌, true, false, none, some, List, [], ◌∷◌, ◌++◌, ◌≡◌, refl, arith, ltb, if◌then◌else◌,
}
use paracetamol.Base.Int.{ℤ, pos}
use paracetamol.Text.{Text, codes, equal}
use paracetamol.Ledger.Usage.{Floats, RequestRecord, RequestOutcome, outcome_queue_full}
use paracetamol.Ledger.Store.{lookup, no_requests}
use paracetamol.Ledger.Lookup.{lookup_report}
use paracetamol.Ledger.Active.{Op}
use paracetamol.Scheduler.State.{llama_cpp, queue_full}
use paracetamol.Server.Exchange.{
  RegistryModel, bytes, refused, granted, Exchange, Requests, is_queue_full,
}
use paracetamol.Server.Chat.{
  completed_record, complete_request, refuse, proxied_record, serve_leased, serve_acquired,
  serve_rewritten, serve_known, serve_inspected, serve_read, chat_body, chat,
}
use paracetamol.Server.Protocol.{absent, closed, follow}
use paracetamol.Server.Ordered.{chat-follow}
use paracetamol.Server.Records.{Recorded, chat-Recorded}
use paracetamol.Server.Shown.{added_by, collect}
use paracetamol.Server.Together.{ledger_ops, all_done, own, beside, perform_all, chat_forgotten}
use paracetamol.Server.ReportId.{request_id}
use paracetamol.Server.Report.{
  request_report, request_report_path, response_of, not_retained, request_report_made,
}

abbrev test_model : RegistryModel
test_model = record { id = codes "m"; application = codes "llama-cpp"; backend = llama_cpp }

abbrev test_requests : Requests
test_requests = record {
  inspect = λ body. some (record { model = codes "m"; stream = false });
  lookup_model = λ name. if equal name (codes "m") then some test_model else none;
  valid_media = λ body model. true;
  with_defaults = λ body model. some body;
}

-- the stream of the backend breaks off behind the status
abbrev broken : Exchange ℕ
broken = record {
  id = codes "r1";
  session_id = [];
  peer = codes "peer";
  user_agent = [];
  accepting = true;
  body = bytes (codes "body");
  acquired = granted;
  proxied = record {
    aborted = true;
    canceled_then = false;
    disconnected = false;
    status = 200;
    canceled = false;
    observation = none;
  };
  started_at = codes "start";
  finished_at = codes "finish";
  started = 1000000;
  wait_started = 2000000;
  wait_finished = 4000000;
  upstream_started = 4000000;
  upstream_finished = 9000000;
  finished = 10000000;
}

abbrev outcomes : Exchange ℕ → List (RequestOutcome × ℤ)
outcomes e = elim (collect added_by (chat test_requests e)) [
  | [] ↦ []
  | r ∷ rest ↦ (r.outcome, r.http_status) ∷ []
]

full_is_told :
    outcomes (record broken { acquired = refused queue_full }) ≡ (outcome_queue_full, pos 503) ∷ []
unfolding collect chat chat_body serve_read serve_inspected serve_known serve_rewritten
    serve_acquired refuse complete_request completed_record equal is_queue_full
full_is_told = refl

chat-follow_example : follow (codes "r1") absent (chat test_requests broken) ≡ closed
chat-follow_example = chat-follow test_requests broken

chat-Recorded_example :
    (r : RequestRecord ℕ) × Recorded test_requests broken r (chat test_requests broken)
chat-Recorded_example = chat-Recorded test_requests broken

abbrev whole : Floats ℕ
whole = record {
  nothing = 0;
  max_float64 = 1000;
  refused = λ x. false;
  less = ltb;
  minus = ◌-◌;
  plus = ◌+◌;
}

abbrev mixed : List (Op ℕ)
mixed = Op.untracks (codes "r2") ∷ ledger_ops (chat test_requests broken)

chat_forgotten_example :
    lookup (codes "r1") (perform_all whole (no_requests whole) mixed).active ≡ none
unfolding ledger_ops chat chat_body serve_read serve_inspected serve_known serve_rewritten
    serve_acquired serve_leased complete_request completed_record proxied_record equal
chat_forgotten_example =
    chat_forgotten whole test_requests broken (no_requests whole)
      (beside refl (own (own (own (own (own all_done))))))

abbrev test_instance : Text
test_instance = codes "0123456789abcdef0123456789abcdef"

abbrev test_path : Text
test_path = request_report_path ++ request_id test_instance 255

request_report_made_example : request_report test_instance (no_requests whole) test_path false ≡ (
    if equal test_instance test_instance
    then response_of (lookup_report (no_requests whole) (request_id test_instance 255))
    else not_retained)
request_report_made_example =
    request_report_made test_instance test_instance (no_requests whole) 255 refl refl (omega arith)
      (omega arith)
