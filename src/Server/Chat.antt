-- ===== src/Server/Chat.antt =====
-- `chat` and `completeRequest`, each as what it does, in order. The deferred calls stand at the end:
-- the lease is released before the request is untracked, also when the handler panics.
use paracetamol.Base.{
  ℕ, Bool, true, false, not, ◌&&◌, ◌||◌, Option, none, some, List, [], ◌∷◌, ◌++◌, ltb, leb, ◌==◌,
  if◌then◌else◌, length,
}
use paracetamol.Base.Int.{ℤ, pos}
use paracetamol.Text.{Text, codes}
use paracetamol.Ledger.Usage.{
  RequestRecord, RequestOutcome, outcome_succeeded, outcome_rejected, outcome_canceled,
  outcome_queue_full, outcome_backend_start_failed, outcome_upstream_error, unnamed,
}
use paracetamol.Scheduler.State.{Err}
use paracetamol.Observer.State.{ResponseObservation}
use paracetamol.Server.Exchange.{
  max_request_bytes, RegistryModel, RequestObservation, BodyRead, unreadable, bytes, Acquired, gone,
  refused, granted, Proxied, Exchange, Requests, Effect, tracks, untracks, adds, persists, responds,
  acquires, fails, releases, aborts, proxies, elapsed_milliseconds, is_queue_full, is_shutting_down,
}

-- the wait that `completeRequest` notes, if both of its times are given
abbrev pub waited : ℤ → Option ℕ → Option ℕ → ℤ
waited before (some start) (some finish) = elapsed_milliseconds (some start) (some finish)
waited before _ _ = before

abbrev pub refused_code : Err → Text
refused_code error =
    if is_queue_full error
    then codes "gateway_queue_full"
    else if is_shutting_down error
    then codes "gateway_shutting_down"
    else codes "backend_start_failed"

abbrev pub refused_outcome : Err → RequestOutcome
refused_outcome error =
    if is_queue_full error
    then outcome_queue_full
    else if is_shutting_down error
    then outcome_rejected
    else outcome_backend_start_failed

module _ {F : Type 0} where
  abbrev pub initial_record : Exchange F → RequestRecord F
  initial_record e = record {
    id = e.id;
    session_id = e.session_id;
    model = [];
    application = [];
    peer = e.peer;
    user_agent = e.user_agent;
    stream = false;
    outcome = unnamed;
    http_status = pos 0;
    started_at = e.started_at;
    finished_at = [];
    timing = record {
      gateway_wait_milliseconds = pos 0;
      upstream_milliseconds = pos 0;
      total_milliseconds = pos 0;
      first_output_milliseconds = none;
    };
    tokens = record { input = none; output = none; cached = none; reasoning = none };
    backend_timings = record {
      prompt_tokens = none;
      prompt_milliseconds = none;
      generated_tokens = none;
      generated_milliseconds = none;
      draft_tokens = none;
      draft_accepted_tokens = none;
      draft_verification_steps = none;
    };
  }

  abbrev pub ended : RequestRecord F → RequestOutcome → ℕ → RequestRecord F
  ended r outcome status = record r { outcome = outcome; http_status = pos status }

  -- the status that the response writer notes: its first
  abbrev pub final_status : Proxied F → ℕ
  final_status p = if p.disconnected && p.status == 0 then 502 else p.status

  abbrev pub proxy_failed : Proxied F → Bool
  proxy_failed p = p.disconnected || (p.aborted && not p.canceled_then)

  -- what the observation of the response brings to the record
  abbrev pub observed :
      Exchange F → RequestRecord F → Option (ResponseObservation F) → RequestRecord F
  observed e r none = r
  observed e r (some o) = record r {
    tokens = o.tokens;
    backend_timings = o.timings;
    timing = record r.timing {
      first_output_milliseconds = elim o.first_output_at [
        | none ↦ none
        | some at_time ↦
            if leb 200 (final_status e.proxied) && ltb (final_status e.proxied) 300
            then some (elapsed_milliseconds (some e.started) (some at_time))
            else none
      ];
    };
  }

  abbrev pub proxied_outcome : Proxied F → RequestOutcome
  proxied_outcome p =
      if p.canceled
      then outcome_canceled
      else if proxy_failed p || leb 400 (final_status p)
      then outcome_upstream_error
      else outcome_succeeded

  unfoldable pub proxied_record : Exchange F → RequestRecord F → RequestRecord F
  unfolding elapsed_milliseconds
  proxied_record e r =
      let seen =
        ended (observed e r e.proxied.observation) (proxied_outcome e.proxied)
          (final_status e.proxied) in
      record seen {
        timing = record seen.timing {
          upstream_milliseconds =
              elapsed_milliseconds (some e.upstream_started) (some e.upstream_finished);
        };
      }

  -- what the error handler does, what is done of an aborted stream, and the panic
  abbrev pub disconnection : Bool → List (Effect F)
  disconnection true = fails ∷ responds 502 (codes "upstream_error") ∷ []
  disconnection false = []

  abbrev pub abortion : Bool → List (Effect F)
  abortion true = fails ∷ []
  abortion false = []

  abbrev pub panic : Bool → List (Effect F)
  panic true = aborts ∷ []
  panic false = []

  unfoldable pub completed_record :
      Exchange F → RequestRecord F → Option ℕ → Option ℕ → RequestRecord F
  unfolding elapsed_milliseconds
  completed_record e r wait_started wait_finished = record r {
    finished_at = e.finished_at;
    timing = record r.timing {
      gateway_wait_milliseconds =
          waited r.timing.gateway_wait_milliseconds wait_started wait_finished;
      total_milliseconds = elapsed_milliseconds (some e.started) (some e.finished);
    };
  }

  module _ (requests : Requests) where
    -- what reaches durable storage
    abbrev pub persisted : Option RegistryModel → RequestRecord F → List (Effect F)
    persisted none r = []
    persisted (some model) r =
        persists (record r { model = model.id; application = model.application }) ∷ []

    unfoldable pub complete_request :
        Exchange F → RequestRecord F → Option ℕ → Option ℕ → List (Effect F)
    unfolding completed_record
    complete_request e r wait_started wait_finished =
        let finished = completed_record e r wait_started wait_finished in
        adds finished ∷ persisted (requests.lookup_model finished.model) finished

    -- the function `reject` of the handler
    unfoldable pub reject :
        Exchange F → RequestRecord F → ℕ → RequestOutcome → Text → List (Effect F)
    unfolding complete_request
    reject e r status outcome code =
        responds status code ∷ complete_request e (ended r outcome status) none none

    -- an error of `Acquire` that is not `context.Canceled`
    unfoldable pub refuse : Exchange F → RequestRecord F → Err → List (Effect F)
    unfolding complete_request is_queue_full is_shutting_down
    refuse e r error =
        responds 503 (refused_code error)
        ∷ complete_request e (ended r (refused_outcome error) 503) (some e.wait_started)
            (some e.wait_finished)

    -- the handler with its lease
    unfoldable pub serve_leased : Exchange F → RequestRecord F → Text → List (Effect F)
    unfolding complete_request proxied_record
    serve_leased e r body =
        let p = e.proxied in
        tracks r (codes "upstream")
        ∷ proxies body
        ∷ (disconnection p.disconnected
            ++ (abortion (p.aborted && not p.canceled_then)
                ++ (complete_request e (proxied_record e r) (some e.wait_started)
                      (some e.wait_finished)
                    ++ (panic p.aborted ++ releases ∷ []))))

    unfoldable pub serve_acquired :
        Exchange F → RequestRecord F → RegistryModel → Text → Acquired → List (Effect F)
    unfolding complete_request refuse serve_leased
    serve_acquired e r model body gone =
        complete_request e (record r { outcome = outcome_canceled }) (some e.wait_started)
          (some e.wait_finished)
    serve_acquired e r model body (refused error) = refuse e r error
    serve_acquired e r model body granted = acquires model.backend ∷ serve_leased e r body

    unfoldable pub serve_rewritten :
        Exchange F → RequestRecord F → RegistryModel → Option Text → List (Effect F)
    unfolding reject serve_acquired
    serve_rewritten e r model none =
        reject e r 400 outcome_rejected (codes "invalid_reasoning_controls")
    serve_rewritten e r model (some body) =
        tracks r (codes "waiting") ∷ serve_acquired e r model body e.acquired

    unfoldable pub serve_known :
        Exchange F → RequestRecord F → Text → Option RegistryModel → List (Effect F)
    unfolding reject serve_rewritten
    serve_known e r body none = reject e r 404 outcome_rejected (codes "model_not_found")
    serve_known e r body (some model) =
        let named = record r { model = model.id; application = model.application } in
        if not (requests.valid_media body model)
        then reject e named 400 outcome_rejected (codes "invalid_media")
        else serve_rewritten e named model (requests.with_defaults body model)

    unfoldable pub serve_inspected :
        Exchange F → RequestRecord F → Text → Option RequestObservation → List (Effect F)
    unfolding reject serve_known
    serve_inspected e r body none = reject e r 400 outcome_rejected (codes "invalid_model")
    serve_inspected e r body (some o) =
        serve_known e (record r { stream = o.stream }) body (requests.lookup_model o.model)

    unfoldable pub serve_read : Exchange F → RequestRecord F → BodyRead → List (Effect F)
    unfolding complete_request reject serve_inspected
    serve_read e r (unreadable canceled) =
        if canceled
        then complete_request e (record r { outcome = outcome_canceled }) none none
        else reject e r 400 outcome_rejected (codes "invalid_body")
    serve_read e r (bytes body) =
        if ltb max_request_bytes (length body)
        then reject e r 413 outcome_rejected (codes "request_too_large")
        else serve_inspected e r body (requests.inspect body)

    -- `chat`, and its part between `Track` and the deferred `Untrack`
    unfoldable pub chat_body : Exchange F → List (Effect F)
    unfolding reject serve_read
    chat_body e =
        if not e.accepting
        then reject e (initial_record e) 503 outcome_rejected (codes "gateway_shutting_down")
        else serve_read e (initial_record e) e.body

    unfoldable pub chat : Exchange F → List (Effect F)
    unfolding chat_body
    chat e = tracks (initial_record e) (codes "receiving") ∷ (chat_body e ++ untracks e.id ∷ [])
