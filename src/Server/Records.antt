-- ===== src/Server/Records.antt =====
-- What the chat handler records of a request.
use paracetamol.Base.{
  ℕ, Bool, true, false, not, ◌&&◌, ◌||◌, Option, none, some, List, [], ◌∷◌, ◌++◌, ◌≡◌, refl, arith,
  ltb, leb, if◌then◌else◌, ap, ◌∙◌, length,
}
use paracetamol.Text.{Text, codes}
use paracetamol.Ledger.Usage.{RequestRecord, outcome_rejected, outcome_canceled}
use paracetamol.Scheduler.State.{Err}
use paracetamol.Observer.State.{ResponseObservation}
use paracetamol.Server.Exchange.{
  max_request_bytes, RegistryModel, RequestObservation, BodyRead, unreadable, bytes, Acquired, gone,
  refused, granted, Proxied, Exchange, Requests, Effect, untracks, adds, releases,
}
use paracetamol.Server.Chat.{
  initial_record, ended, persisted, completed_record, complete_request, reject, refused_outcome,
  refuse, observed, proxied_record, disconnection, abortion, panic, final_status, proxy_failed,
  proxied_outcome, serve_leased, serve_acquired, serve_rewritten, serve_known, serve_inspected,
  serve_read, chat_body, chat,
}
use paracetamol.Server.Shown.{
  added_by, any, collect, is_failure, is_success, serves, stored_by, with_identity,
}

module _ {F : Type 0} (requests : Requests) (e : Exchange F) where
  -- One record, with the identity of the request. Only a model of the registry goes to the
  -- statistics, under its own name. The outcome is a success exactly if a backend served the request
  -- and was not reported as failed, the client has not gone, and the status is not that of an error.
  unfoldable pub Recorded : RequestRecord F → List (Effect F) → Type 0
  Recorded r effects =
      (collect added_by effects ≡ r ∷ [])
      × (r.id ≡ e.id)
      × (collect stored_by effects ≡ with_identity (requests.lookup_model r.model) r)
      × (is_success r.outcome ≡ (
          any serves effects
          && not (any is_failure effects)
          && not e.proxied.canceled
          && not (leb 400 (final_status e.proxied))))

  served_counts :
      (r : RequestRecord F) (found : Option RegistryModel) (d l a : Bool)
      → let xs =
          disconnection d
          ++ (abortion l
              ++ ((adds r ∷ persisted requests found r) ++ (panic a ++ releases ∷ []))) in
        (collect added_by xs ≡ r ∷ [])
        × (collect stored_by xs ≡ with_identity found r)
        × (any serves xs ≡ false)
        × (any is_failure xs ≡ d || l)
  unfolding collect any
  served_counts r found d l a = ground (arith)

  plain_counts :
      (r : RequestRecord F) (found : Option RegistryModel)
      → let xs = adds r ∷ persisted requests found r in
        (collect added_by xs ≡ r ∷ [])
        × (collect stored_by xs ≡ with_identity found r)
        × (any serves xs ≡ false)
        × (any is_failure xs ≡ false)
  unfolding collect any
  plain_counts r none = (refl, refl, refl, refl)
  plain_counts r (some model) = (refl, refl, refl, refl)

  plain-Recorded :
      (r : RequestRecord F) (s f : Option ℕ)
      → r.id ≡ e.id
      → is_success r.outcome ≡ false
      → (r' : RequestRecord F) × Recorded r' (complete_request requests e r s f)
  unfolding complete_request completed_record Recorded
  plain-Recorded r s f h k =
      let r' = completed_record e r s f in
      let (a, b, c, d) = plain_counts r' (requests.lookup_model r'.model) in (r', (a, h, b, rw c k))

  refuse-Recorded :
      (r : RequestRecord F) (error : Err)
      → r.id ≡ e.id
      → (r' : RequestRecord F) × Recorded r' (refuse requests e r error)
  unfolding refuse Recorded collect any
  refuse-Recorded r error h =
      plain-Recorded (ended r (refused_outcome error) 503) (some e.wait_started)
        (some e.wait_finished) h (ground (arith))

  reject-Recorded :
      (r : RequestRecord F) (status : ℕ) (code : Text)
      → r.id ≡ e.id
      → (r' : RequestRecord F) × Recorded r' (reject requests e r status outcome_rejected code)
  unfolding reject Recorded collect any
  reject-Recorded r status code h =
      plain-Recorded (ended r outcome_rejected status) none none h refl

  observed-id :
      (r : RequestRecord F) (o : Option (ResponseObservation F)) → (observed e r o).id ≡ r.id
  observed-id r none = refl
  observed-id r (some o) = refl

  success_lem :
      (p : Proxied F) (failed : Bool)
      → failed ≡ proxy_failed p
      → is_success (proxied_outcome p)
        ≡ (not failed && not p.canceled && not (leb 400 (final_status p)))
  success_lem p failed h = rw h (ground (arith))

  leased-Recorded :
      (r : RequestRecord F) (body : Text)
      → r.id ≡ e.id
      → (r' : RequestRecord F) × Recorded r' (serve_leased requests e r body)
  unfolding serve_leased complete_request completed_record proxied_record Recorded collect any
  leased-Recorded r body h =
      let p = e.proxied in
      let r' =
        completed_record e (proxied_record e r) (some e.wait_started) (some e.wait_finished) in
      let (a, b, c, d) =
        served_counts r' (requests.lookup_model r'.model) p.disconnected
          (p.aborted && not p.canceled_then) p.aborted in
      (r', (a, observed-id r p.observation ∙ h, b, success_lem p _ d))

  acquired-Recorded :
      (r : RequestRecord F) (model : RegistryModel) (body : Text) (acquired : Acquired)
      → r.id ≡ e.id
      → (r' : RequestRecord F) × Recorded r' (serve_acquired requests e r model body acquired)
  unfolding serve_acquired Recorded collect any
  acquired-Recorded r model body gone h =
      plain-Recorded (record r { outcome = outcome_canceled }) (some e.wait_started)
        (some e.wait_finished) h refl
  acquired-Recorded r model body (refused error) h = refuse-Recorded r error h
  acquired-Recorded r model body granted h = leased-Recorded r body h

  rewritten-Recorded :
      (r : RequestRecord F) (model : RegistryModel) (body : Option Text)
      → r.id ≡ e.id
      → (r' : RequestRecord F) × Recorded r' (serve_rewritten requests e r model body)
  unfolding serve_rewritten Recorded collect any
  rewritten-Recorded r model none h = reject-Recorded r 400 (codes "invalid_reasoning_controls") h
  rewritten-Recorded r model (some body) h = acquired-Recorded r model body e.acquired h

  if-Recorded :
      (b : Bool) (xs ys : List (Effect F))
      → ((r : RequestRecord F) × Recorded r xs)
      → ((r : RequestRecord F) × Recorded r ys)
      → (r : RequestRecord F) × Recorded r (if b then xs else ys)
  if-Recorded true xs ys h k = h
  if-Recorded false xs ys h k = k

  known-Recorded :
      (r : RequestRecord F) (body : Text) (found : Option RegistryModel)
      → r.id ≡ e.id
      → (r' : RequestRecord F) × Recorded r' (serve_known requests e r body found)
  unfolding serve_known
  known-Recorded r body none h = reject-Recorded r 404 (codes "model_not_found") h
  known-Recorded r body (some model) h =
      let named = record r { model = model.id; application = model.application } in
      if-Recorded (not (requests.valid_media body model)) _ _
        (reject-Recorded named 400 (codes "invalid_media") h)
        (rewritten-Recorded named model (requests.with_defaults body model) h)

  inspected-Recorded :
      (r : RequestRecord F) (body : Text) (found : Option RequestObservation)
      → r.id ≡ e.id
      → (r' : RequestRecord F) × Recorded r' (serve_inspected requests e r body found)
  unfolding serve_inspected
  inspected-Recorded r body none h = reject-Recorded r 400 (codes "invalid_model") h
  inspected-Recorded r body (some o) h =
      known-Recorded (record r { stream = o.stream }) body (requests.lookup_model o.model) h

  read-Recorded :
      (r : RequestRecord F) (body : BodyRead)
      → r.id ≡ e.id
      → (r' : RequestRecord F) × Recorded r' (serve_read requests e r body)
  unfolding serve_read
  read-Recorded r (unreadable canceled) h =
      if-Recorded canceled _ _
        (plain-Recorded (record r { outcome = outcome_canceled }) none none h refl)
        (reject-Recorded r 400 (codes "invalid_body") h)
  read-Recorded r (bytes body) h =
      if-Recorded (ltb max_request_bytes (length body)) _ _
        (reject-Recorded r 413 (codes "request_too_large") h)
        (inspected-Recorded r body (requests.inspect body) h)

  collect-append :
      {B : Type 0} (f : Effect F → List B) (xs : List (Effect F)) (x : Effect F)
      → f x ≡ []
      → collect f (xs ++ x ∷ []) ≡ collect f xs
  unfolding collect
  collect-append f [] x h = rw h refl
  collect-append f (y ∷ xs) x h = ap (λ l. f y ++ l) (collect-append f xs x h)

  any-append :
      (f : Effect F → Bool) (xs : List (Effect F)) (x : Effect F)
      → f x ≡ false
      → any f (xs ++ x ∷ []) ≡ any f xs
  unfolding any
  any-append f [] x h = rw h refl
  any-append f (y ∷ xs) x h = ap (λ b. f y || b) (any-append f xs x h)

  untracked :
      (xs : List (Effect F))
      → ((r : RequestRecord F) × Recorded r xs)
      → (r : RequestRecord F) × Recorded r (xs ++ untracks e.id ∷ [])
  unfolding Recorded
  untracked xs (r, (a, h, b, c)) = (
    r,
    (
      collect-append added_by xs (untracks e.id) refl ∙ a,
      h,
      collect-append stored_by xs (untracks e.id) refl ∙ b,
      rw (any-append serves xs (untracks e.id) refl, any-append is_failure xs (untracks e.id) refl)
          c,
    ),
  )

  -- Whatever happens, the chat handler adds one record, with the identity of the request. Nothing
  -- but that record goes to the statistics, only if the registry has its model, and with the names of
  -- the registry. Its outcome is a success exactly if a backend served the request, the lease was not
  -- reported as failed, the client has not gone, and the status is below 400.
  pub chat-Recorded : (r : RequestRecord F) × Recorded r (chat requests e)
  unfolding chat chat_body Recorded collect any
  chat-Recorded = untracked (chat_body requests e) (
      if-Recorded (not e.accepting) _ _
        (reject-Recorded (initial_record e) 503 (codes "gateway_shutting_down") refl)
        (read-Recorded (initial_record e) e.body refl))
