-- ===== src/Server/Ordered.antt =====
-- Every path of the chat handler against the protocol.
use paracetamol.Base.{
  ℕ, Bool, true, false, not, ◌&&◌, Option, none, some, List, [], ◌∷◌, ◌++◌, ◌≡◌, refl, ltb,
  if◌then◌else◌, sym, ap, subst, ◌∙◌, length,
}
use paracetamol.Text.{Text, codes, equal}
use paracetamol.Ledger.Maps.{equal_refl}
use paracetamol.Ledger.Usage.{RequestRecord, RequestOutcome, outcome_rejected, outcome_canceled}
use paracetamol.Scheduler.State.{Err}
use paracetamol.Observer.State.{ResponseObservation}
use paracetamol.Server.Exchange.{
  max_request_bytes, RegistryModel, RequestObservation, BodyRead, unreadable, bytes, Acquired, gone,
  refused, granted, Exchange, Requests, Effect, untracks, adds, releases, proxies,
}
use paracetamol.Server.Chat.{
  initial_record, ended, persisted, completed_record, complete_request, reject, refused_outcome,
  refuse, observed, proxied_record, disconnection, abortion, panic, serve_leased, serve_acquired,
  serve_rewritten, serve_known, serve_inspected, serve_read, chat_body, chat,
}
use paracetamol.Server.Protocol.{
  Phase, absent, receiving, answered, waiting, leased, upstream, serving, closed, misused,
  accounted, step, follow, follow_then,
}

module _ {F : Type 0} (requests : Requests) (e : Exchange F) where
  abbrev known : Option RegistryModel → Bool
  known none = false
  known (some m) = true

  follow-persisted :
      (id : Text) (held : Bool) (found : Option RegistryModel) (r : RequestRecord F)
      → equal r.id id ≡ true
      → follow id (accounted held false false) (persisted requests found r)
        ≡ accounted held (known found) false
  unfolding follow step
  follow-persisted id held none r h = refl
  follow-persisted id held (some m) r h = rw h refl

  follow_complete :
      (id : Text) (phase : Phase) (held : Bool) (r : RequestRecord F) (s f : Option ℕ)
      → equal r.id id ≡ true
      → ((x : RequestRecord F)
          → equal x.id id ≡ true
          → step id phase (adds x) ≡ accounted held false false)
      → follow id phase (complete_request requests e r s f)
        ≡ accounted held (known (requests.lookup_model r.model)) false
  unfolding follow complete_request completed_record
  follow_complete id phase held r s f h k =
      ap
        (λ p.
          follow id p
            (persisted requests (requests.lookup_model r.model) (completed_record e r s f)))
        (k (completed_record e r s f) h)
      ∙ follow-persisted id held (requests.lookup_model r.model) (completed_record e r s f) h

  -- The request has its one record and no lease behind the effects.
  abbrev Settled : Text → Phase → List (Effect F) → Type 0
  Settled id phase effects =
      (stored : Bool) × (aborted : Bool) × (follow id phase effects
        ≡ accounted false stored aborted)

  complete-Settled :
      (id : Text) (phase : Phase) (r : RequestRecord F) (s f : Option ℕ)
      → equal r.id id ≡ true
      → ((x : RequestRecord F)
          → equal x.id id ≡ true
          → step id phase (adds x) ≡ accounted false false false)
      → Settled id phase (complete_request requests e r s f)
  complete-Settled id phase r s f h k =
      (known (requests.lookup_model r.model), false, follow_complete id phase false r s f h k)

  adds_answered :
      (id : Text) (x : RequestRecord F)
      → equal x.id id ≡ true
      → step id answered (adds x) ≡ accounted false false false
  unfolding step
  adds_answered id x h = rw h refl

  reject-Settled :
      (id : Text) (r : RequestRecord F) (status : ℕ) (outcome : RequestOutcome) (code : Text)
      → equal r.id id ≡ true
      → Settled id receiving (reject requests e r status outcome code)
  unfolding reject follow step
  reject-Settled id r status outcome code h =
      complete-Settled id answered (ended r outcome status) none none h (adds_answered id)

  refuse-Settled :
      (id : Text) (r : RequestRecord F) (error : Err)
      → equal r.id id ≡ true
      → Settled id waiting (refuse requests e r error)
  unfolding refuse follow step
  refuse-Settled id r error h =
      complete-Settled id answered (ended r (refused_outcome error) 503) (some e.wait_started)
        (some e.wait_finished) h (adds_answered id)

  follow-disconnection :
      (id : Text) (b : Bool) → follow id serving (disconnection {F = F} b) ≡ serving
  unfolding follow step
  follow-disconnection id true = refl
  follow-disconnection id false = refl

  follow-abortion : (id : Text) (b : Bool) → follow id serving (abortion {F = F} b) ≡ serving
  unfolding follow step
  follow-abortion id true = refl
  follow-abortion id false = refl

  follow-panic :
      (id : Text) (stored b : Bool)
      → follow id (accounted true stored false) (panic {F = F} b ++ releases ∷ [])
        ≡ accounted false stored b
  unfolding follow step
  follow-panic id stored true = refl
  follow-panic id stored false = refl

  observed-id :
      (r : RequestRecord F) (o : Option (ResponseObservation F)) → (observed e r o).id ≡ r.id
  observed-id r none = refl
  observed-id r (some o) = refl

  follow-serving :
      (id : Text) (r : RequestRecord F)
      → equal r.id id ≡ true
      → follow id serving (
          complete_request requests e
            (proxied_record e r)
            (some e.wait_started)
            (some e.wait_finished))
        ≡ accounted true (known (requests.lookup_model (proxied_record e r).model)) false
  unfolding proxied_record step
  follow-serving id r h =
      follow_complete id serving true (proxied_record e r) (some e.wait_started)
        (some e.wait_finished) (ap (λ t. equal t id) (observed-id r e.proxied.observation) ∙ h)
        (λ x k. rw k refl)

  leased-Settled :
      (id : Text) (r : RequestRecord F) (body : Text)
      → equal r.id id ≡ true
      → Settled id leased (serve_leased requests e r body)
  unfolding serve_leased follow step equal
  leased-Settled id r body h =
      let p = e.proxied in
      let last = panic {F = F} p.aborted ++ releases ∷ [] in
      let done =
        complete_request requests e (proxied_record e r) (some e.wait_started)
          (some e.wait_finished) in
      let lost = abortion {F = F} (p.aborted && not p.canceled_then) in
      let stored = known (requests.lookup_model (proxied_record e r).model) in
      (
        stored,
        p.aborted,
        ap
              (λ q.
                follow id (step {F = F} id q (proxies body))
                  (disconnection p.disconnected ++ (lost ++ (done ++ last))))
              (ap (λ b. if b then upstream else misused) h)
            ∙ follow_then id serving (disconnection p.disconnected) (lost ++ (done ++ last))
                (follow-disconnection id p.disconnected)
                (follow_then id serving lost (done ++ last)
                  (follow-abortion id (p.aborted && not p.canceled_then))
                  (follow_then id serving done last (follow-serving id r h)
                    (follow-panic id stored p.aborted))),
      )

  acquired-Settled :
      (id : Text) (r : RequestRecord F) (model : RegistryModel) (body : Text) (acquired : Acquired)
      → equal r.id id ≡ true
      → Settled id waiting (serve_acquired requests e r model body acquired)
  unfolding serve_acquired follow step
  acquired-Settled id r model body gone h =
      complete-Settled id waiting (record r { outcome = outcome_canceled }) (some e.wait_started)
        (some e.wait_finished) h (λ x k. rw k refl)
  acquired-Settled id r model body (refused error) h = refuse-Settled id r error h
  acquired-Settled id r model body granted h = leased-Settled id r body h

  rewritten-Settled :
      (id : Text) (r : RequestRecord F) (model : RegistryModel) (body : Option Text)
      → equal r.id id ≡ true
      → Settled id receiving (serve_rewritten requests e r model body)
  unfolding serve_rewritten reject follow step equal
  rewritten-Settled id r model none h =
      complete-Settled id answered (ended r outcome_rejected 400) none none h (adds_answered id)
  rewritten-Settled id r model (some body) h =
      subst (λ p. Settled id p (serve_acquired requests e r model body e.acquired))
        (sym (ap (λ b. if b then waiting else misused) h))
        (acquired-Settled id r model body e.acquired h)

  if-Settled :
      (id : Text) (phase : Phase) (b : Bool) (xs ys : List (Effect F))
      → Settled id phase xs
      → Settled id phase ys
      → Settled id phase (if b then xs else ys)
  if-Settled id phase true xs ys h k = h
  if-Settled id phase false xs ys h k = k

  known-Settled :
      (id : Text) (r : RequestRecord F) (body : Text) (found : Option RegistryModel)
      → equal r.id id ≡ true
      → Settled id receiving (serve_known requests e r body found)
  unfolding serve_known
  known-Settled id r body none h = reject-Settled id r 404 outcome_rejected _ h
  known-Settled id r body (some model) h =
      let named = record r { model = model.id; application = model.application } in
      if-Settled id receiving (not (requests.valid_media body model)) _ _
        (reject-Settled id named 400 outcome_rejected _ h)
        (rewritten-Settled id named model (requests.with_defaults body model) h)

  inspected-Settled :
      (id : Text) (r : RequestRecord F) (body : Text) (found : Option RequestObservation)
      → equal r.id id ≡ true
      → Settled id receiving (serve_inspected requests e r body found)
  unfolding serve_inspected
  inspected-Settled id r body none h = reject-Settled id r 400 outcome_rejected _ h
  inspected-Settled id r body (some o) h =
      known-Settled id (record r { stream = o.stream }) body (requests.lookup_model o.model) h

  read-Settled :
      (id : Text) (r : RequestRecord F) (body : BodyRead)
      → equal r.id id ≡ true
      → Settled id receiving (serve_read requests e r body)
  unfolding serve_read step
  read-Settled id r (unreadable canceled) h =
      if-Settled id receiving canceled _ _
        (complete-Settled id receiving (record r { outcome = outcome_canceled }) none none h
          (λ x k. rw k refl))
        (reject-Settled id r 400 outcome_rejected _ h)
  read-Settled id r (bytes body) h =
      if-Settled id receiving (ltb max_request_bytes (length body)) _ _
        (reject-Settled id r 413 outcome_rejected _ h)
        (inspected-Settled id r body (requests.inspect body) h)

  Settled-closed :
      (id : Text) (phase : Phase) (xs : List (Effect F))
      → Settled id phase xs
      → follow id phase (xs ++ untracks id ∷ []) ≡ closed
  unfolding follow step
  Settled-closed id phase xs (stored, aborted, p) =
      follow_then id phase xs (untracks id ∷ []) p
        (ap (λ b. if b then closed else misused) (equal_refl id))

  -- Whatever the request, the body, the scheduler and the backend come to, what the handler does
  -- follows the protocol to its end: the request is tracked, one record is added for it, at most one
  -- is given to the statistics, behind that one, the lease, if one is granted, is released once, and
  -- the request is untracked; a panic comes after the accounting.
  pub chat-follow : follow e.id absent (chat requests e) ≡ closed
  unfolding chat follow step equal chat_body
  chat-follow =
      ap
        (λ b.
          follow e.id (if b then receiving else misused)
            (chat_body requests e ++ untracks e.id ∷ []))
        (equal_refl e.id)
      ∙ Settled-closed e.id receiving (chat_body requests e) (
          if-Settled e.id receiving (not e.accepting) _ _
            (reject-Settled e.id (initial_record e) 503 outcome_rejected
              (codes "gateway_shutting_down") (equal_refl e.id))
            (read-Settled e.id (initial_record e) e.body (equal_refl e.id)))
