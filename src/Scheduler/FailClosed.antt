-- ===== src/Scheduler/FailClosed.antt =====
-- The scheduler behind a failed cleanup.
use paracetamol.Base.{
  ℕ, true, false, none, some, List, [], ◌∷◌, ◌≡◌, refl, ◌∙◌, ◌≢◌, ◌⊎◌, arith, if◌then◌else◌, suc,
}
use paracetamol.Scheduler.State.{
  Err, Waiter, Kind, starts, stops, OperationResult, Config, Env, Loop, Event, requests, cancels,
  releases, failures, results, statuses, shutdown, is_cleanup, Effect, granted, refused, launched,
  canceled, start_failed, stop_failed,
}
use paracetamol.Scheduler.Progress.{progress, prune, progress_running, refuse_all, refuse_each}
use paracetamol.Scheduler.Receive.{
  receive, receive_request, receive_release, receive_failure, receive_result, remove_waiter,
  dispatch, stopped, started, start_fails, keep_uncertain,
}
use paracetamol.Scheduler.Events.{CanSend, flight_of}
use paracetamol.Scheduler.Invariant.{Inv}
use paracetamol.Scheduler.Safety.{Reach, Reach-Inv}
use paracetamol.Scheduler.Runs.{Rounds, here, another}
use paracetamol.Scheduler.{round}

-- how many leases were handed out and operations launched so far
abbrev pub works : List Effect → ℕ
works [] = 0
works (granted w l u ∷ out) = suc (works out)
works (launched f ∷ out) = suc (works out)
works (_ ∷ out) = works out

works-refuse_each :
    (e : Err) (ws : List Waiter) (out : List Effect) → works (refuse_each e ws out) ≡ works out
unfolding refuse_each
works-refuse_each e [] out = refl
works-refuse_each e (w ∷ ws) out = works-refuse_each e ws (refused w e ∷ out)

pub record IsFailClosed (e : Err) (r : Loop) : Type 0 where
  pub failure : r.cleanup_error ≡ some e
  pub not_shutting : r.shutting ≡ false
  pub still : r.operation ≡ false
  pub nothing_flies : r.flight ≡ none
  pub nobody_waits : r.queue ≡ []

abbrev pub NotShutdown : Event → Type 0
NotShutdown e = (reply : ℕ) → e ≢ shutdown reply

progress-IsFailClosed :
    (c : Config) (env : Env) {e : Err} {r : Loop} → IsFailClosed e r → progress c env r ≡ r
unfolding progress prune progress_running
progress-IsFailClosed c env {e} {r} h = ground arith

abbrev Stays : Err → Loop → Loop → Type 0
Stays e r q = IsFailClosed e q × (works q.out ≡ works r.out)

receive-Stays :
    (c : Config) (ev : Event) {e : Err} {r : Loop}
    → IsFailClosed e r
    → CanSend r ev
    → NotShutdown ev
    → Stays e r (receive c ev r)
unfolding receive receive_request receive_release receive_failure remove_waiter
receive-Stays c (requests w) h can ok = ground arith
receive-Stays c (cancels id) {e} {r} h can ok = ground arith
receive-Stays c (releases l) h can ok = ground arith
receive-Stays c (failures l x) h can ok = ground arith
receive-Stays c (results res) h can ok = ground arith
receive-Stays c (statuses reply) h can ok = ground arith
receive-Stays c (shutdown reply) h can ok = absurd (ok reply refl)

round-Stays :
    (c : Config) (env : Env) (ev : Event) {e : Err} {r : Loop}
    → IsFailClosed e r
    → r.closed ≡ false
    → CanSend (progress c env r) ev
    → NotShutdown ev
    → Stays e r (round c env ev r)
unfolding round
round-Stays c env ev {e} {r} h o can ok =
    rw (progress-IsFailClosed c env h)
      (simp o (receive-Stays c ev h (rw (progress-IsFailClosed c env h) at can) ok))

Rounds-Stays :
    {c : Config} {e : Err} {r q : Loop} {n : ℕ}
    → IsFailClosed e r
    → Rounds c NotShutdown r n q
    → Stays e r q
Rounds-Stays h here = (h, refl)
Rounds-Stays {c} h (another rest o env ev can ok) =
    let (h', w) = Rounds-Stays h rest in
    let (h'', w') = round-Stays c env ev h' o can ok in (h'', w' ∙ w)

abbrev pub uncertain : Kind → ℕ → Err → Err
uncertain starts a e = start_failed a e
uncertain stops a e = stop_failed a e

-- the result of a failed stop, or of a failed start whose cleanup failed too
abbrev pub LeavesUncertain : OperationResult → Err → Type 0
LeavesUncertain res e =
    (res.err ≡ some e) × ((res.kind ≡ stops) ⊎ ((res.kind ≡ starts) × (is_cleanup e ≡ true)))

dispatch-IsFailClosed :
    (k : Kind) (res : OperationResult) {e : Err} (r : Loop)
    → res.err ≡ some e
    → (k ≡ stops) ⊎ ((k ≡ starts) × (is_cleanup e ≡ true))
    → r.shutting ≡ false
    → r.operation ≡ false
    → r.flight ≡ none
    → Stays (uncertain k r.current e) r (dispatch k res r)
      × ((dispatch k res r).current ≡ r.current)
unfolding dispatch stopped started start_fails keep_uncertain refuse_all
dispatch-IsFailClosed starts res {e} r x k s o f =
    ground (arith, works-refuse_each (start_failed r.current e) r.queue r.out)
dispatch-IsFailClosed stops res {e} r x k s o f =
    ground (arith, works-refuse_each (stop_failed r.current e) r.queue r.out)

receive_result-IsFailClosed :
    (res : OperationResult) (e : Err) {c : Config} {r : Loop}
    → Inv c r
    → r.shutting ≡ false
    → r.flight ≡ some (flight_of res)
    → LeavesUncertain res e
    → Stays (uncertain res.kind r.current e) r (receive_result res r)
      × ((receive_result res r).current ≡ r.current)
unfolding receive_result
receive_result-IsFailClosed res e {c} {r} v s f x =
    let landed : Loop = record r {
      operation = false;
      cancelable = false;
      flight = none;
      out = if r.cancelable then canceled ∷ r.out else r.out;
    } in
    ground (arith, v, dispatch-IsFailClosed res.kind res {e = e} landed)

-- After a failed stop, or a failed start whose cleanup failed too, and until a shutdown is asked
-- for, no run of the scheduler launches an operation or hands out a lease, nobody is queued, and
-- the error that tells of it is kept.
pub failed_cleanup_fails_closed :
    {c : Config} {r q : Loop} {n : ℕ} (res : OperationResult) (e : Err)
    → Reach c r
    → r.shutting ≡ false
    → r.flight ≡ some (flight_of res)
    → LeavesUncertain res e
    → Rounds c NotShutdown (receive_result res r) n q
    → (works q.out ≡ works r.out)
      × (q.queue ≡ [])
      × (q.cleanup_error ≡ some (uncertain res.kind r.current e))
failed_cleanup_fails_closed res e h s f x run =
    let ((closed, same), cur) = receive_result-IsFailClosed res e (Reach-Inv h) s f x in
    let (after, w) = Rounds-Stays closed run in (w ∙ same, after.nobody_waits, after.failure)
