-- ===== src/Scheduler/Events.antt =====
-- The invariant through every case of the `select`, and through every run of the scheduler.
use paracetamol.Base.{
  ℕ, ◌+◌, ◌≤◌, Bool, true, false, not, ◌||◌, Option, none, some, List, [], ◌∷◌, ◌≡◌, refl, ◌≢◌,
  arith, ◌==◌, if◌then◌else◌, length, length-filter-le, length-append, All, All-append,
}
use paracetamol.Scheduler.State.{
  Allocation, unowned, Err, Waiter, LeaseEvent, Kind, starts, stops, Flight, OperationResult,
  Config, Loop, Event, requests, cancels, releases, failures, results, statuses, shutdown, Url,
  canceled, no_upstream,
}
use paracetamol.Scheduler.Receive.{
  receive_request, remove_waiter, same_lease, drop_lease, receive_release, receive_failure,
  start_fails, started, stopped, dispatch, receive_result, receive_shutdown, receive,
}
use paracetamol.Scheduler.Progress.{refuse_all, finish}
use paracetamol.Scheduler.Invariant.{Inv, length-eq-zero, IsNamed, IsCurrent, All-filter}

abbrev pub holds : LeaseEvent → List LeaseEvent → Bool
holds l [] = false
holds l (m ∷ ms) = same_lease l m || holds l ms

abbrev pub flight_of : OperationResult → Flight
flight_of res = record { kind = res.kind; allocation = res.allocation; generation = res.generation }

-- What the outside can send: `Acquire` lets no empty allocation through, a client releases a
-- lease that it holds and only once, and a result is that of the goroutine that runs.
abbrev pub CanSend : Loop → Event → Type 0
CanSend r (requests w) = w.allocation ≢ unowned
CanSend r (releases l) = holds l r.held ≡ true
CanSend r (results res) = r.flight ≡ some (flight_of res)
CanSend r (cancels id) = Unit
CanSend r (failures l e) = Unit
CanSend r (statuses reply) = Unit
CanSend r (shutdown reply) = Unit

length-remove_waiter-le : (id : ℕ) (ws : List Waiter) → length (remove_waiter id ws) ≤ length ws
unfolding remove_waiter
length-remove_waiter-le id [] = omega arith
length-remove_waiter-le id (w ∷ ws) = ground (arith, length-remove_waiter-le id ws)

remove_waiter-IsNamed :
    (id : ℕ) (ws : List Waiter) → All IsNamed ws → All IsNamed (remove_waiter id ws)
unfolding remove_waiter
remove_waiter-IsNamed id [] h = tt
remove_waiter-IsNamed id (w ∷ ws) h = ground (arith, remove_waiter-IsNamed id ws h.1)

-- A held lease is the current one, and dropping it leaves one less.
pub drop_lease_lem :
    (l : LeaseEvent) (a : Allocation) (g : ℕ) (ms : List LeaseEvent)
    → All (IsCurrent a g) ms
    → holds l ms ≡ true
    → IsCurrent a g l
      × All (IsCurrent a g) (drop_lease l ms)
      × (length (drop_lease l ms) + 1 ≡ length ms)
unfolding drop_lease
drop_lease_lem l a g [] h e = cc
drop_lease_lem l a g (m ∷ ms) h e = ground (arith, drop_lease_lem l a g ms h.1)

module _ {c : Config} {r : Loop} (v : Inv c r) where
  receive_request-Inv : (w : Waiter) → w.allocation ≢ unowned → Inv c (receive_request c w r)
  unfolding receive_request
  receive_request-Inv w named = ground (
    arith,
    length-append r.queue (w ∷ []),
    All-append IsNamed r.queue (w ∷ []) v.named (named, tt),
  )

  receive_release-Inv : (l : LeaseEvent) → holds l r.held ≡ true → Inv c (receive_release l r)
  unfolding receive_release
  receive_release-Inv l e =
      ground (arith, drop_lease_lem l r.current r.generation r.held v.held_current e)

  receive_failure-Inv : (l : LeaseEvent) (e : Err) → Inv c (receive_failure l e r)
  unfolding receive_failure
  receive_failure-Inv l e = ground arith

  receive_shutdown-Inv : (reply : ℕ) → Inv c (receive_shutdown reply r)
  unfolding receive_shutdown
  receive_shutdown-Inv reply = ground arith

  cancels-Inv : (id : ℕ) → Inv c (record r { queue = remove_waiter id r.queue })
  cancels-Inv id =
      ground (arith, length-remove_waiter-le id r.queue, remove_waiter-IsNamed id r.queue v.named)

-- The variables when a result has been taken in and before it is acted on.
record Landed (c : Config) (r : Loop) : Type 0 where
  bounded : length r.queue ≤ c.queue_max
  named : All IsNamed r.queue
  none_held : r.held ≡ []
  idle : r.active ≡ 0
  still : r.operation ≡ false
  nothing_flies : r.flight ≡ none
  owned : r.current ≢ unowned

abbrev land : Loop → Loop
land before = record before {
  operation = false;
  cancelable = false;
  flight = none;
  out = if before.cancelable then canceled ∷ before.out else before.out;
}

land-Landed : {c : Config} {r : Loop} (f : Flight) → Inv c r → r.flight ≡ some f → Landed c (land r)
land-Landed {c} {r} f v e = ground (arith, v, length-eq-zero r.held)

module _ {c : Config} {r : Loop} (l : Landed c r) where
  start_fails-Inv : (e : Err) → r.cleanup_error ≡ none → Inv c (start_fails e r)
  unfolding start_fails refuse_all
  start_fails-Inv e clean = ground (
    arith,
    length-filter-le (λ w. not (w.allocation == r.current)) r.queue,
    All-filter (λ w. not (w.allocation == r.current)) r.queue l.named,
  )

  started-Inv : (e : Option Err) (u : Option Url) → r.cleanup_error ≡ none → Inv c (started e u r)
  unfolding started
  started-Inv (some e) u clean = start_fails-Inv e clean
  started-Inv none none clean = start_fails-Inv no_upstream clean
  started-Inv none (some u) clean = ground (arith, l)

  stopped-Inv : (e : Option Err) → Inv c (stopped e r)
  unfolding stopped refuse_all finish
  stopped-Inv (some e) = ground (arith, l)
  stopped-Inv none = ground (arith, l)

  dispatch-Inv :
      (k : Kind) (res : OperationResult)
      → (k ≡ starts → r.cleanup_error ≡ none)
      → Inv c (dispatch k res r)
  unfolding dispatch
  dispatch-Inv starts res clean = started-Inv res.err res.upstream (clean refl)
  dispatch-Inv stops res clean = stopped-Inv res.err

receive_result-Inv :
    {c : Config} {r : Loop} (res : OperationResult)
    → Inv c r
    → r.flight ≡ some (flight_of res)
    → Inv c (receive_result res r)
unfolding receive_result
receive_result-Inv {c} {r} res v e =
    ground (arith, v, e, dispatch-Inv (land-Landed (flight_of res) v e) res.kind res)

-- Every event that the outside can send keeps the invariant.
pub receive-Inv :
    {c : Config} {r : Loop} (e : Event) → Inv c r → CanSend r e → Inv c (receive c e r)
unfolding receive
receive-Inv (requests w) v can = receive_request-Inv v w can
receive-Inv (cancels id) v can = cancels-Inv v id
receive-Inv (releases l) v can = receive_release-Inv v l can
receive-Inv (failures l e) v can = receive_failure-Inv v l e
receive-Inv (results res) v can = receive_result-Inv res v can
receive-Inv (statuses reply) v can = ground (arith, v)
receive-Inv (shutdown reply) v can = receive_shutdown-Inv v reply
