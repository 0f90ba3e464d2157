-- ===== src/Scheduler/Receive.antt =====
-- The cases of the `select` of `run` in internal/gateway/scheduler.go.
use paracetamol.Base.{
  ℕ, ◌-◌, Bool, true, false, not, ◌&&◌, ◌||◌, Option, none, some, List, [], ◌∷◌, ◌++◌, ltb, leb,
  ◌==◌, if◌then◌else◌, is_some, length, filter,
}
use paracetamol.Scheduler.State.{
  unowned, Url, unloaded, ready, failed, Err, queue_full, shutting_down, no_upstream, start_failed,
  stop_failed, is_cleanup, Waiter, LeaseEvent, Kind, starts, stops, OperationResult,
  SchedulerStatus, refused, canceled, reported, Config, Loop, Event, requests, cancels, releases,
  failures, results, statuses, shutdown,
}
use paracetamol.Scheduler.Progress.{refuse_each, refuse_all, finish}

-- `case request := <-scheduler.requests`
unfoldable pub receive_request : Config → Waiter → Loop → Loop
receive_request c w r =
    if r.shutting
    then record r { out = refused w shutting_down ∷ r.out }
    else elim r.cleanup_error [
      | some e ↦ record r { out = refused w e ∷ r.out }
      | none ↦
          if leb c.queue_max (length r.queue)
          then record r { out = refused w queue_full ∷ r.out }
          else record r { queue = r.queue ++ w ∷ [] }
    ]

-- `case id := <-scheduler.cancels`: the first waiter with the identifier
unfoldable pub remove_waiter : ℕ → List Waiter → List Waiter
remove_waiter id [] = []
remove_waiter id (w ∷ ws) = if w.id == id then ws else w ∷ remove_waiter id ws

abbrev pub same_lease : LeaseEvent → LeaseEvent → Bool
same_lease l m = l.allocation == m.allocation && l.generation == m.generation

-- the client's lease is gone from those that are held
unfoldable pub drop_lease : LeaseEvent → List LeaseEvent → List LeaseEvent
drop_lease l [] = []
drop_lease l (m ∷ ms) = if same_lease l m then ms else m ∷ drop_lease l ms

-- `case event := <-scheduler.releases`
unfoldable pub receive_release : LeaseEvent → Loop → Loop
unfolding drop_lease
receive_release l before =
    let r = record before { held = drop_lease l before.held } in
    if l.allocation == r.current && l.generation == r.generation && ltb 0 r.active
    then record r { active = r.active - 1 }
    else r

-- `case event := <-scheduler.failures`
unfoldable pub receive_failure : LeaseEvent → Err → Loop → Loop
receive_failure l e r =
    if l.allocation == r.current && l.generation == r.generation && not (is_some r.cleanup_error)
    then record r { state = failed; last_error = some e }
    else r

-- a failed start: cleanup failed too, and the allocation is kept
unfoldable pub keep_uncertain : Err → Loop → Loop
unfolding refuse_all
keep_uncertain e r =
    let e' = start_failed r.current e in
    refuse_all e' (record r { state = failed; cleanup_error = some e' })

-- a failed start that left no backend: only its own waiters fail
unfoldable pub abandon : Err → Loop → Loop
unfolding refuse_each
abandon e r = record r {
  current = unowned;
  upstream = none;
  state = unloaded;
  queue = filter (λ w. not (w.allocation == r.current)) r.queue;
  out =
      refuse_each (start_failed r.current e) (filter (λ w. w.allocation == r.current) r.queue)
        r.out;
}

unfoldable pub start_fails : Err → Loop → Loop
unfolding keep_uncertain abandon is_cleanup
start_fails e before =
    let r = record before { last_error = some e } in
    if is_cleanup e then keep_uncertain e r else abandon e r

-- `case "start"`
unfoldable pub started : Option Err → Option Url → Loop → Loop
unfolding start_fails
started (some e) u r = start_fails e r
started none none r = start_fails no_upstream r
started none (some u) r = record r { upstream = some u; state = ready; last_error = none }

-- `case "stop"`
unfoldable pub stopped : Option Err → Loop → Loop
unfolding refuse_all finish
stopped (some e) before =
    let e' = stop_failed before.current e in
    let r =
      refuse_all e'
        (record before { state = failed; last_error = some e; cleanup_error = some e' }) in
    if r.shutting then finish (some e) r else r
stopped none r = record r {
  current = unowned;
  upstream = none;
  state = unloaded;
  cleanup_error = none;
}

unfoldable pub dispatch : Kind → OperationResult → Loop → Loop
unfolding started stopped
dispatch starts res r = started res.err res.upstream r
dispatch stops res r = stopped res.err r

-- `case result := <-scheduler.results`; the goroutine that sent it has ended
unfoldable pub receive_result : OperationResult → Loop → Loop
unfolding dispatch
receive_result res before =
    let r = record before {
      operation = false;
      cancelable = false;
      flight = none;
      out = if before.cancelable then canceled ∷ before.out else before.out;
    } in
    if not (res.generation == r.generation) || not (res.allocation == r.current)
    then r
    else dispatch res.kind res r

-- `case request := <-scheduler.statuses`
unfoldable pub status_of : Loop → SchedulerStatus
status_of r = record {
  allocation = r.current;
  state = r.state;
  active_requests = r.active;
  queued_requests = length r.queue;
  last_error = r.last_error;
  upstream = r.upstream;
}

-- `case request := <-scheduler.shutdown`
unfoldable pub receive_shutdown : ℕ → Loop → Loop
receive_shutdown reply before =
    let r = record before { replies = before.replies ++ reply ∷ [] } in
    if r.shutting
    then r
    else record r { shutting = true; out = if r.cancelable then canceled ∷ r.out else r.out }

unfoldable pub receive : Config → Event → Loop → Loop
unfolding receive_request remove_waiter receive_release receive_failure receive_result status_of
    receive_shutdown
receive c (requests w) r = receive_request c w r
receive c (cancels id) r = record r { queue = remove_waiter id r.queue }
receive c (releases l) r = receive_release l r
receive c (failures l e) r = receive_failure l e r
receive c (results res) r = receive_result res r
receive c (statuses reply) r = record r { out = reported reply (status_of r) ∷ r.out }
receive c (shutdown reply) r = receive_shutdown reply r
