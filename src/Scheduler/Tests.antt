-- ===== src/Scheduler/Tests.antt =====
-- Runs of the scheduler at concrete inputs, and the theorems applied to them.
use paracetamol.Base.{
  ℕ, ◌≤◌, ◌+◌, true, false, Option, none, some, List, [], ◌∷◌, ◌≡◌, refl, ◌≢◌, ◌⊎◌, inr, arith,
  length, All,
}
use paracetamol.Scheduler.State.{
  Waiter, LeaseEvent, Kind, starts, stops, Flight, OperationResult, Config, Env, Loop, Err, backend,
  Event, requests, releases, results, statuses, shutdown, initial, is_cleanup,
}
use paracetamol.Scheduler.Progress.{progress, grant}
use paracetamol.Scheduler.Receive.{receive, receive_result}
use paracetamol.Scheduler.Events.{CanSend}
use paracetamol.Scheduler.Invariant.{IsCurrent}
use paracetamol.Scheduler.Safety.{
  Reach, begin, next, operation_holds_no_lease, leases_within_limit, Launches, progress-Launches,
}
use paracetamol.Scheduler.Order.{Serves, grant-Serves}
use paracetamol.Scheduler.Runs.{here, another}
use paracetamol.Scheduler.FailClosed.{works, NotShutdown, failed_cleanup_fails_closed}
use paracetamol.Scheduler.Shutdown.{IsCompletion, shutdown_terminates, shutdown_no_deadlock}
use paracetamol.Scheduler.Grants.{IsSound, out-IsSound}
use paracetamol.Scheduler.Client.{
  Call, release, fail, Lease, calls, releases_sent, failures_sent, event_of, lease_reports_once,
}
use paracetamol.Scheduler.{round}

abbrev config : Config
config = record { queue_max = 2; limits = (1, 1) ∷ [] }

abbrev alive : Env
alive = record { is_done = λ id. false; takes = λ id. true }

abbrev first : Waiter
first = record { id = 1; allocation = 1 }

abbrev second : Waiter
second = record { id = 2; allocation = 1 }

abbrev flight : Kind → Flight
flight k = record { kind = k; allocation = 1; generation = 1 }

abbrev outcome : Kind → Option ℕ → Option Err → OperationResult
outcome k u e = record { kind = k; allocation = 1; generation = 1; upstream = u; err = e }

-- one request is queued; then the start runs, and a second request is queued
abbrev queued : Loop
queued = round config alive (requests first) initial

abbrev loading : Loop
loading = round config alive (requests second) queued

-- the start has succeeded; then one lease is out, since the limit is 1
abbrev loaded : Loop
loaded = round config alive (results (outcome starts (some 80) none)) loading

abbrev serving : Loop
serving = round config alive (statuses 0) loaded

queued-Reach : Reach config queued
unfolding initial
queued-Reach = next begin refl alive (requests first) (omega arith)

loading-Reach : Reach config loading
unfolding round progress receive initial
loading-Reach = next queued-Reach refl alive (requests second) (omega arith)

loaded-Reach : Reach config loaded
unfolding round progress receive initial
loaded-Reach = next loading-Reach refl alive (results (outcome starts (some 80) none)) refl

serving-Reach : Reach config serving
unfolding round progress receive initial
serving-Reach = next loaded-Reach refl alive (statuses 0) tt

serving_state : (serving.active ≡ 1) × (length serving.queue ≡ 1) × (length serving.held ≡ 1)
unfolding round progress receive initial
serving_state = (refl, refl, refl)

operation_holds_no_lease_example : (loading.held ≡ []) × (loading.active ≡ 0)
unfolding round progress receive initial
operation_holds_no_lease_example = operation_holds_no_lease (flight starts) loading-Reach refl

leases_within_limit_example :
    (length serving.held ≡ serving.active)
    × All (IsCurrent serving.current serving.generation) serving.held
    × (◌≢◌ {A = ℕ} 1 0 → length serving.held ≤ 1)
unfolding round progress receive initial
leases_within_limit_example = leases_within_limit serving-Reach

progress-Launches_example :
    (queued.flight ≡ some (flight starts)) ⊎ Launches config alive queued (flight starts)
unfolding round progress receive initial
progress-Launches_example = progress-Launches alive (flight starts) queued-Reach refl

out-IsSound_example : All IsSound serving.out
out-IsSound_example = out-IsSound serving-Reach

grant-Serves_example :
    Serves alive 1 (first ∷ second ∷ []) loaded (grant alive 1 (first ∷ second ∷ []) loaded)
grant-Serves_example = grant-Serves alive 1 (first ∷ second ∷ []) loaded

-- a start that failed, and whose cleanup failed too
abbrev uncertain_start : OperationResult
uncertain_start = outcome starts none (some (Err.backend_cleanup 7))

abbrev stuck : Loop
stuck = receive_result uncertain_start loading

not_shutdown : NotShutdown (statuses 3)
not_shutdown reply e = cc

failed_cleanup_fails_closed_example :
    (works (round config alive (statuses 3) stuck).out ≡ works loading.out)
    × ((round config alive (statuses 3) stuck).queue ≡ [])
    × ((round config alive (statuses 3) stuck).cleanup_error
        ≡ some (Err.start_failed loading.current (Err.backend_cleanup 7)))
unfolding round progress receive initial is_cleanup
failed_cleanup_fails_closed_example =
    failed_cleanup_fails_closed uncertain_start (Err.backend_cleanup 7) loading-Reach refl refl
      (refl, inr (refl, refl)) (another here refl alive (statuses 3) tt not_shutdown)

abbrev ending : Loop
ending = round config alive (shutdown 9) serving

ending-Reach : Reach config ending
unfolding round progress receive initial
ending-Reach = next serving-Reach refl alive (shutdown 9) tt

abbrev lease : LeaseEvent
lease = record { allocation = 1; generation = 1 }

abbrev released : Loop
released = round config alive (releases lease) ending

abbrev ended : Loop
ended = round config alive (results (outcome stops none none)) released

shutdown_terminates_example :
    (2 ≤ ending.active + 4) × (ended.closed ≡ false → 2 ≤ ending.active + 3)
unfolding round progress receive initial
shutdown_terminates_example = shutdown_terminates ending-Reach refl (
    another (another here refl alive (releases lease) refl tt) refl alive
      (results (outcome stops none none)) refl tt)

-- one more round, and the goroutine has returned
ended_closes : (round config alive (statuses 0) ended).closed ≡ true
unfolding round progress receive initial
ended_closes = refl

shutdown_no_deadlock_example :
    ((progress config alive ending).closed ≡ true)
    ⊎ ((e : Event) × IsCompletion e × CanSend (progress config alive ending) e)
unfolding round progress receive initial
shutdown_no_deadlock_example = shutdown_no_deadlock alive ending-Reach refl

abbrev clumsy : List Call
clumsy = fail (some (backend 4)) ∷ release ∷ release ∷ fail (some (backend 5)) ∷ []

abbrev held : Lease
held = record { event = lease; released = false; failed = false }

lease_reports_once_example :
    (releases_sent (calls clumsy held).1 ≡ 1)
    × (failures_sent (calls clumsy held).1 ≡ 1)
    × All (λ s. event_of s ≡ lease) (calls clumsy held).1
lease_reports_once_example = lease_reports_once clumsy held
