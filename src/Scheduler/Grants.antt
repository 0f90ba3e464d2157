-- ===== src/Scheduler/Grants.antt =====
-- The log of what the scheduler hands out.
use paracetamol.Base.{
  ℕ, Bool, true, false, Option, none, some, List, [], ◌∷◌, ◌≡◌, ◌≢◌, inl, inr, arith, ltb, ◌==◌,
  ◌&&◌, ◌||◌, if◌then◌else◌, is_some, filter, All, Bool-cases,
}
use paracetamol.Scheduler.State.{
  unowned, Url, Err, Waiter, Kind, starts, stops, OperationResult, Config, Env, Loop, Event,
  requests, cancels, releases, failures, results, statuses, shutdown, initial, Effect, granted,
  refused, launched, canceled, answered, reported, ready, shutting_down, start_failed, no_upstream,
}
use paracetamol.Scheduler.Progress.{
  progress, prune, progress_shutdown, progress_running, refuse_all, refuse_each, answer_each, stop,
  finish, limit_of, start, start_head, serve, offer, grant,
}
use paracetamol.Scheduler.Receive.{
  receive, receive_request, receive_release, receive_failure, receive_result, receive_shutdown,
  dispatch, stopped, started, start_fails, keep_uncertain, abandon,
}
use paracetamol.Scheduler.Invariant.{Inv, IsNamed, prune-Inv}
use paracetamol.Scheduler.Safety.{Reach, begin, next, Reach-Inv}
use paracetamol.Scheduler.{round}

-- A lease was handed out for the allocation that its waiter asked for, at a backend that has an
-- address; an operation was launched for a named allocation.
abbrev pub IsSound : Effect → Type 0
IsSound (granted w l u) =
    (w.allocation ≡ l.allocation) × (l.allocation ≢ unowned) × (is_some u ≡ true)
IsSound (launched f) = f.allocation ≢ unowned
IsSound (refused w e) = Unit
IsSound canceled = Unit
IsSound (answered reply e) = Unit
IsSound (reported reply s) = Unit

abbrev Sound : Loop → Type 0
Sound r = All IsSound r.out

refuse_each-Sound :
    (e : Err) (ws : List Waiter) (out : List Effect)
    → All IsSound out
    → All IsSound (refuse_each e ws out)
unfolding refuse_each
refuse_each-Sound e [] out h = h
refuse_each-Sound e (w ∷ ws) out h = refuse_each-Sound e ws (refused w e ∷ out) (tt, h)

answer_each-Sound :
    (rs : List ℕ) (e : Option Err) (out : List Effect)
    → All IsSound out
    → All IsSound (answer_each rs e out)
unfolding answer_each
answer_each-Sound [] e out h = h
answer_each-Sound (x ∷ rs) e out h = answer_each-Sound rs e (answered x e ∷ out) (tt, h)

grant-Sound :
    (env : Env) (limit : ℕ) (ws : List Waiter) (r : Loop)
    → Sound r
    → r.current ≢ unowned
    → is_some r.upstream ≡ true
    → Sound (grant env limit ws r)
unfolding grant offer
grant-Sound env limit [] r h owned up = h
grant-Sound env limit (w ∷ ws) r h owned up =
    elim (Bool-cases (w.allocation == r.current && (limit == 0 || ltb r.active limit))) [
      | inl go ↦
          rw go
            (grant-Sound env limit ws (offer env w r) (ground arith) (ground arith) (ground arith))
      | inr halt ↦ rw halt h
    ]

serve-Sound :
    (c : Config) (env : Env) (ws : List Waiter) (r : Loop)
    → Sound r
    → r.current ≢ unowned
    → is_some r.upstream ≡ true
    → Sound (serve c env ws r)
unfolding serve
serve-Sound c env [] r h owned up = h
serve-Sound c env (w ∷ ws) r h owned up = ground (
  arith,
  owned,
  grant-Sound env (limit_of c.limits r.current) (w ∷ ws) (record r { state = ready }) h owned up,
)

start_head-Sound :
    (ws : List Waiter) (r : Loop) → Sound r → All IsNamed ws → Sound (start_head ws r)
unfolding start_head start
start_head-Sound [] r h named = h
start_head-Sound (w ∷ ws) r h named = (named.0, h)

progress_running-Sound :
    {c : Config} {r : Loop} (env : Env) → Inv c r → Sound r → Sound (progress_running c env r)
unfolding progress_running stop
progress_running-Sound {c} {r} env v h =
    ground (arith, v, start_head-Sound r.queue r h v.named, serve-Sound c env r.queue r h)

progress_shutdown-Sound : (r : Loop) → Sound r → Sound (progress_shutdown r)
unfolding progress_shutdown refuse_all stop finish
progress_shutdown-Sound r h =
    let q = refuse_each-Sound shutting_down r.queue r.out h in
    ground (arith, q, answer_each-Sound r.replies none (refuse_each shutting_down r.queue r.out) q)

progress-Sound : {c : Config} {r : Loop} (env : Env) → Inv c r → Sound r → Sound (progress c env r)
unfolding progress
progress-Sound {c} {r} env v h =
    let p = prune-Inv v env in
    let q : Loop = prune env r in
    let k : Sound q = unfold prune in h in
    ground (arith, progress_shutdown-Sound q k, progress_running-Sound env p k)

stopped-Sound : (e : Option Err) (r : Loop) → Sound r → Sound (stopped e r)
unfolding stopped refuse_all finish
stopped-Sound (some e) r h =
    let x = Err.stop_failed r.current e in
    let q = refuse_each-Sound x r.queue r.out h in
    ground (arith, q, answer_each-Sound r.replies (some e) (refuse_each x r.queue r.out) q)
stopped-Sound none r h = h

start_fails-Sound : (e : Err) (r : Loop) → Sound r → Sound (start_fails e r)
unfolding start_fails keep_uncertain abandon refuse_all
start_fails-Sound e r h =
    let x = start_failed r.current e in
    ground (
      arith,
      refuse_each-Sound x r.queue r.out h,
      refuse_each-Sound x (filter (λ w. w.allocation == r.current) r.queue) r.out h,
    )

started-Sound : (e : Option Err) (u : Option Url) (r : Loop) → Sound r → Sound (started e u r)
unfolding started
started-Sound (some e) u r h = start_fails-Sound e r h
started-Sound none none r h = start_fails-Sound no_upstream r h
started-Sound none (some u) r h = h

dispatch-Sound : (k : Kind) (res : OperationResult) (r : Loop) → Sound r → Sound (dispatch k res r)
unfolding dispatch
dispatch-Sound starts res r h = started-Sound res.err res.upstream r h
dispatch-Sound stops res r h = stopped-Sound res.err r h

-- the log after `operationCancel()`, if there is one to call
canceled-Sound :
    (b : Bool) (out : List Effect)
    → All IsSound out
    → All IsSound (if b then canceled ∷ out else out)
canceled-Sound true out h = (tt, h)
canceled-Sound false out h = h

receive-Sound : (c : Config) (e : Event) (r : Loop) → Sound r → Sound (receive c e r)
unfolding receive receive_request receive_release receive_failure receive_result receive_shutdown
receive-Sound c (requests w) r h = ground arith
receive-Sound c (cancels id) r h = h
receive-Sound c (releases l) r h = ground arith
receive-Sound c (failures l e) r h = ground arith
receive-Sound c (results res) r h =
    let landed : Loop = record r {
      operation = false;
      cancelable = false;
      flight = none;
      out = if r.cancelable then canceled ∷ r.out else r.out;
    } in
    let q = canceled-Sound r.cancelable r.out h in
    ground (arith, q, dispatch-Sound res.kind res landed q)
receive-Sound c (statuses reply) r h = (tt, h)
receive-Sound c (shutdown reply) r h = ground (arith, canceled-Sound r.cancelable r.out h)

round-Sound :
    {c : Config} {r : Loop} (env : Env) (e : Event) → Inv c r → Sound r → Sound (round c env e r)
unfolding round
round-Sound {c} {r} env e v h =
    let p = progress-Sound env v h in
    let q : Loop = progress c env r in
    elim (Bool-cases q.closed) [
      | inl done ↦ simp done p
      | inr more ↦ simp more (receive-Sound c e q p)
    ]

-- In every run, each lease that was handed out is for the allocation that its waiter asked for and
-- has the address of a backend, and each operation was launched for a named allocation.
pub out-IsSound : {c : Config} {r : Loop} → Reach c r → All IsSound r.out
out-IsSound begin = unfold initial in tt
out-IsSound (next h o env e can) = round-Sound env e (Reach-Inv h) (out-IsSound h)
