-- ===== src/Scheduler/Progress.antt =====
-- `progress` of `run` in internal/gateway/scheduler.go, with the closures that it calls. Each is
-- a function from the local variables to the local variables.
use paracetamol.Base.{
  ℕ, ◌+◌, ◌%◌, ◌^◌, Bool, true, false, not, ◌&&◌, ◌||◌, Option, none, some, List, [], ◌∷◌, ltb,
  ◌==◌, if◌then◌else◌, is_some, filter,
}
use paracetamol.Scheduler.State.{
  Allocation, unowned, AllocationState, unloaded, starting, ready, draining, stopping, failed, Err,
  shutting_down, Waiter, LeaseEvent, starts, stops, Flight, Effect, granted, refused, launched,
  answered, Config, Env, Loop,
}

-- `scheduler.limits[allocation]`
unfoldable pub limit_of : List (Allocation × ℕ) → Allocation → ℕ
limit_of [] a = 0
limit_of ((b, n) ∷ rest) a = if b == a then n else limit_of rest a

unfoldable pub refuse_each : Err → List Waiter → List Effect → List Effect
refuse_each e [] out = out
refuse_each e (w ∷ ws) out = refuse_each e ws (refused w e ∷ out)

-- `for _, waiting := range queue { failWaiter(waiting, err) }; queue = nil`
unfoldable pub refuse_all : Err → Loop → Loop
refuse_all e r = record r { queue = []; out = refuse_each e r.queue r.out }

unfoldable pub prune : Env → Loop → Loop
prune env r = record r { queue = filter (λ w. not (env.is_done w.id)) r.queue }

-- `generation` is a uint64
unfoldable pub start : Allocation → Loop → Loop
start a r =
    let g = (r.generation + 1) % 2 ^ 64 in
    let f : Flight = record { kind = starts; allocation = a; generation = g } in
    record r {
      operation = true;
      state = starting;
      current = a;
      generation = g;
      cancelable = true;
      flight = some f;
      out = launched f ∷ r.out;
    }

unfoldable pub stop : Loop → Loop
stop r =
    let f : Flight = record { kind = stops; allocation = r.current; generation = r.generation } in
    record r {
      operation = true;
      state = stopping;
      cancelable = false;
      flight = some f;
      out = launched f ∷ r.out;
    }

unfoldable pub answer_each : List ℕ → Option Err → List Effect → List Effect
answer_each [] e out = out
answer_each (reply ∷ rest) e out = answer_each rest e (answered reply e ∷ out)

unfoldable pub finish : Option Err → Loop → Loop
finish e r = record r { closed = true; out = answer_each r.replies e r.out }

-- the part of `progress` under `if shuttingDown`
unfoldable pub progress_shutdown : Loop → Loop
unfolding refuse_all stop finish
progress_shutdown before =
    let r = refuse_all shutting_down before in
    if r.operation || ltb 0 r.active
    then if ltb 0 r.active && not r.operation then record r { state = draining } else r
    else if not (r.current == unowned)
    then stop r
    else finish none r

-- one turn of the loop that hands out leases
unfoldable pub offer : Env → Waiter → Loop → Loop
offer env w r =
    let l : LeaseEvent = record { allocation = r.current; generation = r.generation } in
    if env.takes w.id
    then record r { active = r.active + 1; held = l ∷ r.held; out = granted w l r.upstream ∷ r.out }
    else r

-- the loop, over the waiters that are queued; `limit == 0` sets no limit
unfoldable pub grant : Env → ℕ → List Waiter → Loop → Loop
unfolding offer
grant env limit [] r = record r { queue = [] }
grant env limit (w ∷ ws) r =
    let rest = grant env limit ws (offer env w r) in
    if w.allocation == r.current && (limit == 0 || ltb r.active limit)
    then rest
    else record r { queue = w ∷ ws }

abbrev pub head_differs : Allocation → List Waiter → Bool
head_differs a [] = false
head_differs a (w ∷ ws) = not (w.allocation == a)

-- the end of `progress`: a backend is owned and no operation runs
unfoldable pub serve : Config → Env → List Waiter → Loop → Loop
unfolding stop grant limit_of
serve c env [] r = record r { state = ready }
serve c env (w ∷ ws) r =
    let r' = grant env (limit_of c.limits r.current) (w ∷ ws) (record r { state = ready }) in
    if not (w.allocation == r.current)
    then if r.active == 0
      then stop (record r { state = draining })
      else record r { state = draining }
    else if head_differs r'.current r'.queue
    then record r' { state = draining }
    else r'

-- `current == ""`
unfoldable pub start_head : List Waiter → Loop → Loop
unfolding start
start_head [] r = record r { state = unloaded }
start_head (w ∷ ws) r = start w.allocation (record r { state = unloaded })

abbrev pub is_failed : AllocationState → Bool
is_failed failed = true
is_failed _ = false

-- the part of `progress` behind `if shuttingDown`
unfoldable pub progress_running : Config → Env → Loop → Loop
unfolding stop start_head serve
progress_running c env r =
    if r.operation
    then r
    else if is_some r.cleanup_error
    then r
    else if is_failed r.state && not (r.current == unowned)
    then if r.active == 0 then stop r else r
    else if r.current == unowned
    then start_head r.queue r
    else serve c env r.queue r

-- `progress`; it returns true exactly where `finish` has closed `done`
unfoldable pub progress : Config → Env → Loop → Loop
unfolding prune progress_shutdown progress_running
progress c env before =
    let r = prune env before in if r.shutting then progress_shutdown r else progress_running c env r
