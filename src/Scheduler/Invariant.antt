-- ===== src/Scheduler/Invariant.antt =====
-- The invariant of the scheduler's variables between two rounds, and through `progress`.
use paracetamol.Base.{
  ℕ, ◌≤◌, ◌<◌, Bool, true, false, not, ◌&&◌, ◌||◌, Option, none, some, List, [], ◌∷◌, ◌≡◌, refl,
  sym, ◌∙◌, ◌≢◌, ◌⊎◌, inl, inr, arith, ltb, ◌==◌, is_some, length, filter, length-filter-le, All,
  Bool-cases,
}
use paracetamol.Scheduler.State.{
  Allocation, AllocationState, unowned, unloaded, ready, shutting_down, draining, Err, Waiter,
  LeaseEvent, starts, Flight, Config, Env, Loop, initial,
}
use paracetamol.Scheduler.Progress.{
  limit_of, refuse_all, prune, start, stop, finish, progress_shutdown, offer, grant, serve,
  start_head, progress_running, progress,
}

abbrev pub IsNamed : Waiter → Type 0
IsNamed w = w.allocation ≢ unowned

abbrev pub IsCurrent : Allocation → ℕ → LeaseEvent → Type 0
IsCurrent a g l = (l.allocation ≡ a) × (l.generation ≡ g)

-- the goroutine that runs is the one that the variables speak of
abbrev pub FlightMatches : Option Flight → Allocation → ℕ → Type 0
FlightMatches none a g = Unit
FlightMatches (some f) a g = (f.allocation ≡ a) × (f.generation ≡ g)

-- a start is launched only while no cleanup is outstanding
abbrev pub StartsClean : Option Flight → Option Err → Type 0
StartsClean none e = Unit
StartsClean (some f) e = f.kind ≡ starts → e ≡ none

pub record Inv (c : Config) (r : Loop) : Type 0 where
  pub bounded : length r.queue ≤ c.queue_max
  pub named : All IsNamed r.queue
  pub held_current : All (IsCurrent r.current r.generation) r.held
  pub counted : r.active ≡ length r.held
  pub flying : r.operation ≡ is_some r.flight
  pub flight_matches : FlightMatches r.flight r.current r.generation
  pub starts_clean : StartsClean r.flight r.cleanup_error
  pub quiet : r.operation ≡ true → r.active ≡ 0
  pub nothing_owned :
      r.current ≡ unowned
      → (r.active ≡ 0) × (r.operation ≡ false) × (r.upstream ≡ none) × (r.cleanup_error ≡ none)
  pub reachable :
      r.current ≢ unowned → r.operation ≡ false → r.cleanup_error ≡ none → is_some r.upstream ≡ true
  pub within_limit : (limit_of c.limits r.current ≡ 0) ⊎ (r.active ≤ limit_of c.limits r.current)
  pub uncertain_quiet : is_some r.cleanup_error ≡ true → r.active ≡ 0

pub initial-Inv : (c : Config) → Inv c initial
unfolding initial
initial-Inv c = ground arith

pub All-filter : (p : Waiter → Bool) (ws : List Waiter) → All IsNamed ws → All IsNamed (filter p ws)
All-filter p [] h = tt
All-filter p (w ∷ ws) h = ground (arith, All-filter p ws h.1)

module _ {c : Config} {r : Loop} (v : Inv c r) where
  pub prune-Inv : (env : Env) → Inv c (prune env r)
  unfolding prune
  prune-Inv env = ground (
    arith,
    length-filter-le (λ w. not (env.is_done w.id)) r.queue,
    All-filter (λ w. not (env.is_done w.id)) r.queue v.named,
  )

  pub refuse_all-Inv : (e : Err) → Inv c (refuse_all e r)
  unfolding refuse_all
  refuse_all-Inv e = ground arith

  pub stop-Inv : r.current ≢ unowned → r.active ≡ 0 → Inv c (stop r)
  unfolding stop
  stop-Inv owned idle = ground arith

  pub finish-Inv : (e : Option Err) → Inv c (finish e r)
  unfolding finish
  finish-Inv e = ground arith

  pub offer-Inv :
      (env : Env) (w : Waiter)
      → r.operation ≡ false
      → r.current ≢ unowned
      → r.cleanup_error ≡ none
      → (limit_of c.limits r.current ≡ 0) ⊎ (r.active < limit_of c.limits r.current)
      → Inv c (offer env w r)
  unfolding offer
  offer-Inv env w still owned clean room = ground arith

pub length-eq-zero {ℓ} : {A : Type ℓ} (xs : List A) → length xs ≡ 0 → xs ≡ []
length-eq-zero [] h = refl
length-eq-zero (x ∷ xs) h = absurd (omega arith)

start-Inv :
    {c : Config} {r : Loop} (a : Allocation)
    → Inv c r
    → a ≢ unowned
    → r.active ≡ 0
    → r.upstream ≡ none
    → r.cleanup_error ≡ none
    → Inv c (start a r)
unfolding start
start-Inv {c} {r} a v named idle bare clean =
    ground (arith, v.held_current, v.counted, length-eq-zero r.held)

-- an offer changes `active`, `held` and the log only
offer-keeps :
    (env : Env) (w : Waiter) (r : Loop)
    → ((offer env w r).current ≡ r.current)
      × ((offer env w r).operation ≡ r.operation)
      × ((offer env w r).cleanup_error ≡ r.cleanup_error)
unfolding offer
offer-keeps env w r = ground arith

grant-Inv :
    {c : Config} (env : Env) (limit : ℕ) (ws : List Waiter) (r : Loop)
    → Inv c r
    → r.operation ≡ false
    → r.current ≢ unowned
    → r.cleanup_error ≡ none
    → limit ≡ limit_of c.limits r.current
    → length ws ≤ c.queue_max
    → All IsNamed ws
    → Inv c (grant env limit ws r)
unfolding grant
grant-Inv env limit [] r v still owned clean lim few named = ground arith
grant-Inv {c} env limit (w ∷ ws) r v still owned clean lim few named =
    elim (Bool-cases (w.allocation == r.current && (limit == 0 || ltb r.active limit))) [
      | inl go ↦
          let (cur, op, cl) = offer-keeps env w r in
          rw go (
            grant-Inv env limit ws (offer env w r)
              (offer-Inv v env w still owned clean (ground arith)) (op ∙ still)
              (λ e. owned (sym cur ∙ e)) (cl ∙ clean) (rw cur lim) (omega arith) named.1)
      | inr halt ↦ rw halt (ground arith)
    ]

grant-keeps :
    (env : Env) (limit : ℕ) (ws : List Waiter) (r : Loop)
    → ((grant env limit ws r).current ≡ r.current)
      × ((grant env limit ws r).operation ≡ r.operation)
      × ((grant env limit ws r).cleanup_error ≡ r.cleanup_error)
unfolding grant
grant-keeps env limit [] r = ground arith
grant-keeps env limit (w ∷ ws) r =
    ground (arith, grant-keeps env limit ws (offer env w r), offer-keeps env w r)

-- the state is free: the invariant does not name it
with_state-Inv :
    {c : Config} {r : Loop} (s : AllocationState) → Inv c r → Inv c (record r { state = s })
with_state-Inv s v = ground arith

serve-Inv :
    {c : Config} (env : Env) (ws : List Waiter) (r : Loop)
    → Inv c r
    → r.operation ≡ false
    → r.current ≢ unowned
    → r.cleanup_error ≡ none
    → length ws ≤ c.queue_max
    → All IsNamed ws
    → Inv c (serve c env ws r)
unfolding serve
serve-Inv env [] r v still owned clean few named = with_state-Inv ready v
serve-Inv {c} env (w ∷ ws) r v still owned clean few named =
    let g =
      grant-Inv env (limit_of c.limits r.current) (w ∷ ws) (record r { state = ready })
        (with_state-Inv ready v) still owned clean refl few named in
    let q = with_state-Inv draining v in
    ground (arith, g, q, stop-Inv q owned, with_state-Inv draining g)

start_head-Inv :
    {c : Config} (ws : List Waiter) (r : Loop)
    → Inv c r
    → r.current ≡ unowned
    → All IsNamed ws
    → Inv c (start_head ws r)
unfolding start_head
start_head-Inv [] r v free named = with_state-Inv unloaded v
start_head-Inv (w ∷ ws) r v free named =
    let (idle, still, bare, clean) = v.nothing_owned free in
    start-Inv w.allocation (with_state-Inv unloaded v) named.0 idle bare clean

progress_running-Inv :
    {c : Config} {r : Loop} (env : Env) → Inv c r → Inv c (progress_running c env r)
unfolding progress_running
progress_running-Inv {c} {r} env v =
    ground (arith, v, stop-Inv v, start_head-Inv r.queue r v, serve-Inv env r.queue r v)

progress_shutdown-Inv : {c : Config} {r : Loop} → Inv c r → Inv c (progress_shutdown r)
unfolding progress_shutdown
progress_shutdown-Inv v =
    let q = refuse_all-Inv v shutting_down in
    ground (arith, q, with_state-Inv draining q, stop-Inv q, finish-Inv q none)

-- `progress` keeps the invariant, whatever the waiters' contexts do.
pub progress-Inv : {c : Config} {r : Loop} (env : Env) → Inv c r → Inv c (progress c env r)
unfolding progress
progress-Inv env v =
    let p = prune-Inv v env in ground (arith, progress_shutdown-Inv p, progress_running-Inv env p)
