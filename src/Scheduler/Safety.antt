-- ===== src/Scheduler/Safety.antt =====
-- What holds of every run of the scheduler, whatever order the events come in.
use paracetamol.Base.{
  ℕ, ◌+◌, ◌≤◌, ◌%◌, ◌^◌, true, false, none, some, List, [], ◌∷◌, ◌≡◌, refl, ◌≢◌, ◌⊎◌, inl, inr,
  arith, length, sym, ◌∙◌, All, Option-cases,
}
use paracetamol.Scheduler.State.{
  unowned, Waiter, starts, stops, Flight, Config, Env, Loop, Event, initial, ready,
}
use paracetamol.Scheduler.Progress.{
  progress, refuse_all, finish, limit_of, prune, progress_shutdown, progress_running, serve, grant,
  offer, start_head, stop, head_differs,
}
use paracetamol.Scheduler.Invariant.{Inv, length-eq-zero, IsCurrent, initial-Inv, progress-Inv}
use paracetamol.Scheduler.Events.{CanSend, receive-Inv}
use paracetamol.Scheduler.{round}

-- The states of the variables at the head of the loop of `run`.
pub data Reach (c : Config) : Loop → Type 0 where
  begin : Reach c initial
  next :
      {r : Loop}
      → Reach c r
      → r.closed ≡ false
      → (env : Env) (e : Event) → CanSend (progress c env r) e
      → Reach c (round c env e r)

pub round-Inv :
    {c : Config} {r : Loop} (env : Env) (e : Event)
    → Inv c r
    → CanSend (progress c env r) e
    → Inv c (round c env e r)
unfolding round
round-Inv {c} {r} env e v can = let p = progress-Inv env v in ground (arith, p, receive-Inv e p can)

pub Reach-Inv : {c : Config} {r : Loop} → Reach c r → Inv c r
Reach-Inv {c} begin = initial-Inv c
Reach-Inv (next h o env e can) = round-Inv env e (Reach-Inv h) can

-- While `lifecycle.Start` or `lifecycle.Stop` runs, no client holds a lease and no request counts
-- as active.
pub operation_holds_no_lease :
    {c : Config} {r : Loop} (f : Flight)
    → Reach c r
    → r.flight ≡ some f
    → (r.held ≡ []) × (r.active ≡ 0)
operation_holds_no_lease {c} {r} f h e =
    let v = Reach-Inv h in ground (arith, v, length-eq-zero r.held)

-- The leases that are out are as many as `active`, all of the current backend and generation, and
-- no more than the limit of its allocation, if that sets one.
pub leases_within_limit :
    {c : Config} {r : Loop}
    → Reach c r
    → (length r.held ≡ r.active)
      × All (IsCurrent r.current r.generation) r.held
      × (limit_of c.limits r.current ≢ 0 → length r.held ≤ limit_of c.limits r.current)
leases_within_limit {c} {r} h =
    let v = Reach-Inv h in (sym v.counted, v.held_current, λ limited. ground (arith, v))

-- The launch of a start for the first waiter, and the launch of a stop.
abbrev pub Launches : Config → Env → Loop → Flight → Type 0
Launches c env r f =
    ((f.kind ≡ starts)
      × (r.current ≡ unowned)
      × (f.generation ≡ (r.generation + 1) % 2 ^ 64)
      × (head_differs f.allocation (prune env r).queue ≡ false)
      × ((prune env r).queue ≢ []))
    ⊎ ((f.kind ≡ stops)
        × (f.allocation ≡ r.current)
        × (f.generation ≡ r.generation)
        × (r.held ≡ []))

grant-flight :
    (env : Env) (limit : ℕ) (ws : List Waiter) (r : Loop)
    → ((grant env limit ws r).flight ≡ r.flight) × ((grant env limit ws r).current ≡ r.current)
unfolding grant offer
grant-flight env limit [] r = (refl, refl)
grant-flight env limit (w ∷ ws) r = ground (arith, grant-flight env limit ws (offer env w r))

start_head-Launches :
    (ws : List Waiter) (r : Loop) {f : Flight}
    → r.flight ≡ none
    → (start_head ws r).flight ≡ some f
    → (f.kind ≡ starts)
      × (f.generation ≡ (r.generation + 1) % 2 ^ 64)
      × (head_differs f.allocation ws ≡ false)
      × (ws ≢ [])
unfolding start_head
start_head-Launches [] r q e = cc
start_head-Launches (w ∷ ws) r q e = ground arith

serve-Launches :
    (c : Config) (env : Env) (ws : List Waiter) (r : Loop) {f : Flight}
    → r.flight ≡ none
    → (serve c env ws r).flight ≡ some f
    → (f.kind ≡ stops) × (f.allocation ≡ r.current) × (f.generation ≡ r.generation) × (r.active ≡ 0)
unfolding serve
serve-Launches c env [] r q e = cc
serve-Launches c env (w ∷ ws) r q e =
    ground
      (arith, grant-flight env (limit_of c.limits r.current) (w ∷ ws) (record r { state = ready }))

-- a running operation stays the only one
progress-busy :
    (c : Config) (env : Env) (r : Loop) → r.operation ≡ true → (progress c env r).flight ≡ r.flight
unfolding progress prune progress_running progress_shutdown refuse_all
progress-busy c env r e = ground arith

progress-idle :
    {c : Config} {r : Loop} (env : Env) (f : Flight)
    → Inv c r
    → r.flight ≡ none
    → (progress c env r).flight ≡ some f
    → Launches c env r f
unfolding progress prune progress_running progress_shutdown refuse_all stop finish
progress-idle {c} {r} env f v q e =
    let p : Loop = prune env r in
    ground (
      arith,
      v,
      length-eq-zero r.held,
      start_head-Launches p.queue p {f = f},
      serve-Launches c env p.queue p {f = f},
    )

-- An operation that runs after `progress` ran before it, or was launched by it, in two cases only:
-- it starts the backend that the first live waiter wants, when none is owned, under the next
-- generation; or it stops the backend that is owned, when no lease is out.
pub progress-Launches :
    {c : Config} {r : Loop} (env : Env) (f : Flight)
    → Reach c r
    → (progress c env r).flight ≡ some f
    → (r.flight ≡ some f) ⊎ Launches c env r f
progress-Launches {c} {r} env f h e = elim (Option-cases r.flight) [
  | inl q ↦ inr (progress-idle env f (Reach-Inv h) q e)
  | inr (g, q) ↦ let v = Reach-Inv h in inl (sym (progress-busy c env r (v.flying ∙ rw q refl)) ∙ e)
]
