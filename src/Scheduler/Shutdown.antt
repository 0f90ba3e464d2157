-- ===== src/Scheduler/Shutdown.antt =====
-- The scheduler behind a request to shut down.
use paracetamol.Base.{
  ℕ, ◌+◌, ◌≤◌, ◌<◌, true, false, Option, none, some, List, [], ◌∷◌, ◌≡◌, refl, ◌≢◌, ◌⊎◌, inl, inr,
  arith, ◌==◌, if◌then◌else◌, is_some, suc, Bool-cases,
}
use paracetamol.Scheduler.State.{
  unowned, LeaseEvent, Kind, starts, stops, Flight, OperationResult, Config, Env, Loop, Event,
  requests, cancels, releases, failures, results, statuses, shutdown, canceled,
}
use paracetamol.Scheduler.Progress.{progress, prune, progress_shutdown, refuse_all, stop, finish}
use paracetamol.Scheduler.Receive.{
  receive, receive_release, receive_result, dispatch, stopped, started, start_fails, keep_uncertain,
  abandon,
}
use paracetamol.Scheduler.Events.{CanSend, holds, drop_lease_lem}
use paracetamol.Scheduler.Invariant.{Inv, progress-Inv}
use paracetamol.Scheduler.Safety.{Reach, Reach-Inv, round-Inv}
use paracetamol.Scheduler.Runs.{Rounds, here, another}
use paracetamol.Scheduler.{round}

abbrev pub IsCompletion : Event → Type 0
IsCompletion (releases l) = Unit
IsCompletion (results res) = Unit
IsCompletion _ = ⊥

abbrev flight_weight : Option Flight → ℕ
flight_weight none = 3
flight_weight (some f) = elim f.kind [ starts ↦ 3 | stops ↦ 1 ]

-- the completions that a shutdown still waits for
abbrev weight : Loop → ℕ
weight r =
    if r.operation then flight_weight r.flight else if r.current == unowned then 0 else r.active + 2

abbrev Falls : ℕ → Loop → Type 0
Falls bound r = (r.closed ≡ true) ⊎ ((r.shutting ≡ true) × (weight r ≤ bound))

progress-Falls :
    {c : Config} (env : Env) (r : Loop)
    → Inv c r
    → r.shutting ≡ true
    → Falls (weight r) (progress c env r)
unfolding progress prune progress_shutdown refuse_all stop finish
progress-Falls env r v s = ground arith

receive_release-Falls :
    {c : Config} (l : LeaseEvent) (r : Loop)
    → Inv c r
    → r.shutting ≡ true
    → holds l r.held ≡ true
    → ((receive_release l r).shutting ≡ true) × (weight (receive_release l r) < weight r)
unfolding receive_release
receive_release-Falls l r v s e =
    ground (arith, v, drop_lease_lem l r.current r.generation r.held v.held_current e)

dispatch-Falls :
    (k : Kind) (res : OperationResult) (r : Loop)
    → r.shutting ≡ true
    → r.operation ≡ false
    → r.active ≡ 0
    → ((dispatch k res r).closed ≡ true)
      ⊎ (((dispatch k res r).shutting ≡ true)
          × (weight (dispatch k res r) < elim k [ starts ↦ 3 | stops ↦ 1 ]))
unfolding dispatch started stopped start_fails keep_uncertain abandon refuse_all finish
dispatch-Falls k res r s o a = ground arith

receive-Falls :
    {c : Config} (e : Event) (r : Loop)
    → Inv c r
    → r.shutting ≡ true
    → IsCompletion e
    → CanSend r e
    → ((receive c e r).closed ≡ true)
      ⊎ (((receive c e r).shutting ≡ true) × (weight (receive c e r) < weight r))
unfolding receive receive_result
receive-Falls (releases l) r v s i can = inr (receive_release-Falls l r v s can)
receive-Falls (results res) r v s i can =
    let landed : Loop = record r {
      operation = false;
      cancelable = false;
      flight = none;
      out = if r.cancelable then canceled ∷ r.out else r.out;
    } in
    ground (arith, v, dispatch-Falls res.kind res landed)
receive-Falls (requests w) r v s i can = elim i [ ]
receive-Falls (cancels id) r v s i can = elim i [ ]
receive-Falls (failures l e) r v s i can = elim i [ ]
receive-Falls (statuses reply) r v s i can = elim i [ ]
receive-Falls (shutdown reply) r v s i can = elim i [ ]

round-Falls :
    {c : Config} (env : Env) (e : Event) (r : Loop)
    → Inv c r
    → r.shutting ≡ true
    → IsCompletion e
    → CanSend (progress c env r) e
    → ((round c env e r).closed ≡ true)
      ⊎ (((round c env e r).shutting ≡ true) × (weight (round c env e r) < weight r))
unfolding round
round-Falls {c} env e r v s i can = elim (Bool-cases (progress c env r).closed) [
  | inl done ↦ inl (simp done)
  | inr more ↦
      let f = progress-Falls {c = c} env r v s in
      let p = progress-Inv env v in ground (arith, f, receive-Falls {c = c} e (progress c env r) p)
]

Bounded : ℕ → ℕ → Loop → Type 0
Bounded n bound r =
    ((r.closed ≡ true) × (n ≤ suc bound)) ⊎ ((r.shutting ≡ true) × (weight r + n ≤ bound))

Rounds-Bounded :
    {c : Config} {r q : Loop} {n : ℕ}
    → Inv c r
    → r.shutting ≡ true
    → Rounds c IsCompletion r n q
    → Inv c q × Bounded n (weight r) q
unfolding Bounded
Rounds-Bounded v s here = (v, inr (s, omega arith))
Rounds-Bounded {c} {r} v s (another {n} {q} rest o env e can i) =
    let (v', b) = Rounds-Bounded v s rest in
    (round-Inv env e v' can, ground (arith, b, o, round-Falls {c = c} env e q v'))

weight-le : {c : Config} (r : Loop) → Inv c r → weight r ≤ r.active + 3
weight-le r v = ground arith

-- Once a shutdown is asked for, a run in which every event is a release or an operation's result
-- has at most `active + 4` rounds, and at most one less if the goroutine has not returned.
pub shutdown_terminates :
    {c : Config} {r q : Loop} {n : ℕ}
    → Reach c r
    → r.shutting ≡ true
    → Rounds c IsCompletion r n q
    → (n ≤ r.active + 4) × (q.closed ≡ false → n ≤ r.active + 3)
unfolding Bounded
shutdown_terminates {c} {r} h s run =
    let v = Reach-Inv h in
    let b = (Rounds-Bounded v s run).1 in
    let w = weight-le {c = c} r v in (ground arith, λ o. ground arith)

-- a lease that is held
head_holds : (l : LeaseEvent) (ls : List LeaseEvent) → holds l (l ∷ ls) ≡ true
head_holds l ls = ground arith

-- the release of a held lease, or the result of the running operation
abbrev next_completion : List LeaseEvent → Option Flight → Event
next_completion [] none = statuses 0
next_completion [] (some f) = results (record {
  kind = f.kind;
  allocation = f.allocation;
  generation = f.generation;
  upstream = none;
  err = none;
})
next_completion (l ∷ ls) f = releases l

next_completion-CanSend :
    (r : Loop) (ls : List LeaseEvent) (f : Option Flight)
    → r.held ≡ ls
    → r.flight ≡ f
    → (is_some f ≡ true) ⊎ (ls ≢ [])
    → IsCompletion (next_completion ls f) × CanSend r (next_completion ls f)
next_completion-CanSend r [] none h e k = absurd (ground arith)
next_completion-CanSend r [] (some f) h e k = (tt, e)
next_completion-CanSend r (l ∷ ls) f h e k = (tt, rw h (head_holds l ls))

progress-waits :
    {c : Config} (env : Env) (r : Loop)
    → Inv c r
    → r.shutting ≡ true
    → ((progress c env r).closed ≡ true)
      ⊎ ((progress c env r).operation ≡ true)
      ⊎ (0 < (progress c env r).active)
unfolding progress prune progress_shutdown refuse_all stop finish
progress-waits env r v s = ground arith

-- Once a shutdown is asked for, `progress` makes the goroutine return, or a release or an
-- operation's result can still be sent: it never waits for nothing.
pub shutdown_no_deadlock :
    {c : Config} {r : Loop} (env : Env)
    → Reach c r
    → r.shutting ≡ true
    → ((progress c env r).closed ≡ true)
      ⊎ ((e : Event) × IsCompletion e × CanSend (progress c env r) e)
shutdown_no_deadlock {c} {r} env h s =
    let p : Loop = progress c env r in
    let v = progress-Inv env (Reach-Inv h) in
    elim (progress-waits {c = c} env r (Reach-Inv h) s) [
      | inl done ↦ inl done
      | inr busy ↦
          let (i, can) =
            next_completion-CanSend p p.held p.flight refl refl (ground (arith, v, busy)) in
          inr (next_completion p.held p.flight, i, can)
    ]
