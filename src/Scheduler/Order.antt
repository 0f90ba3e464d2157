-- ===== src/Scheduler/Order.antt =====
-- The order in which leases go out.
use paracetamol.Base.{
  ℕ, ◌+◌, ◌≤◌, true, ◌&&◌, ◌||◌, Option, List, [], ◌∷◌, ◌++◌, ◌≡◌, refl, ◌≢◌, ◌⊎◌, inl, inr, arith,
  ltb, ◌==◌, if◌then◌else◌, length, filter, All, Bool-cases,
}
use paracetamol.Scheduler.State.{Allocation, Url, Waiter, LeaseEvent, Env, Loop, Effect, granted}
use paracetamol.Scheduler.Progress.{grant, offer, head_differs}

-- the log entries of leases handed to the given waiters, on top of `out`
abbrev pub grants : LeaseEvent → Option Url → List Waiter → List Effect → List Effect
grants l u [] out = out
grants l u (w ∷ ws) out = grants l u ws (granted w l u ∷ out)

abbrev lease_of : Loop → LeaseEvent
lease_of r = record { allocation = r.current; generation = r.generation }

abbrev Wants : Allocation → Waiter → Type 0
Wants a w = w.allocation ≡ a

-- `served` were offered a lease, in this order, and the rest `q` still waits.
pub record Serves (env : Env) (limit : ℕ) (ws : List Waiter) (r q : Loop) : Type 0 where
  pub served : List Waiter
  pub splits : ws ≡ served ++ q.queue
  pub wanted : All (Wants r.current) served
  pub logged : q.out ≡ grants (lease_of r) r.upstream (filter (λ w. env.takes w.id) served) r.out
  pub counted : q.active ≡ r.active + length (filter (λ w. env.takes w.id) served)
  pub stops_at :
      (q.queue ≡ []) ⊎ (head_differs r.current q.queue ≡ true) ⊎ ((limit ≢ 0) × (limit ≤ q.active))
  pub within : (served ≡ []) ⊎ (limit ≡ 0) ⊎ (q.active ≤ limit)

offer-fields :
    (env : Env) (w : Waiter) (r : Loop)
    → ((offer env w r).current ≡ r.current)
      × ((offer env w r).generation ≡ r.generation)
      × ((offer env w r).upstream ≡ r.upstream)
unfolding offer
offer-fields env w r = ground arith

offer-out :
    (env : Env) (w : Waiter) (r : Loop)
    → ((offer env w r).out
        ≡ (if env.takes w.id then granted w (lease_of r) r.upstream ∷ r.out else r.out))
      × ((offer env w r).active ≡ (if env.takes w.id then r.active + 1 else r.active))
unfolding offer
offer-out env w r = ground arith

served_within :
    (env : Env) (limit : ℕ) (ws : List Waiter) (r q : Loop)
    → Serves env limit ws r q
    → (limit ≡ 0) ⊎ (r.active ≤ limit)
    → (limit ≡ 0) ⊎ (q.active ≤ limit)
served_within env limit ws r q s (inl none) = inl none
served_within env limit ws r q s (inr below) = elim s.within [
  | inr within ↦ within
  | inl none ↦
      let same : q.active ≡ r.active + length (filter (λ (w : Waiter). env.takes w.id) []) =
        rw none at s.counted in
      inr (omega (arith, same))
]

-- The loop of `progress` offers a lease of the owned backend to a prefix of the queue, in its
-- order and to waiters for that backend only; who takes it is counted and gets it. It stops
-- where the queue ends, where the first waiter wants another backend, or at the limit, and no lease
-- goes out beyond the limit.
pub grant-Serves :
    (env : Env) (limit : ℕ) (ws : List Waiter) (r : Loop)
    → Serves env limit ws r (grant env limit ws r)
unfolding grant
grant-Serves env limit [] r = record {
  served = [];
  splits = refl;
  wanted = tt;
  logged = refl;
  counted = omega arith;
  stops_at = inl refl;
  within = inl refl;
}
grant-Serves env limit (w ∷ ws) r =
    elim (Bool-cases (w.allocation == r.current && (limit == 0 || ltb r.active limit))) [
      | inl go ↦
          let s = grant-Serves env limit ws (offer env w r) in
          let o = offer-fields env w r in
          let p = offer-out env w r in
          rw go (record {
            served = w ∷ s.served;
            splits = ground (arith, s.splits);
            wanted = (ground arith, rw o.0 at s.wanted);
            logged = ground (arith, s.logged, o, p);
            counted = ground (arith, s.counted, p);
            stops_at = rw o.0 at s.stops_at;
            within = inr (
                served_within env limit ws (offer env w r) (grant env limit ws (offer env w r)) s
                  (ground arith));
          })
      | inr halt ↦ rw halt (record {
        served = [];
        splits = refl;
        wanted = tt;
        logged = refl;
        counted = omega arith;
        stops_at = ground arith;
        within = inl refl;
      })
    ]
