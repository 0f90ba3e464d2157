-- ===== src/Scheduler/Client.antt =====
-- The callers' side of internal/gateway/scheduler.go: `NewScheduler`, the checks of `Acquire`, and
-- the methods of `Lease`.
use paracetamol.Base.{
  All, Bool-cases, refl, inl, inr, ℕ, ◌+◌, ◌%◌, ◌^◌, Bool, true, false, not, ◌&&◌, ◌||◌, Option,
  none, some, List, [], ◌∷◌, ◌++◌, ◌≡◌, ◌≢◌, inl, inr, arith, ◌==◌, if◌then◌else◌, suc,
}
use paracetamol.Base.Int.{ℤ, pos, pos_part, ltb_ℤ}
use paracetamol.Base.Result.{Result, ok, err, ◌>>=◌, Result-cases}
use paracetamol.Scheduler.State.{
  Allocation, unowned, llama_cpp, Err, invalid_configuration, invalid_limit, unknown_allocation,
  Waiter, LeaseEvent, Config,
}

-- the loop that clones the limits, in some order of the map
clone_limits : List (Allocation × ℤ) → Result Err (List (Allocation × ℕ))
clone_limits [] = ok []
clone_limits ((a, limit) ∷ rest) =
    let others = clone_limits rest in
    if a == unowned || ltb_ℤ limit (pos 0)
    then err (invalid_limit a)
    else others >>= λ cloned. ok ((a, pos_part limit) ∷ cloned)

-- `NewScheduler`; the flag is `lifecycle != nil`. A limit that passes is not negative.
unfoldable pub new_scheduler : Bool → ℤ → List (Allocation × ℤ) → Result Err Config
unfolding clone_limits
new_scheduler has_lifecycle queue_max limits =
    if not has_lifecycle || ltb_ℤ queue_max (pos 1) then err invalid_configuration else do
      cloned ← clone_limits limits
      ok (record { queue_max = pos_part queue_max; limits = cloned })

-- `_, configured := scheduler.limits[allocation]`
pub configured : List (Allocation × ℕ) → Allocation → Bool
configured [] a = false
configured ((b, n) ∷ rest) a = b == a || configured rest a

-- `Acquire` up to the request that it sends; `next` is `nextID`, a uint64.
unfoldable pub acquire_request : Config → ℕ → Allocation → Result Err Waiter
unfolding configured
acquire_request c next a =
    if not (a == llama_cpp) && not (configured c.limits a)
    then err (unknown_allocation a)
    else ok (record { id = (next + 1) % 2 ^ 64; allocation = a })

clone_limits-named :
    (ls : List (Allocation × ℤ)) {cs : List (Allocation × ℕ)} (a : Allocation)
    → clone_limits ls ≡ ok cs
    → configured cs a ≡ true
    → a ≢ unowned
unfolding clone_limits configured
clone_limits-named [] a e k = ground arith
clone_limits-named ((b, limit) ∷ rest) {cs} a e k = elim (Result-cases (clone_limits rest)) [
  | inl (tail, t) ↦ ground (arith, t, clone_limits-named rest {cs = tail} a t)
  | inr (x, t) ↦ absurd (ground (arith, t))
]

-- A request that `Acquire` sends to a scheduler that was made names an allocation: it is never the
-- empty string that stands for "no backend".
acquire_request_named :
    (n : Bool) (queue_max : ℤ) (limits : List (Allocation × ℤ)) (next : ℕ) (a : Allocation)
    {c : Config} {w : Waiter}
    → new_scheduler n queue_max limits ≡ ok c
    → acquire_request c next a ≡ ok w
    → (w.allocation ≡ a) × (a ≢ unowned)
unfolding new_scheduler acquire_request
acquire_request_named n queue_max limits next a {c} {w} e k =
    elim (Result-cases (clone_limits limits)) [
      | inl (cs, t) ↦ ground (arith, t, clone_limits-named limits {cs = cs} a t)
      | inr (x, t) ↦ absurd (ground (arith, t))
    ]

-- `Lease`: the two flags are the states of the `sync.Once` fields.
pub record Lease : Type 0 where
  pub event : LeaseEvent
  pub released : Bool
  pub failed : Bool

-- What a client does with its lease, and what that sends to the scheduler.
pub data Call : Type 0 where
  release : Call
  fail : Option Err → Call

pub data Sent : Type 0 where
  released : LeaseEvent → Sent
  failed : LeaseEvent → Err → Sent

-- `Lease.Release` and `Lease.Fail`, of a lease whose scheduler still runs
pub call : Call → Lease → Lease × List Sent
call release l =
    (record l { released = true }, if l.released then [] else Sent.released l.event ∷ [])
call (fail none) l = (l, [])
call (fail (some e)) l =
    (record l { failed = true }, if l.failed then [] else Sent.failed l.event e ∷ [])

-- calls in a row, with all that they send
pub calls : List Call → Lease → Lease × List Sent
unfolding call
calls [] l = (l, [])
calls (x ∷ xs) l =
    let (l', sent) = call x l in let (l'', later) = calls xs l' in (l'', sent ++ later)

abbrev pub releases_sent : List Sent → ℕ
releases_sent [] = 0
releases_sent (Sent.released e ∷ rest) = suc (releases_sent rest)
releases_sent (Sent.failed e x ∷ rest) = releases_sent rest

abbrev pub failures_sent : List Sent → ℕ
failures_sent [] = 0
failures_sent (Sent.released e ∷ rest) = failures_sent rest
failures_sent (Sent.failed e x ∷ rest) = suc (failures_sent rest)

abbrev pub has_release : List Call → Bool
has_release [] = false
has_release (release ∷ xs) = true
has_release (fail e ∷ xs) = has_release xs

abbrev pub has_failure : List Call → Bool
has_failure [] = false
has_failure (release ∷ xs) = has_failure xs
has_failure (fail none ∷ xs) = has_failure xs
has_failure (fail (some e) ∷ xs) = true

abbrev pub event_of : Sent → LeaseEvent
event_of (Sent.released e) = e
event_of (Sent.failed e x) = e

calls-event : (xs : List Call) (l : Lease) → All (λ s. event_of s ≡ l.event) (calls xs l).1
unfolding calls
calls-event [] l = tt
calls-event (release ∷ xs) l =
    let later = calls-event xs (record l { released = true }) in
    elim (Bool-cases l.released) [ inl before ↦ rw before later | inr now ↦ rw now (refl, later) ]
calls-event (fail none ∷ xs) l = calls-event xs l
calls-event (fail (some e) ∷ xs) l =
    let later = calls-event xs (record l { failed = true }) in
    elim (Bool-cases l.failed) [ inl before ↦ rw before later | inr now ↦ rw now (refl, later) ]

calls_once :
    (xs : List Call) (l : Lease)
    → (releases_sent (calls xs l).1 ≡ (if has_release xs && not l.released then 1 else 0))
      × (failures_sent (calls xs l).1 ≡ (if has_failure xs && not l.failed then 1 else 0))
unfolding calls
calls_once [] l = ground arith
calls_once (release ∷ xs) l = ground (arith, calls_once xs (record l { released = true }))
calls_once (fail none ∷ xs) l = calls_once xs l
calls_once (fail (some e) ∷ xs) l = ground (arith, calls_once xs (record l { failed = true }))

-- However often and in whatever order a client calls `Release` and `Fail` on a lease while the
-- scheduler runs, the scheduler is sent one release if `Release` is called and none was sent
-- before, one failure if `Fail` is called with an error and none was sent before, both with the
-- allocation and generation of the lease, and nothing else.
pub lease_reports_once :
    (xs : List Call) (l : Lease)
    → (releases_sent (calls xs l).1 ≡ (if has_release xs && not l.released then 1 else 0))
      × (failures_sent (calls xs l).1 ≡ (if has_failure xs && not l.failed then 1 else 0))
      × All (λ s. event_of s ≡ l.event) (calls xs l).1
lease_reports_once xs l = ((calls_once xs l).0, (calls_once xs l).1, calls-event xs l)
