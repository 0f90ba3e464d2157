-- ===== src/Scheduler/State.antt =====
-- The types of internal/gateway/scheduler.go and the local variables of its `run` goroutine.
--
-- Names that are only compared are numbers: an `Allocation` (0 is the empty string, 1 is
-- "llama-cpp"), a reply channel and a backend URL. A waiter's context is seen through `Env` only.
use paracetamol.Base.{ℕ, Bool, true, false, Option, none, List, []}

abbrev pub Allocation : Type 0
Allocation = ℕ

abbrev pub unowned : Allocation
unowned = 0

abbrev pub llama_cpp : Allocation
llama_cpp = 1

abbrev pub Url : Type 0
Url = ℕ

pub data AllocationState : Type 0 where
  unloaded starting ready draining stopping failed : AllocationState

-- `backend` is an opaque error of the lifecycle; `backend_cleanup` one that `errors.As` finds to
-- be a `backendCleanupError`; the last two are the wrappings of `fmt.Errorf` with `%w`.
pub data Err : Type 0 where
  queue_full shutting_down no_upstream invalid_configuration : Err
  invalid_limit unknown_allocation : Allocation → Err
  backend backend_cleanup : ℕ → Err
  start_failed stop_failed : Allocation → Err → Err

-- `errors.As(err, &cleanupFailure)`
unfoldable pub is_cleanup : Err → Bool
is_cleanup (backend_cleanup n) = true
is_cleanup (start_failed a e) = is_cleanup e
is_cleanup (stop_failed a e) = is_cleanup e
is_cleanup _ = false

-- `acquireRequest` and `waiter`: the identifier also stands for its context and reply channel.
pub record Waiter : Type 0 where
  pub id : ℕ
  pub allocation : Allocation

-- `leaseEvent`, and so the identity of a `Lease`
pub record LeaseEvent : Type 0 where
  pub allocation : Allocation
  pub generation : ℕ

pub data Kind : Type 0 where
  starts stops : Kind

-- the goroutine that `start` or `stop` launched and whose result has not been received
pub record Flight : Type 0 where
  pub kind : Kind
  pub allocation : Allocation
  pub generation : ℕ

pub record OperationResult : Type 0 where
  pub kind : Kind
  pub allocation : Allocation
  pub generation : ℕ
  pub upstream : Option Url
  pub err : Option Err

pub record SchedulerStatus : Type 0 where
  pub allocation : Allocation
  pub state : AllocationState
  pub active_requests : ℕ
  pub queued_requests : ℕ
  pub last_error : Option Err
  pub upstream : Option Url

-- What the goroutine does to the outside: a lease that its waiter received, an error offered by
-- `failWaiter` (its waiter receives it unless its context is done), the launch of
-- `lifecycle.Start` and `lifecycle.Stop`, `operationCancel()`, and the replies.
pub data Effect : Type 0 where
  granted : Waiter → LeaseEvent → Option Url → Effect
  refused : Waiter → Err → Effect
  launched : Flight → Effect
  canceled : Effect
  answered : ℕ → Option Err → Effect
  reported : ℕ → SchedulerStatus → Effect

-- `queueMax` and `limits` (no entry, like the entry 0, sets no limit)
pub record Config : Type 0 where
  pub queue_max : ℕ
  pub limits : List (Allocation × ℕ)

-- What the waiters' contexts do in one round: whether a context is done when `prune` looks, and
-- whether the waiter takes the offered lease (the other case of that `select` is its context).
pub record Env : Type 0 where
  pub is_done : ℕ → Bool
  pub takes : ℕ → Bool

-- The local variables of `run`. `cancelable` is `operationCancel != nil` and `last_error` the
-- error whose text `lastError` holds. The last four are not variables of the source: `flight` is
-- the goroutine that is running, `held` the leases that clients have not released, `closed` says
-- that `done` is closed and the goroutine has returned, `out` logs the effects, newest first.
pub record Loop : Type 0 where
  pub state : AllocationState
  pub current : Allocation
  pub upstream : Option Url
  pub generation : ℕ
  pub active : ℕ
  pub queue : List Waiter
  pub operation : Bool
  pub cancelable : Bool
  pub shutting : Bool
  pub replies : List ℕ
  pub last_error : Option Err
  pub cleanup_error : Option Err
  pub flight : Option Flight
  pub held : List LeaseEvent
  pub closed : Bool
  pub out : List Effect

unfoldable pub initial : Loop
initial = record {
  state = unloaded;
  current = unowned;
  upstream = none;
  generation = 0;
  active = 0;
  queue = [];
  operation = false;
  cancelable = false;
  shutting = false;
  replies = [];
  last_error = none;
  cleanup_error = none;
  flight = none;
  held = [];
  closed = false;
  out = [];
}

-- What the select of `run` receives.
pub data Event : Type 0 where
  requests : Waiter → Event
  cancels : ℕ → Event
  releases : LeaseEvent → Event
  failures : LeaseEvent → Err → Event
  results : OperationResult → Event
  statuses : ℕ → Event
  shutdown : ℕ → Event
