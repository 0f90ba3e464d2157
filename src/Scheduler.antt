-- ===== src/Scheduler.antt =====
-- The goroutine `run` of internal/gateway/scheduler.go, a round at a time.
pub mod State
pub mod Progress
pub mod Receive
pub mod Invariant
pub mod Events
pub mod Safety
pub mod Order
pub mod Runs
pub mod FailClosed
pub mod Shutdown
pub mod Client
pub mod Grants
mod Tests
use paracetamol.Base.{if◌then◌else◌}
use State.{Config, Env, Event, Loop}
use Progress.{progress}
use Receive.{receive}

-- One round of the loop of `run`: it returns if `progress` does, and else takes one event.
pub round : Config → Env → Event → Loop → Loop
round c env e before = let r = progress c env before in if r.closed then r else receive c e r
