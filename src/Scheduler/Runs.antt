-- ===== src/Scheduler/Runs.antt =====
-- Runs of the scheduler from any state, over events of one kind, with the number of rounds.
use paracetamol.Base.{ℕ, zero, suc, false, ◌≡◌}
use paracetamol.Scheduler.State.{Config, Env, Loop, Event}
use paracetamol.Scheduler.Progress.{progress}
use paracetamol.Scheduler.Events.{CanSend}
use paracetamol.Scheduler.{round}

pub data Rounds (c : Config) (P : Event → Type 0) (r : Loop) : ℕ → Loop → Type 0 where
  here : Rounds c P r zero r
  another :
      {n : ℕ} {q : Loop}
      → Rounds c P r n q
      → q.closed ≡ false
      → (env : Env) (e : Event) → CanSend (progress c env q) e
      → P e
      → Rounds c P r (suc n) (round c env e q)
