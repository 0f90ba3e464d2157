-- ===== src/Podman/Machine.antt =====
-- Calls to the outside, as `process.Runner` makes them, and computations that make such calls.
--
-- What the outside answers is a parameter, which sees all the calls made before: nothing is assumed
-- of it. A computation goes on from the calls that were made so far, and keeps them when it fails.
use paracetamol.Base.{ℕ, Bool, Option, List, ◌∷◌, if◌then◌else◌}
use paracetamol.Base.Result.{Result, ok, err}
use paracetamol.Text.{Text}

-- `Runner.Run` of podman or of the command that starts a container, `Runner.LookPath`, and one
-- request to the readiness endpoint of a backend
pub data Call : Type 0 where
  podman launch : List Text → Call
  look_path : Text → Call
  probe : Call

-- The error of `Run`, or the `Result` of a child that exited; the status of a child that a signal
-- ended is not 0 or 1 here. A path that is found and a probe that gets a status from 200 to 299
-- count as status 0.
pub data Reply : Type 0 where
  not_run : Reply
  exited : ℕ → Text → Text → Reply

-- the errors of podman.go and lifecycle.go, without their texts; `cleanup_failed` is a
-- `backendCleanupError`
pub data ControlError : Type 0 where
  not_installed cannot_query rootful unsupported_kind not_started cannot_inspect : ControlError
  cannot_decode_labels invalid_port ambiguous_port invalid_published_port not_loopback :
      ControlError
  invalid_request command_failed : ControlError
  unknown_allocation image_missing managed_container_exists name_occupied : ControlError
  unexpected_labels already_exists bad_command start_failed already_following : ControlError
  exited_early not_ready : ControlError
  cleanup_failed : ControlError → ControlError → ControlError

-- the calls made, newest first, and the application whose logs are followed
-- (`ContainerLifecycle.follower`)
pub record Machine : Type 0 where
  pub calls : List (Call × Reply)
  pub follower : Option ℕ

abbrev pub Host : Type 0
Host = List (Call × Reply) → Call → Reply

abbrev pub Action : Type 0 → Type 0
Action A = Machine → Result ControlError A × Machine

module _ {A : Type 0} where
  abbrev pub pure : A → Action A
  pure a m = (ok a, m)

  abbrev pub fail : ControlError → Action A
  fail e m = (err e, m)

infixl 5 ◌>>=◌ ◌>>◌
abbrev pub ◌>>=◌ : {A B : Type 0} → Action A → (A → Action B) → Action B
◌>>=◌ action next m = let (r, m') = action m in elim r [ ok a ↦ next a m' | err e ↦ (err e, m') ]

abbrev pub ◌>>◌ : {A B : Type 0} → Action A → Action B → Action B
action >> next = action >>= λ _. next

abbrev pub fail_if : Bool → ControlError → Action (Unit {0})
fail_if test e m = (if test then err e else ok tt, m)

-- one call
abbrev pub call : Host → Call → Action Reply
call host c m = let reply = host m.calls c in (ok reply, record m { calls = (c, reply) ∷ m.calls })
