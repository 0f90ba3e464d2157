-- ===== src/Lifecycle/Careful.antt =====
-- Which calls of the lifecycle are allowed after which.
use paracetamol.Base.{
  ℕ, suc, ◌==◌, Bool, true, false, not, ◌&&◌, ◌||◌, Option, none, some, List, [], ◌∷◌, ◌≡◌,
}
use paracetamol.Text.{Text, codes, equal, trim_space}
use paracetamol.Scheduler.State.{Allocation}
use paracetamol.Podman.Machine.{Call, Reply, exited, podman, launch, look_path, probe, Machine}
use paracetamol.Podman.Client.{Formats, remove_arguments, inspect_arguments}
use paracetamol.Lifecycle.Container.{container_name, is_owned, is_up}

abbrev pub same_arguments : List Text → List Text → Bool
same_arguments [] [] = true
same_arguments (a ∷ s) (b ∷ t) = let rest = same_arguments s t in equal a b && rest
same_arguments _ _ = false

abbrev pub is_removal : List Text → Bool
is_removal [] = false
is_removal (a ∷ s) = equal a (codes "rm")

abbrev pub exists_arguments : List Text
exists_arguments = codes "container" ∷ codes "exists" ∷ container_name ∷ []

-- The last call has shown that no container has the name: Podman said so, or removed it.
unfoldable pub is_free : List (Call × Reply) → Bool
unfolding equal
is_free ((podman arguments, exited status out errors) ∷ calls) =
    (same_arguments arguments exists_arguments && status == 1)
    || (same_arguments arguments (remove_arguments container_name) && status == 0)
is_free _ = false

-- The last call has shown that the container has the labels of the gateway.
unfoldable pub shows_owned : Formats → List (Call × Reply) → Bool
unfolding equal is_owned trim_space
shows_owned formats ((podman arguments, exited status out errors) ∷ calls) =
    same_arguments arguments (inspect_arguments container_name)
    && status == 0
    && elim (formats.decode_labels (trim_space out)) [
      | none ↦ false
      | some labels ↦ is_owned labels
    ]
shows_owned formats _ = false

-- A container is removed only if it is that of the gateway and was just seen to have its labels, and
-- one is started only if the name was just seen to be free.
unfoldable pub is_allowed : Formats → Call → List (Call × Reply) → Bool
unfolding equal is_free shows_owned
is_allowed formats (podman arguments) calls =
    not (is_removal arguments)
    || (same_arguments arguments (remove_arguments container_name) && shows_owned formats calls)
is_allowed formats (launch command) calls = is_free calls
is_allowed formats (look_path name) calls = true
is_allowed formats probe calls = true

unfoldable pub is_careful : Formats → List (Call × Reply) → Bool
unfolding is_allowed
is_careful formats [] = true
is_careful formats ((c, reply) ∷ calls) = is_allowed formats c calls && is_careful formats calls

-- the last call was a probe that the backend answered
unfoldable pub is_ready : List (Call × Reply) → Bool
is_ready [] = false
is_ready ((podman arguments, reply) ∷ calls) = false
is_ready ((launch command, reply) ∷ calls) = false
is_ready ((look_path name, reply) ∷ calls) = false
is_ready ((probe, reply) ∷ calls) = is_up reply

-- how many containers were started
unfoldable pub launches : List (Call × Reply) → ℕ
launches [] = 0
launches ((launch command, reply) ∷ calls) = suc (launches calls)
launches ((podman arguments, reply) ∷ calls) = launches calls
launches ((look_path name, reply) ∷ calls) = launches calls
launches ((probe, reply) ∷ calls) = launches calls

-- a call that starts and removes nothing
abbrev pub is_harmless : Call → Bool
is_harmless (podman arguments) = not (is_removal arguments)
is_harmless (launch command) = false
is_harmless (look_path name) = true
is_harmless probe = true

-- The calls are careful, `n` containers were started, and the logs of `f` are followed.
pub record Kept (formats : Formats) (n : ℕ) (f : Option Allocation) (m : Machine) : Type 0 where
  pub careful : is_careful formats m.calls ≡ true
  pub launched : launches m.calls ≡ n
  pub following : m.follower ≡ f
