-- ===== src/Lifecycle/Container.antt =====
-- `ContainerLifecycle`: how a backend is started, waited for and removed. The URL of a backend is its
-- port on 127.0.0.1.
use paracetamol.Base.{
  ℕ, zero, suc, ◌==◌, Bool, true, false, not, ◌&&◌, ◌||◌, Option, none, some, List, [], ◌∷◌,
  if◌then◌else◌,
}
use paracetamol.Base.Result.{Result, ok, err}
use paracetamol.Text.{Text, codes, equal}
use paracetamol.Scheduler.State.{Allocation, llama_cpp}
use paracetamol.Podman.Machine.{
  Reply, not_run, exited, launch, probe, ControlError, unknown_allocation, image_missing,
  managed_container_exists, name_occupied, unexpected_labels, already_exists, bad_command,
  start_failed, already_following, exited_early, not_ready, cleanup_failed, Machine, Host, Action,
  pure, fail, ◌>>=◌, ◌>>◌, fail_if, call,
}
use paracetamol.Podman.Client.{
  Formats, managed_container_label, managed_application_label, managed_role_label, require_rootless,
  exists, managed_container_names, container_labels, published_loopback_port, remove_container,
}

abbrev pub application_text : Text
application_text = codes "llama-cpp"

-- `gatewayContainerNames` of the one allocation that there is
abbrev pub container_name : Text
container_name = codes "paracetamol-gateway-llama-cpp"

abbrev pub gateway_backend_role : Text
gateway_backend_role = codes "gateway-backend"

abbrev pub is_known : Allocation → Bool
is_known a = a == llama_cpp

-- What the rest of the program gives: the image of the application, the command and the port of
-- `command` (none for an error), that port with `/tcp`, and how many ticks pass until the context of
-- `waitReady` is done.
pub record BackendOptions : Type 0 where
  pub image : Text
  pub command : Option (List Text × ℕ)
  pub port_argument : Text
  pub ticks : ℕ

-- the labels of a container of the gateway
unfoldable pub is_owned : (Text → Text) → Bool
unfolding equal
is_owned labels =
    equal (labels managed_container_label) (codes "true")
    && equal (labels managed_application_label) application_text
    && equal (labels managed_role_label) gateway_backend_role

abbrev pub follow_unless : Option Allocation → Allocation → Action (Unit {0})
follow_unless none a m = (ok tt, record m { follower = some a })
follow_unless (some active) a m = (err already_following, m)

unfoldable pub follow_backend_logs : Allocation → Action (Unit {0})
follow_backend_logs a m = follow_unless m.follower a m

-- the follower when the logs of `a` are not followed any more
abbrev pub unfollow : Allocation → Option Allocation → Option Allocation
unfollow a none = none
unfollow a (some active) = if active == a then none else some active

unfoldable pub stop_following : Allocation → Machine → Machine
stop_following a m = record m { follower = unfollow a m.follower }

-- the loop over the managed containers: whether one is the target, unless one is not
unfoldable pub target_seen : List Text → Bool → Action Bool
unfolding equal
target_seen [] seen = pure seen
target_seen (name ∷ names) seen = do
  fail_if (not (equal name container_name)) managed_container_exists
  target_seen names true

-- whether a probe was answered
abbrev pub is_up : Reply → Bool
is_up not_run = false
is_up (exited status out errors) = status == 0

-- the result of the command that starts the container
abbrev pub started : Reply → Action (Unit {0})
started not_run = fail start_failed
started (exited status out errors) = fail_if (not (status == 0)) start_failed

abbrev pub listed : Allocation → List Allocation → Bool
listed a [] = false
listed a (b ∷ seen) = b == a || listed a seen

module _ (host : Host) (formats : Formats) where
  -- the part of `requireAvailable` behind the labels
  unfoldable pub reclaim : Bool → (Text → Text) → Action (Unit {0})
  unfolding remove_container is_owned
  reclaim allowed labels = do
    fail_if (not (is_owned labels)) unexpected_labels
    fail_if (not allowed) already_exists
    remove_container host container_name

  -- and behind the question whether the container exists; `seen` is `targetSeen`
  unfoldable pub reclaim_present : Bool → Bool → Bool → Action (Unit {0})
  unfolding container_labels reclaim
  reclaim_present allowed seen false = pure tt
  reclaim_present allowed seen true = do
    fail_if (not seen) name_occupied
    labels ← container_labels host formats container_name
    reclaim allowed labels

  unfoldable pub require_available : Bool → Action (Unit {0})
  unfolding managed_container_names target_seen exists reclaim_present
  require_available allowed = do
    names ← managed_container_names host application_text
    seen ← target_seen names false
    present ← exists host (codes "container") container_name
    reclaim_present allowed seen present

  -- `removeOwned` behind the labels
  unfoldable pub remove_if_owned : (Text → Text) → Action (Unit {0})
  unfolding remove_container is_owned
  remove_if_owned labels = do
    fail_if (not (is_owned labels)) unexpected_labels
    remove_container host container_name

  unfoldable pub remove_present : Bool → Action (Unit {0})
  unfolding container_labels remove_if_owned
  remove_present false = pure tt
  remove_present true = do
    labels ← container_labels host formats container_name
    remove_if_owned labels

  unfoldable pub remove_owned : Action (Unit {0})
  unfolding exists remove_present
  remove_owned = do present ← exists host (codes "container") container_name; remove_present present

  -- the part of a round of `waitReady` behind a probe that failed
  unfoldable pub require_present : Action (Unit {0})
  unfolding exists
  require_present = do
    present ← exists host (codes "container") container_name
    fail_if (not present) exited_early

  -- the part of a round behind the probe, given the rounds that are to follow
  abbrev pub next_round : Action (Unit {0}) → Bool → Action (Unit {0})
  next_round rest true = pure tt
  next_round rest false = do require_present; rest

  -- `waitReady`, with the ticks that are left until the context is done
  unfoldable pub wait_ready : ℕ → Action (Unit {0})
  unfolding require_present
  wait_ready zero = do reply ← call host probe; next_round (fail not_ready) (is_up reply)
  wait_ready (suc n) = do reply ← call host probe; next_round (wait_ready n) (is_up reply)

  -- the deferred function of `Start`
  unfoldable pub clean_up : Allocation → ControlError → Machine → ControlError × Machine
  unfolding remove_owned stop_following
  clean_up a e m =
      let (removed, m') = remove_owned (stop_following a m) in
      (elim removed [ ok done ↦ e | err e' ↦ cleanup_failed e e' ], m')

  -- `Start` behind the command that was run, and from the command on
  unfoldable pub serve_backend : Allocation → BackendOptions → ℕ → Action ℕ
  unfolding follow_backend_logs published_loopback_port wait_ready
  serve_backend a options port = do
    follow_backend_logs a
    host_port ← published_loopback_port host formats container_name port options.port_argument
    wait_ready options.ticks
    pure host_port

  unfoldable pub launch_backend : Allocation → BackendOptions → List Text → ℕ → Action ℕ
  unfolding serve_backend
  launch_backend a options command port = do
    reply ← call host (launch command)
    started reply
    serve_backend a options port

  -- an action with the deferred function behind it
  unfoldable pub clean_up_failed : Allocation → Result ControlError ℕ → Action ℕ
  unfolding clean_up
  clean_up_failed a (ok port) m = (ok port, m)
  clean_up_failed a (err e) m = let (e', m') = clean_up a e m in (err e', m')

  unfoldable pub run_command : BackendOptions → Allocation → Option (List Text × ℕ) → Action ℕ
  unfolding launch_backend clean_up_failed
  run_command options a none m = (err bad_command, m)
  run_command options a (some (command, port)) m =
      let (result, m') = launch_backend a options command port m in clean_up_failed a result m'

  -- `Start`
  unfoldable pub start_backend : BackendOptions → Allocation → Action ℕ
  unfolding require_available run_command
  start_backend options a = do
    fail_if (not (is_known a)) unknown_allocation
    require_available true
    run_command options a options.command

  -- `Stop`
  unfoldable pub stop_backend : Allocation → Action (Unit {0})
  unfolding remove_owned stop_following
  stop_backend a = do
    fail_if (not (is_known a)) unknown_allocation
    λ m. remove_owned (stop_following a m)

  -- the rest of a round of `Preflight`, for an allocation that was seen or not
  unfoldable pub preflight_new : BackendOptions → Bool → Action (Unit {0})
  unfolding exists require_available
  preflight_new options true = pure tt
  preflight_new options false = do
    present ← exists host (codes "image") options.image
    fail_if (not present) image_missing
    require_available true

  -- the loop of `Preflight`, with the allocations that were seen
  unfoldable pub preflight_each :
      BackendOptions → List Allocation → List Allocation → Action (Unit {0})
  unfolding preflight_new
  preflight_each options seen [] = pure tt
  preflight_each options seen (a ∷ rest) = do
    fail_if (not (is_known a)) unknown_allocation
    preflight_new options (listed a seen)
    preflight_each options (a ∷ seen) rest

  -- `Preflight`
  unfoldable pub preflight : BackendOptions → List Allocation → Action (Unit {0})
  unfolding require_rootless preflight_each
  preflight options allocations = do require_rootless host; preflight_each options [] allocations
