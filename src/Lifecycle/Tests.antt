-- ===== src/Lifecycle/Tests.antt =====
-- Runs of the lifecycle against a Podman that works and one that does not start the container.
use paracetamol.Base.{ℕ, Bool, true, not, ◌&&◌, none, some, List, [], ◌∷◌, ◌≡◌, refl, if◌then◌else◌}
use paracetamol.Base.Result.{ok, err}
use paracetamol.Text.{Text, codes, equal, trim_space, is_space}
use paracetamol.Scheduler.State.{llama_cpp}
use paracetamol.Podman.Machine.{
  Call, Reply, not_run, exited, podman, launch, look_path, probe, start_failed, Machine, Host,
}
use paracetamol.Podman.Client.{
  Formats, sort_unique, fields_from, insert_sorted, managed_container_names, exists, capture,
  container_labels, execute, remove_container, published_port, published_loopback_port,
}
use paracetamol.Podman.Holds.{After}
use paracetamol.Lifecycle.Container.{
  BackendOptions, follow_backend_logs, stop_following, target_seen, is_owned, reclaim,
  reclaim_present, require_available, remove_if_owned, remove_present, remove_owned, wait_ready,
  clean_up, serve_backend, launch_backend, clean_up_failed, run_command, start_backend,
  stop_backend,
}
use paracetamol.Lifecycle.Careful.{is_free, is_careful, launches, Kept}
use paracetamol.Lifecycle.Start.{Serving, Undone, start_backend_lem, stop_backend_lem}

abbrev owned_labels : Text → Text
owned_labels label =
    if equal label (codes "io.github.fff7d1bc.paracetamol.managed")
    then codes "true"
    else if equal label (codes "io.github.fff7d1bc.paracetamol.application")
    then codes "llama-cpp"
    else codes "gateway-backend"

abbrev test_formats : Formats
test_formats = record {
  decode_labels = λ text. some owned_labels;
  split_host_port = λ line. some (codes "127.0.0.1", codes "8080");
  is_loopback = λ address. true;
  atoi = λ text. some 8080;
}

-- a container of the gateway is there until something is removed
abbrev stale : List (Call × Reply) → Bool
stale [] = true
stale ((podman arguments, reply) ∷ calls) =
    let rest = stale calls in
    elim arguments [ [] ↦ rest | a ∷ s ↦ not (equal a (codes "rm")) && rest ]
stale ((launch command, reply) ∷ calls) = true
stale ((look_path name, reply) ∷ calls) = stale calls
stale ((probe, reply) ∷ calls) = stale calls

abbrev podman_reply : Bool → List Text → Reply
podman_reply there [] = not_run
podman_reply there (a ∷ s) =
    if equal a (codes "container")
    then exited (if there then 0 else 1) [] []
    else if equal a (codes "ps")
    then exited 0 (if there then codes "paracetamol-gateway-llama-cpp" else []) []
    else if equal a (codes "info")
    then exited 0 (codes "true") []
    else exited 0 (codes "127.0.0.1:8080") []

-- a Podman that works, but whose `run` ends with `status`
abbrev test_host : ℕ → Host
test_host status calls (podman arguments) = podman_reply (stale calls) arguments
test_host status calls (launch command) = exited status [] []
test_host status calls (look_path name) = exited 0 [] []
test_host status calls probe = exited 0 [] []

abbrev test_options : BackendOptions
test_options = record {
  image = codes "image";
  command = some (codes "podman" ∷ codes "run" ∷ [], 8080);
  port_argument = codes "8080/tcp";
  ticks = 3;
}

abbrev fresh : Machine
fresh = record { calls = []; follower = none }

start_works : (start_backend (test_host 0) test_formats test_options llama_cpp fresh).0 ≡ ok 8080
unfolding start_backend require_available managed_container_names sort_unique fields_from
    insert_sorted is_space equal target_seen exists reclaim_present container_labels capture reclaim
    is_owned trim_space remove_container execute run_command launch_backend clean_up_failed
    serve_backend follow_backend_logs published_loopback_port published_port wait_ready
start_works = refl

start_fails :
    (start_backend (test_host 125) test_formats test_options llama_cpp fresh).0 ≡ err start_failed
unfolding start_backend require_available managed_container_names sort_unique fields_from
    insert_sorted is_space equal target_seen exists reclaim_present container_labels capture reclaim
    is_owned trim_space remove_container execute run_command launch_backend clean_up_failed clean_up
    remove_owned remove_present remove_if_owned stop_following
start_fails = refl

start_backend_lem_example :
    After
      (Serving (test_host 125) test_formats 0 llama_cpp)
      (Undone (test_host 125) test_formats 0 none llama_cpp)
      (start_backend (test_host 125) test_formats test_options llama_cpp)
      fresh
unfolding launches is_careful
start_backend_lem_example =
    start_backend_lem (test_host 125) test_formats test_options llama_cpp fresh refl

stop_backend_lem_example :
    After
      (λ done m'. Kept test_formats 0 none m' × (is_free m'.calls ≡ true))
      (λ e. Kept test_formats 0 none)
      (stop_backend (test_host 0) test_formats llama_cpp)
      (record fresh { follower = some llama_cpp })
unfolding launches is_careful
stop_backend_lem_example =
    stop_backend_lem (test_host 0) test_formats llama_cpp
      (record fresh { follower = some llama_cpp }) refl refl
