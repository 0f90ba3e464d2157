-- ===== src/Lifecycle/Start.antt =====
-- `Start` and `Stop` of the lifecycle, on every path.
use paracetamol.Base.{
  ℕ, suc, ◌==◌, true, not, Option, none, some, List, ◌∷◌, ◌≡◌, refl, ◌⊎◌, inl, inr, arith, ap,
  subst,
}
use paracetamol.Base.Result.{Result, ok, err}
use paracetamol.Text.{Text}
use paracetamol.Scheduler.State.{Allocation, Err, backend, backend_cleanup, is_cleanup}
use paracetamol.Podman.Machine.{
  Reply, not_run, exited, launch, ControlError, cleanup_failed, unknown_allocation, start_failed,
  Machine, Host, pure, ◌>>=◌, ◌>>◌,
}
use paracetamol.Podman.Client.{Formats, published_loopback_port}
use paracetamol.Podman.Holds.{Holds, returns, raises, After, bind-After, fail_if-After, weaken}
use paracetamol.Lifecycle.Container.{
  BackendOptions, container_name, is_known, unfollow, stop_following, follow_backend_logs,
  require_available, remove_owned, wait_ready, clean_up, started, serve_backend, launch_backend,
  clean_up_failed, run_command, start_backend, stop_backend,
}
use paracetamol.Lifecycle.Careful.{is_free, is_careful, launches, is_allowed, is_ready, Kept}
use paracetamol.Lifecycle.Calls.{guard-After, Removed}
use paracetamol.Lifecycle.Available.{
  remove_owned-After, require_available-After, Ready, wait_ready-After,
}
use paracetamol.Lifecycle.Port.{published_loopback_port-Keeps, follow_After}

-- the scheduler's view of an error of the lifecycle: `errors.As` with a `backendCleanupError`
unfoldable pub to_err : ControlError → Err
to_err (cleanup_failed e e') = backend_cleanup 0
to_err e = backend 0

module _ (host : Host) (formats : Formats) where
  -- A backend was started and has answered a probe, and its logs are followed.
  unfoldable pub Serving : ℕ → Allocation → ℕ → Machine → Type 0
  Serving n a port m = Kept formats (suc n) (some a) m × (is_ready m.calls ≡ true)

  -- A backend may have been started.
  unfoldable Begun : ℕ → Option Allocation → Allocation → ControlError → Machine → Type 0
  Begun n f a e m =
      (g : Option Allocation) × Kept formats (suc n) g m × (unfollow a g ≡ unfollow a f)

  -- Nothing was started; or the logs of the backend are not followed any more, and its name is free
  -- or the scheduler is told that the clean-up failed.
  unfoldable pub Undone : ℕ → Option Allocation → Allocation → ControlError → Machine → Type 0
  Undone n f a e m =
      Kept formats n f m
      ⊎ (Kept formats (suc n) (unfollow a f) m
          × ((is_cleanup (to_err e) ≡ true) ⊎ (is_free m.calls ≡ true)))

  unfollow_twice : (a : Allocation) → unfollow a (some a) ≡ none
  unfollow_twice a = ground (arith)

  stop_following-Kept :
      (n : ℕ) (f : Option Allocation) (a : Allocation) (m : Machine)
      → Kept formats n f m
      → Kept formats n (unfollow a f) (stop_following a m)
  unfolding stop_following
  stop_following-Kept n f a m h = record {
    careful = h.careful;
    launched = h.launched;
    following = ap (unfollow a) h.following;
  }

  launch-Kept :
      (n : ℕ) (f : Option Allocation) (command : List Text) (reply : Reply) (m : Machine)
      → Removed host formats n f tt m
      → Kept formats (suc n) f (record m { calls = (launch command, reply) ∷ m.calls })
  unfolding Removed is_careful launches is_allowed
  launch-Kept n f command reply m (h, free) = record {
    careful = ground (arith, free, h.careful);
    launched = ap suc h.launched;
    following = h.following;
  }

  serve_After :
      (n : ℕ) (f : Option Allocation) (a : Allocation) (options : BackendOptions) (port : ℕ)
      (m : Machine)
      → Kept formats (suc n) f m
      → After (Serving n a) (Begun n f a) (serve_backend host formats a options port) m
  unfolding serve_backend Serving Begun Ready
  serve_After n f a options port m h =
      let wait = λ (host_port : ℕ). wait_ready host formats options.ticks >> pure host_port in
      let port_then =
        published_loopback_port host formats container_name port options.port_argument >>= wait in
      bind-After {Q = λ done m'. Kept formats (suc n) (some a) m' × (f ≡ none)}
        (follow_backend_logs a) (λ done. port_then) m
        (weaken (follow_backend_logs a m).0 _ (λ done q. q) (λ e q. (f, q, refl))
          (follow_After host formats (suc n) f a m h))
        (λ done m1 q1.
          bind-After {Q = λ host_port. Kept formats (suc n) (some a)}
            (published_loopback_port host formats container_name port options.port_argument) wait m1
            (weaken
              (published_loopback_port host formats container_name port options.port_argument m1).0
              _ (λ x q. q) (λ e q. (some a, q, rw q1.1 (unfollow_twice a)))
              (published_loopback_port-Keeps host formats (suc n) (some a) container_name port
                options.port_argument m1 q1.0))
            (λ host_port m2 q2.
              bind-After {Q = Ready host formats (suc n) (some a)}
                (wait_ready host formats options.ticks) (λ done. pure host_port) m2
                (weaken (wait_ready host formats options.ticks m2).0 _ (λ x q. q)
                  (λ e q. (some a, q, rw q1.1 (unfollow_twice a)))
                  (wait_ready-After host formats (suc n) (some a) options.ticks m2 q2))
                (λ done m3 q3. returns q3)))

  started_After :
      (n : ℕ) (f : Option Allocation) (reply : Reply) (m : Machine)
      → Kept formats n f m
      → After (λ done. Kept formats n f) (λ e. Kept formats n f) (started reply) m
  started_After n f not_run m h = raises h
  started_After n f (exited status out errors) m h =
      fail_if-After (not (status == 0)) start_failed m (λ p. h) (λ p. h)

  launch_After :
      (n : ℕ) (f : Option Allocation) (a : Allocation) (options : BackendOptions)
      (command : List Text) (port : ℕ) (m : Machine)
      → Removed host formats n f tt m
      → After (Serving n a) (Begun n f a) (launch_backend host formats a options command port) m
  unfolding launch_backend Begun
  launch_After n f a options command port m h =
      let reply = host m.calls (launch command) in
      let m' : Machine = record m { calls = (launch command, reply) ∷ m.calls } in
      bind-After {Q = λ done. Kept formats (suc n) f} (started reply)
        (λ done. serve_backend host formats a options port) m'
        (weaken (started reply m').0 _ (λ done q. q) (λ e q. (f, q, refl))
          (started_After (suc n) f reply m' (launch-Kept n f command reply m h)))
        (λ done m1 q. serve_After n f a options port m1 q)

  cleaned :
      (n : ℕ) (f : Option Allocation) (a : Allocation) (e : ControlError)
      (removed : Result ControlError (Unit {0})) (m : Machine)
      → Holds
          (Removed host formats (suc n) (unfollow a f))
          (λ e'. Kept formats (suc n) (unfollow a f))
          removed
          m
      → Undone n f a (elim removed [ ok done ↦ e | err e' ↦ cleanup_failed e e' ]) m
  unfolding Undone Removed to_err is_cleanup
  cleaned n f a e (ok done) m (returns q) = inr (q.0, inr q.1)
  cleaned n f a e (err e') m (raises q) = inr (q, inl refl)

  clean_up_After :
      (n : ℕ) (f : Option Allocation) (a : Allocation) (result : Result ControlError ℕ)
      (m : Machine)
      → Holds (Serving n a) (Begun n f a) result m
      → After (Serving n a) (Undone n f a) (clean_up_failed host formats a result) m
  unfolding clean_up_failed clean_up Begun
  clean_up_After n f a (ok port) m (returns q) = returns q
  clean_up_After n f a (err e) m (raises (g, h, p)) = raises (
      cleaned n f a e _ _ (
        remove_owned-After host formats (suc n) (unfollow a f) (stop_following a m) (
          subst (λ t. Kept formats (suc n) t (stop_following a m)) p
            (stop_following-Kept (suc n) g a m h))))

  run_command-After :
      (n : ℕ) (f : Option Allocation) (a : Allocation) (options : BackendOptions)
      (command : Option (List Text × ℕ)) (m : Machine)
      → Removed host formats n f tt m
      → After (Serving n a) (Undone n f a) (run_command host formats options a command) m
  unfolding run_command Undone Removed
  run_command-After n f a options none m h = raises (inl h.0)
  run_command-After n f a options (some (command, port)) m h =
      clean_up_After n f a (launch_backend host formats a options command port m).0 _
        (launch_After n f a options command port m h)

  -- From careful calls, `Start` makes careful calls: a container is removed only if it is that of the
  -- gateway and the call before showed it to have the labels of the gateway, and one is started only
  -- if the call before showed its name to be free. When it returns a URL, one more container was
  -- started, its last call was a probe that was answered, and the logs are followed. When it fails,
  -- either nothing was started and the follower is the one before; or one container was, its logs are
  -- not followed, and the error is one of the clean-up or the last call showed that the name is free.
  pub start_backend_lem :
      (options : BackendOptions) (a : Allocation) (m : Machine)
      → is_careful formats m.calls ≡ true
      → After
          (Serving (launches m.calls) a)
          (Undone (launches m.calls) m.follower a)
          (start_backend host formats options a)
          m
  unfolding start_backend Undone
  start_backend_lem options a m h =
      let n = launches m.calls in
      let kept : Kept formats n m.follower m = record {
        careful = h;
        launched = refl;
        following = refl;
      } in
      let run = λ (done : Unit {0}). run_command host formats options a options.command in
      guard-After host formats n m.follower (not (is_known a)) unknown_allocation
        (require_available host formats true >>= run) m (λ p. inl kept)
        (λ p.
          bind-After {Q = Removed host formats n m.follower} (require_available host formats true)
            run m
            (weaken (require_available host formats true m).0 _ (λ done q. q) (λ e q. inl q)
              (require_available-After host formats n m.follower true m kept))
            (λ done m' q. run_command-After n m.follower a options options.command m' q))

  -- For an allocation that is known, `Stop` after careful calls makes careful calls and starts
  -- nothing. When it succeeds, the last call showed that the name of the container is free. Whether
  -- it succeeds or fails, the logs of the allocation are not followed any more.
  pub stop_backend_lem :
      (a : Allocation) (m : Machine)
      → is_careful formats m.calls ≡ true
      → is_known a ≡ true
      → After
          (λ done m'.
            Kept formats (launches m.calls) (unfollow a m.follower) m' × (is_free m'.calls ≡ true))
          (λ e. Kept formats (launches m.calls) (unfollow a m.follower))
          (stop_backend host formats a)
          m
  unfolding stop_backend Removed
  stop_backend_lem a m h known =
      let n = launches m.calls in
      let kept : Kept formats n m.follower m = record {
        careful = h;
        launched = refl;
        following = refl;
      } in
      guard-After host formats n m.follower (not (is_known a)) unknown_allocation
        (λ m'. remove_owned host formats (stop_following a m')) m
        (λ p. absurd (ground (arith, p, known)))
        (λ p.
          remove_owned-After host formats n (unfollow a m.follower) (stop_following a m)
            (stop_following-Kept n m.follower a m kept))
