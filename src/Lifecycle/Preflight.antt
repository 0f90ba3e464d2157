-- ===== src/Lifecycle/Preflight.antt =====
-- `Preflight` of the lifecycle.
use paracetamol.Base.{
  ℕ, ◌==◌, Bool, true, false, not, ◌&&◌, Option, List, [], ◌∷◌, ◌≡◌, refl, arith,
}
use paracetamol.Text.{codes, equal, trim_space}
use paracetamol.Scheduler.State.{Allocation}
use paracetamol.Podman.Machine.{
  Call, Reply, not_run, exited, podman, look_path, not_installed, cannot_query, rootful,
  unknown_allocation, image_missing, Machine, Host, ◌>>=◌, ◌>>◌, fail_if, call,
}
use paracetamol.Podman.Client.{Formats, exists, is_missing, rootless_reply, require_rootless}
use paracetamol.Podman.Holds.{returns, raises, After, bind-After, fail_if-After, weaken}
use paracetamol.Lifecycle.Container.{
  BackendOptions, is_known, listed, require_available, preflight_new, preflight_each, preflight,
}
use paracetamol.Lifecycle.Careful.{is_careful, launches, Kept}
use paracetamol.Lifecycle.Calls.{Keeps, call-After, guard-After, image_exists, Removed}
use paracetamol.Lifecycle.Available.{require_available-After}

abbrev pub all_known : List Allocation → Bool
all_known [] = true
all_known (a ∷ rest) = is_known a && all_known rest

module _ (host : Host) (formats : Formats) (n : ℕ) (f : Option Allocation) where
  rootless_reply-Keeps :
      (reply : Reply) (m : Machine)
      → Kept formats n f m
      → Keeps host formats n f (rootless_reply reply) m
  rootless_reply-Keeps not_run m h = raises h
  rootless_reply-Keeps (exited status out errors) m h =
      guard-After host formats n f (not (status == 0)) cannot_query
        (fail_if (not (equal (trim_space out) (codes "true"))) rootful) m (λ p. h)
        (λ p.
          fail_if-After (not (equal (trim_space out) (codes "true"))) rootful m (λ q. h) (λ q. h))

  require_rootless-Keeps :
      (m : Machine) → Kept formats n f m → Keeps host formats n f (require_rootless host) m
  unfolding require_rootless equal
  require_rootless-Keeps m h =
      let info : Call =
        podman (codes "info" ∷ codes "--format" ∷ codes "{{.Host.Security.Rootless}}" ∷ []) in
      call-After host formats n f (look_path (codes "podman"))
        (λ found. fail_if (is_missing found) not_installed >> (call host info >>= rootless_reply)) m
        refl h
        (λ found h1.
          guard-After host formats n f (is_missing found) not_installed
            (call host info >>= rootless_reply) _ (λ p. h1)
            (λ p.
              call-After host formats n f info rootless_reply _ refl h1
                (λ reply h2. rootless_reply-Keeps reply _ h2)))

  removed_Kept : (m : Machine) → Removed host formats n f tt m → Kept formats n f m
  unfolding Removed
  removed_Kept m h = h.0

  preflight_new-Keeps :
      (options : BackendOptions) (b : Bool) (m : Machine)
      → Kept formats n f m
      → Keeps host formats n f (preflight_new host formats options b) m
  unfolding preflight_new
  preflight_new-Keeps options true m h = returns h
  preflight_new-Keeps options false m h =
      bind-After {Q = λ present. Kept formats n f} (exists host (codes "image") options.image)
        (λ present. fail_if (not present) image_missing >> require_available host formats true) m
        (image_exists host formats n f options.image m h)
        (λ present m1 h1.
          guard-After host formats n f (not present) image_missing
            (require_available host formats true) m1 (λ p. h1)
            (λ p.
              weaken (require_available host formats true m1).0 _ (λ done q. removed_Kept _ q)
                (λ e q. q) (require_available-After host formats n f true m1 h1)))

  preflight_each-After :
      (options : BackendOptions) (seen rest : List Allocation) (m : Machine)
      → Kept formats n f m
      → After
          (λ done m'. Kept formats n f m' × (all_known rest ≡ true))
          (λ e. Kept formats n f)
          (preflight_each host formats options seen rest)
          m
  unfolding preflight_each
  preflight_each-After options seen [] m h = returns (h, refl)
  preflight_each-After options seen (a ∷ rest) m h =
      let loop = preflight_each host formats options (a ∷ seen) rest in
      guard-After host formats n f (not (is_known a)) unknown_allocation
        (preflight_new host formats options (listed a seen) >> loop) m (λ p. h)
        (λ known.
          bind-After {Q = λ done. Kept formats n f}
            (preflight_new host formats options (listed a seen)) (λ done. loop) m
            (preflight_new-Keeps options (listed a seen) m h)
            (λ done m1 h1.
              weaken (loop m1).0 _ (λ done q. (q.0, ground (arith, known, q.1))) (λ e q. q)
                (preflight_each-After options (a ∷ seen) rest m1 h1)))

module _ (host : Host) (formats : Formats) where
  -- `Preflight` after careful calls makes careful calls, starts nothing and leaves the follower alone,
  -- also when it fails; it succeeds only if every allocation is known.
  preflight_lem :
      (options : BackendOptions) (allocations : List Allocation) (m : Machine)
      → is_careful formats m.calls ≡ true
      → After
          (λ done m'.
            Kept formats (launches m.calls) m.follower m' × (all_known allocations ≡ true))
          (λ e. Kept formats (launches m.calls) m.follower)
          (preflight host formats options allocations)
          m
  unfolding preflight
  preflight_lem options allocations m h =
      let n = launches m.calls in
      let kept : Kept formats n m.follower m = record {
        careful = h;
        launched = refl;
        following = refl;
      } in
      bind-After {Q = λ done. Kept formats n m.follower} (require_rootless host)
        (λ done. preflight_each host formats options [] allocations) m
        (require_rootless-Keeps host formats n m.follower m kept)
        (λ done m1 h1. preflight_each-After host formats n m.follower options [] allocations m1 h1)
