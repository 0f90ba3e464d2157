-- ===== src/Lifecycle/Port.antt =====
-- `PublishedLoopbackPort` and `followBackendLogs` as steps of the lifecycle.
use paracetamol.Base.{ℕ, not, ◌&&◌, Option, none, some, List, [], ◌∷◌, ◌≡◌, refl, sym}
use paracetamol.Text.{Text, codes, equal}
use paracetamol.Scheduler.State.{Allocation}
use paracetamol.Podman.Machine.{invalid_port, not_loopback, Machine, Host, pure, fail, ◌>>=◌}
use paracetamol.Podman.Client.{
  Formats, fields_from, valid_port, port_number, split_port, capture, published_port,
  published_loopback_port,
}
use paracetamol.Podman.Holds.{returns, raises, After, bind-After, if-After}
use paracetamol.Lifecycle.Container.{follow_unless, follow_backend_logs}
use paracetamol.Lifecycle.Careful.{Kept}
use paracetamol.Lifecycle.Calls.{Keeps, guard-After, capture-Keeps}

module _ (host : Host) (formats : Formats) (n : ℕ) (f : Option Allocation) where
  port_number-Keeps :
      (address : Text) (number : Option ℕ) (m : Machine)
      → Kept formats n f m
      → Keeps host formats n f (port_number formats address number) m
  port_number-Keeps address none m h = raises h
  port_number-Keeps address (some port) m h =
      if-After (formats.is_loopback address && valid_port port) (pure port) (fail not_loopback) m
        (λ p. returns h) (λ p. raises h)

  split_port-Keeps :
      (parts : Option (Text × Text)) (m : Machine)
      → Kept formats n f m
      → Keeps host formats n f (split_port formats parts) m
  split_port-Keeps none m h = raises h
  split_port-Keeps (some (address, text)) m h = port_number-Keeps address (formats.atoi text) m h

  published_port-Keeps :
      (lines : List Text) (m : Machine)
      → Kept formats n f m
      → Keeps host formats n f (published_port formats lines) m
  unfolding published_port
  published_port-Keeps [] m h = raises h
  published_port-Keeps (line ∷ []) m h = split_port-Keeps (formats.split_host_port line) m h
  published_port-Keeps (line ∷ other ∷ lines) m h = raises h

  pub published_loopback_port-Keeps :
      (name : Text) (port : ℕ) (argument : Text) (m : Machine)
      → Kept formats n f m
      → Keeps host formats n f (published_loopback_port host formats name port argument) m
  unfolding published_loopback_port equal
  published_loopback_port-Keeps name port argument m h =
      let read = λ (raw : Text). published_port formats (fields_from [] raw) in
      guard-After host formats n f (not (valid_port port)) invalid_port
        (capture host (codes "port" ∷ name ∷ argument ∷ []) >>= read) m (λ p. h)
        (λ p.
          bind-After {Q = λ raw. Kept formats n f}
            (capture host (codes "port" ∷ name ∷ argument ∷ [])) read m
            (capture-Keeps host formats n f (codes "port" ∷ name ∷ argument ∷ []) m refl h)
            (λ raw. published_port-Keeps (fields_from [] raw)))

  follow_unless-After :
      (g : Option Allocation) (a : Allocation) (m : Machine)
      → f ≡ g
      → Kept formats n f m
      → After
          (λ done m'. Kept formats n (some a) m' × (f ≡ none))
          (λ e. Kept formats n f)
          (follow_unless g a)
          m
  follow_unless-After none a m e h =
      returns (record { careful = h.careful; launched = h.launched; following = refl }, e)
  follow_unless-After (some active) a m e h = raises h

  pub follow_After :
      (a : Allocation) (m : Machine)
      → Kept formats n f m
      → After
          (λ done m'. Kept formats n (some a) m' × (f ≡ none))
          (λ e. Kept formats n f)
          (follow_backend_logs a)
          m
  unfolding follow_backend_logs
  follow_After a m h = follow_unless-After m.follower a m (sym h.following) h
