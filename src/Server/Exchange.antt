-- ===== src/Server/Exchange.antt =====
-- What one chat request meets on its way, and what the handler does. Headers, logs and the texts of
-- error messages are left out.
use paracetamol.Base.{ℕ, ◌-◌, ◌*◌, ◌/◌, Bool, true, false, Option, some, ltb, if◌then◌else◌}
use paracetamol.Base.Int.{ℤ, pos}
use paracetamol.Text.{Text}
use paracetamol.Ledger.Usage.{RequestRecord}
use paracetamol.Scheduler.State.{
  Allocation, Err, queue_full, shutting_down, start_failed, stop_failed,
}
use paracetamol.Observer.State.{ResponseObservation}

abbrev pub max_request_bytes : ℕ
max_request_bytes = 16 * 1024 * 1024

-- the fields of a `Model` of the registry that the handler reads
pub record RegistryModel : Type 0 where
  pub id : Text
  pub application : Text
  pub backend : Allocation

-- the fields of a `requestObservation` that the handler reads, apart from the controls
pub record RequestObservation : Type 0 where
  pub model : Text
  pub stream : Bool

-- what reading the body comes to: an error, with the verdict on the context, or at most one byte
-- more than the limit
pub data BodyRead : Type 0 where
  unreadable : Bool → BodyRead
  bytes : Text → BodyRead

-- what `Acquire` returns: an error that is `context.Canceled`, another one, or a lease
pub data Acquired : Type 0 where
  gone : Acquired
  refused : Err → Acquired
  granted : Acquired

-- What serving the proxy comes to: whether it was aborted, and whether the context was done then;
-- whether the error handler ran with a context that was not done; the status that the response
-- writer had before; whether the context is done at the end; and what the observer has seen, if
-- there was a response.
pub record Proxied (F : Type 0) : Type 0 where
  pub aborted : Bool
  pub canceled_then : Bool
  pub disconnected : Bool
  pub status : ℕ
  pub canceled : Bool
  pub observation : Option (ResponseObservation F)

-- One request: what the header of the record holds, whether the gateway accepts requests, what the
-- calls come to, and the times of the clock, in nanoseconds and (`started_at`, `finished_at`) as text.
pub record Exchange (F : Type 0) : Type 0 where
  pub id : Text
  pub session_id : Text
  pub peer : Text
  pub user_agent : Text
  pub accepting : Bool
  pub body : BodyRead
  pub acquired : Acquired
  pub proxied : Proxied F
  pub started_at : Text
  pub finished_at : Text
  pub started : ℕ
  pub wait_started : ℕ
  pub wait_finished : ℕ
  pub upstream_started : ℕ
  pub upstream_finished : ℕ
  pub finished : ℕ

-- `inspectRequest`, `Lookup`, `validateRequestMedia` and `applySamplingDefaults`, which gives the body
-- for the backend
pub record Requests : Type 0 where
  pub inspect : Text → Option RequestObservation
  pub lookup_model : Text → Option RegistryModel
  pub valid_media : Text → RegistryModel → Bool
  pub with_defaults : Text → RegistryModel → Option Text

-- What the handler does: calls of the ledger, of the statistics and of the scheduler, an error that
-- it answers, the body that it passes on, and the panic with `http.ErrAbortHandler`.
pub data Effect (F : Type 0) : Type 0 where
  tracks : RequestRecord F → Text → Effect F
  untracks : Text → Effect F
  adds persists : RequestRecord F → Effect F
  responds : ℕ → Text → Effect F
  acquires : Allocation → Effect F
  fails releases aborts : Effect F
  proxies : Text → Effect F

-- a time that is zero is `none`
unfoldable pub elapsed_milliseconds : Option ℕ → Option ℕ → ℤ
elapsed_milliseconds (some start) (some finish) =
    if ltb finish start then pos 0 else pos ((finish - start) / 1000000)
elapsed_milliseconds _ _ = pos 0

-- `errors.Is` through the errors that wrap another
unfoldable pub is_queue_full : Err → Bool
is_queue_full (start_failed a e) = is_queue_full e
is_queue_full (stop_failed a e) = is_queue_full e
is_queue_full queue_full = true
is_queue_full e = false

unfoldable pub is_shutting_down : Err → Bool
is_shutting_down (start_failed a e) = is_shutting_down e
is_shutting_down (stop_failed a e) = is_shutting_down e
is_shutting_down shutting_down = true
is_shutting_down e = false
