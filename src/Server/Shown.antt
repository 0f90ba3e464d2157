-- ===== src/Server/Shown.antt =====
-- What the effects of the chat handler show to the others.
use paracetamol.Base.{Bool, true, false, ◌||◌, Option, none, some, List, [], ◌∷◌, ◌++◌}
use paracetamol.Ledger.Usage.{
  RequestRecord, RequestOutcome, outcome_succeeded, outcome_rejected, outcome_canceled,
  outcome_queue_full, outcome_backend_start_failed, outcome_upstream_error, unnamed,
}
use paracetamol.Server.Exchange.{RegistryModel, Effect, adds, persists, fails, proxies}

-- what one effect shows: the record that is added, the one that is given to the statistics, whether
-- a backend serves the request, and whether the lease is reported as failed
module _ {F : Type 0} where
  abbrev pub added_by : Effect F → List (RequestRecord F)
  added_by (adds r) = r ∷ []
  added_by _ = []

  abbrev pub stored_by : Effect F → List (RequestRecord F)
  stored_by (persists r) = r ∷ []
  stored_by _ = []

  abbrev pub serves : Effect F → Bool
  serves (proxies body) = true
  serves _ = false

  abbrev pub is_failure : Effect F → Bool
  is_failure fails = true
  is_failure _ = false

  unfoldable pub collect : {B : Type 0} → (Effect F → List B) → List (Effect F) → List B
  collect f [] = []
  collect f (x ∷ xs) = f x ++ collect f xs

  unfoldable pub any : (Effect F → Bool) → List (Effect F) → Bool
  any f [] = false
  any f (x ∷ xs) = f x || any f xs

-- the record as the statistics get it
abbrev pub with_identity :
    {F : Type 0} → Option RegistryModel → RequestRecord F → List (RequestRecord F)
with_identity none r = []
with_identity (some model) r = record r { model = model.id; application = model.application } ∷ []

abbrev pub is_success : RequestOutcome → Bool
is_success outcome_succeeded = true
is_success outcome_rejected = false
is_success outcome_canceled = false
is_success outcome_queue_full = false
is_success outcome_backend_start_failed = false
is_success outcome_upstream_error = false
is_success unnamed = false
