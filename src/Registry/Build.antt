-- ===== src/Registry/Build.antt =====
-- `buildRegistry` and the functions that call it. The catalog, the receipts and the files are reached
-- through a parameter; the fingerprint is left out.
use paracetamol.Base.{
  ℕ, ◌+◌, ◌==◌, not, ◌&&◌, ◌||◌, Option, none, some, List, [], ◌∷◌, ◌++◌, if◌then◌else◌, ltb,
}
use paracetamol.Base.Result.{Result, ok, err, ◌>>=◌}
use paracetamol.Text.{Text, equal, is_empty}
use paracetamol.Podman.Client.{less_text}
use paracetamol.Registry.State.{
  Building, Candidate, Catalog, Diagnostic, Registry, RegistryError, ServedModel, ambiguous,
  artifacts, backend_llama_cpp, cannot_inspect, cannot_read, is_selected, no_ready_application,
  no_ready_model, nothing_selected, selected_twice, unknown_bundle, unknown_policy, unsupported,
  unsupported_application,
}

-- the loop over the applications, with those that were selected
unfoldable pub select_applications : List Text → List Text → Result RegistryError (List Text)
unfolding equal
select_applications selected [] = ok selected
select_applications selected (application ∷ rest) =
    let next = select_applications (application ∷ selected) rest in
    if not (equal application backend_llama_cpp)
    then err (unsupported_application application)
    else if is_selected application selected
    then err (selected_twice application)
    else next

abbrev pub load_models : Option (List Candidate) → Result RegistryError (List Candidate)
load_models none = err cannot_read
load_models (some models) = ok models

abbrev pub some_selected : List Text → Result RegistryError (List Text)
some_selected [] = err nothing_selected
some_selected (application ∷ rest) = ok (application ∷ rest)

-- the loop of `BuildRegistry` over the selected applications
unfoldable pub require_ready : (Text → ℕ) → List Text → Result RegistryError (List Text)
require_ready ready [] = ok []
require_ready ready (application ∷ rest) =
    let next = require_ready ready rest in
    if ready application == 0 then err (no_ready_model application) else next

-- the filters of `DiscoverRegistry`
unfoldable pub ready_applications : (Text → ℕ) → List Text → List Text
ready_applications ready [] = []
ready_applications ready (application ∷ rest) =
    let others = ready_applications ready rest in
    if ltb 0 (ready application) then application ∷ others else others

unfoldable pub of_ready : (Text → ℕ) → List Diagnostic → List Diagnostic
of_ready ready [] = []
of_ready ready (d ∷ rest) =
    let others = of_ready ready rest in if ltb 0 (ready d.application) then d ∷ others else others

abbrev pub some_ready : List Text → Result RegistryError (List Text)
some_ready [] = err no_ready_application
some_ready (application ∷ rest) = ok (application ∷ rest)

-- what the loop makes of a candidate
pub data Verdict (P : Type 0) : Type 0 where
  skipped : Verdict P
  unavailable : Diagnostic → Verdict P
  serves : ServedModel P → Verdict P
  broken : RegistryError → Verdict P

module _ {P : Type 0} where
  -- `sort.Slice` by the identifiers, which differ
  unfoldable pub insert_model : ServedModel P → List (ServedModel P) → List (ServedModel P)
  insert_model model [] = model ∷ []
  insert_model model (other ∷ rest) =
      let later = insert_model model rest in
      if less_text model.id other.id then model ∷ other ∷ rest else other ∷ later

  unfoldable pub sort_models : List (ServedModel P) → List (ServedModel P)
  unfolding insert_model
  sort_models [] = []
  sort_models (model ∷ rest) = insert_model model (sort_models rest)

module _ {P : Type 0} where
  unfoldable pub appended : Building P → ServedModel P → Building P
  unfolding equal
  appended b model = record b {
    registry = record {
      models = b.registry.models ++ model ∷ [];
      by_id = λ id. if equal model.id id then some model else b.registry.by_id id;
    };
    ready_by_application = λ application.
        if equal model.application application
        then b.ready_by_application application + 1
        else b.ready_by_application application;
  }

  -- a model that the loop appends, given what the registry has under its identifier
  unfoldable pub append_model :
      Building P → ServedModel P → Option (ServedModel P) → Result RegistryError (Building P)
  unfolding appended
  append_model b model (some other) = err (ambiguous model.id)
  append_model b model none = ok (appended b model)

  unfoldable pub apply_verdict : Building P → Verdict P → Result RegistryError (Building P)
  unfolding append_model
  apply_verdict b skipped = ok b
  apply_verdict b (unavailable d) = ok (record b { diagnostics = b.diagnostics ++ d ∷ [] })
  apply_verdict b (serves model) = append_model b model (b.registry.by_id model.id)
  apply_verdict b (broken e) = err e

  abbrev pub nothing_built : Building P
  nothing_built = record {
    registry = record { models = []; by_id = λ id. none };
    diagnostics = [];
    ready_by_application = λ application. 0;
  }

  abbrev pub sorted_registry : Building P → Building P
  sorted_registry b = record b {
    registry = record { models = sort_models b.registry.models; by_id = b.registry.by_id };
  }

  -- `Lookup`
  abbrev pub lookup_model : Registry P → Text → Option (ServedModel P)
  lookup_model registry id = registry.by_id id

  -- `IDs`
  unfoldable pub ids : Text → List (ServedModel P) → List Text
  unfolding equal
  ids application [] = []
  ids application (model ∷ rest) =
      let others = ids application rest in
      if is_empty application || equal model.application application
      then model.id ∷ others
      else others

module _ {P : Type 0} (catalog : Catalog P) where
  -- the artifacts that are not ready
  abbrev pub not_ready : List (Text × Text) → List (Text × Text)
  not_ready [] = []
  not_ready ((artifact, state) ∷ rest) =
      let others = not_ready rest in
      if catalog.is_ready_state state then others else (artifact, state) ∷ others

  abbrev pub model_of : Candidate → Option P → ServedModel P
  model_of c defaults = record {
    id = c.id;
    application = c.backend;
    context = c.context;
    max_output_tokens = c.max_output_tokens;
    agent_tools = c.agent_tools;
    vision = c.vision;
    reasoning_control = c.reasoning_control;
    reasoning_levels = c.reasoning_levels;
    reasoning_default = c.reasoning_default;
    reasoning_off = c.reasoning_off;
    sampling_policy = c.sampling_policy;
    backend = c.backend;
    bundle = c.bundle;
    sampling_defaults = defaults;
  }

  -- the policy of a candidate, if it names one
  abbrev pub with_policy : Candidate → Option P → Verdict P
  with_policy c none = broken (unknown_policy c.sampling_policy)
  with_policy c (some defaults) = serves (model_of c (some defaults))

  -- a candidate whose artifacts are inspected
  unfoldable pub judge_inspected : Candidate → Option (List (Text × Text)) → Verdict P
  judge_inspected c none = broken (cannot_inspect c.bundle)
  judge_inspected c (some []) =
      unavailable (record { application = c.backend; model = c.id; reason = artifacts [] })
  judge_inspected c (some (status ∷ statuses)) = elim (not_ready (status ∷ statuses)) [
    | [] ↦
        if is_empty c.sampling_policy
        then serves (model_of c none)
        else with_policy c (catalog.policy c.sampling_policy)
    | first ∷ others ↦
        unavailable
          (record { application = c.backend; model = c.id; reason = artifacts (first ∷ others) })
  ]

  -- the body of the loop, up to the test for a duplicate
  unfoldable pub judge : List Text → Candidate → Verdict P
  unfolding equal judge_inspected
  judge selected c =
      if not (is_selected c.backend selected)
      then skipped
      else if equal c.backend backend_llama_cpp && not (catalog.supports_runtime c.id)
      then unavailable (record { application = c.backend; model = c.id; reason = unsupported })
      else if not (catalog.has_bundle c.bundle)
      then broken (unknown_bundle c.bundle)
      else judge_inspected c (catalog.inspect_bundle c.bundle)

  unfoldable pub build_from :
      List Text → Building P → List Candidate → Result RegistryError (Building P)
  unfolding judge apply_verdict
  build_from selected b [] = ok b
  build_from selected b (c ∷ rest) =
      apply_verdict b (judge selected c) >>= λ b'. build_from selected b' rest

  -- `buildRegistry`
  unfoldable pub build : List Text → Result RegistryError (Building P)
  unfolding select_applications build_from sort_models
  build applications = do
    chosen ← select_applications [] applications
    selected ← some_selected chosen
    models ← load_models catalog.models
    built ← build_from selected nothing_built models
    ok (sorted_registry built)

  -- `BuildRegistry`
  unfoldable pub build_registry : List Text → Result RegistryError (Registry P × List Diagnostic)
  unfolding build require_ready
  build_registry applications = do
    built ← build applications
    checked ← require_ready built.ready_by_application applications
    ok (built.registry, built.diagnostics)

  -- `DiscoverRegistry`
  unfoldable pub discover_registry :
      List Text → Result RegistryError (Registry P × List Text × List Diagnostic)
  unfolding build ready_applications of_ready
  discover_registry candidates = do
    built ← build candidates
    applications ← some_ready (ready_applications built.ready_by_application candidates)
    ok (built.registry, applications, of_ready built.ready_by_application built.diagnostics)
