-- ===== src/Residency/Probe.antt =====
-- `modelStatus` and what it calls. What encoding/json decodes of the router's answer is the input.
use paracetamol.Base.{
  ℕ, ◌==◌, Bool, true, false, not, ◌&&◌, ◌||◌, Option, none, some, List, [], ◌∷◌, if◌then◌else◌,
  ltb,
}
use paracetamol.Base.Int.{ℤ, pos, negsuc}
use paracetamol.Text.{Text, codes, equal, is_empty, trim_space}
use paracetamol.Registry.State.{ServedModel, Registry, backend_llama_cpp}
use paracetamol.Scheduler.State.{Allocation, llama_cpp}

pub data ModelState : Type 0 where
  model_unloaded model_loading model_loaded model_sleeping model_failed model_unknown : ModelState

-- the diagnostics, without their texts; `quiet` is the empty string
pub data ModelDiagnostic : Type 0 where
  quiet invalid_status unsupported_status status_unavailable : ModelDiagnostic
  reported_twice not_reported changing_state : ModelDiagnostic

pub record ModelRuntime : Type 0 where
  pub context : Option ℤ
  pub training_context : Option ℤ
  pub parameters : Option ℕ
  pub model_bytes : Option ℕ
  pub quantization : Text

-- `routerModelMetadata` with its values: integers as `firstInteger` and `strconv.ParseUint` read them,
-- and the quantization, if it is a string
pub record RouterModelMetadata : Type 0 where
  pub context : Option ℤ
  pub training_context : Option ℤ
  pub parameters : Option ℕ
  pub model_bytes : Option ℕ
  pub quantization : Option Text

-- an item of the list, with its status (`value` and `failed`) and its metadata, if they can be decoded
pub record RouterModel : Type 0 where
  pub id : Text
  pub status : Option (Text × Bool)
  pub meta : Option RouterModelMetadata

-- what the three maps of the probe have under one identifier
pub record Residency : Type 0 where
  pub state : ModelState
  pub diagnostic : ModelDiagnostic
  pub runtime : Option ModelRuntime

abbrev pub unknown_residency : ModelDiagnostic → Residency
unknown_residency diagnostic = record {
  state = model_unknown;
  diagnostic = diagnostic;
  runtime = none;
}

abbrev pub positive_integer : Option ℤ → Option ℤ
positive_integer none = none
positive_integer (some (negsuc n)) = none
positive_integer (some (pos n)) = if ltb 0 n then some (pos n) else none

abbrev pub positive_unsigned_integer : Option ℕ → Option ℕ
positive_unsigned_integer none = none
positive_unsigned_integer (some n) = if n == 0 then none else some n

abbrev pub is_none : {A : Type 0} → Option A → Bool
is_none none = true
is_none (some a) = false

-- the loop over the identifiers that were not seen
abbrev pub note_missing : Bool → Option Residency → Option Residency
note_missing seen none = none
note_missing seen (some entry) =
    some (if seen then entry else record entry { diagnostic = not_reported })

module _ {P : Type 0} where
  -- the registry serves the model through llama.cpp
  abbrev pub is_llama : Option (ServedModel P) → Bool
  is_llama none = false
  is_llama (some model) = equal model.backend backend_llama_cpp

  -- `unknownLlamaResidency`
  unfoldable pub unknown_llama_residency :
      ModelDiagnostic → List (ServedModel P) → Text → Option Residency
  unfolding equal
  unknown_llama_residency diagnostic [] id = none
  unknown_llama_residency diagnostic (model ∷ rest) id =
      if equal model.backend backend_llama_cpp && equal model.id id
      then some (unknown_residency diagnostic)
      else unknown_llama_residency diagnostic rest id

-- `strings.ToLower` and `boundedText` with its limit for values
module _ (lower bounded : Text → Text) where
  abbrev pub quantization_of : Option Text → Text
  quantization_of none = []
  quantization_of (some value) = if is_empty (trim_space value) then [] else bounded value

  unfoldable pub decode_router_model_runtime : Option RouterModelMetadata → Option ModelRuntime
  unfolding trim_space
  decode_router_model_runtime none = none
  decode_router_model_runtime (some metadata) =
      let runtime : ModelRuntime = record {
        context = positive_integer metadata.context;
        training_context = positive_integer metadata.training_context;
        parameters = positive_unsigned_integer metadata.parameters;
        model_bytes = positive_unsigned_integer metadata.model_bytes;
        quantization = quantization_of metadata.quantization;
      } in
      if is_none runtime.context
        && is_none runtime.training_context
        && is_none runtime.parameters
        && is_none runtime.model_bytes
        && is_empty runtime.quantization
      then none
      else some runtime

  abbrev pub state_named : Text → ModelState × ModelDiagnostic
  state_named value =
      if equal value (codes "unloaded")
      then (model_unloaded, quiet)
      else if equal value (codes "downloading")
          || equal value (codes "downloaded")
          || equal value (codes "loading")
      then (model_loading, quiet)
      else if equal value (codes "loaded")
      then (model_loaded, quiet)
      else if equal value (codes "sleeping")
      then (model_sleeping, quiet)
      else if equal value (codes "failed")
      then (model_failed, quiet)
      else (model_unknown, unsupported_status)

  unfoldable pub decode_router_model_status : Option (Text × Bool) → ModelState × ModelDiagnostic
  unfolding equal
  decode_router_model_status none = (model_unknown, invalid_status)
  decode_router_model_status (some (value, failed)) =
      if failed then (model_failed, quiet) else state_named (lower value)

  abbrev pub has_runtime : ModelState → Bool
  has_runtime model_loaded = true
  has_runtime model_sleeping = true
  has_runtime model_unloaded = false
  has_runtime model_loading = false
  has_runtime model_failed = false
  has_runtime model_unknown = false

  -- what the first report of a model puts into the maps
  unfoldable pub residency_of : RouterModel → Residency
  unfolding decode_router_model_status decode_router_model_runtime
  residency_of listed =
      let (state, diagnostic) = decode_router_model_status listed.status in
      record {
        state = state;
        diagnostic = diagnostic;
        runtime = if has_runtime state then decode_router_model_runtime listed.meta else none;
      }

  module _ {P : Type 0} (registry : Registry P) where
    -- the loop over the listed models, with the maps and `seen`
    unfoldable pub merge_listed :
        (Text → Option Residency)
        → (Text → Bool)
        → List RouterModel
        → (Text → Option Residency) × (Text → Bool)
    unfolding equal residency_of
    merge_listed maps seen [] = (maps, seen)
    merge_listed maps seen (listed ∷ rest) =
        let known = is_llama (registry.by_id listed.id) in
        let entry =
          if seen listed.id then unknown_residency reported_twice else residency_of listed in
        merge_listed (λ id. if known && equal listed.id id then some entry else maps id)
          (λ id. if known && equal listed.id id then true else seen id) rest

    -- `probeLlamaResidency`; the list is missing where the request or its decoding fails
    unfoldable pub probe_llama_residency : Option (List RouterModel) → Text → Option Residency
    unfolding unknown_llama_residency merge_listed
    probe_llama_residency none id = unknown_llama_residency status_unavailable registry.models id
    probe_llama_residency (some listed) id =
        let (maps, seen) =
          merge_listed (unknown_llama_residency status_unavailable registry.models) (λ x. false)
            listed in
        note_missing (seen id) (maps id)

    -- the entry of a model in the status; a key that the maps do not have gives empty strings, which
    -- are `none` here
    unfoldable pub model_status :
        Allocation
        → Bool
        → Option (List RouterModel)
        → List (ServedModel P)
        → List (Text × Option Residency)
    unfolding probe_llama_residency equal
    model_status allocation has_upstream answer [] = []
    model_status allocation has_upstream answer (model ∷ rest) =
        let others = model_status allocation has_upstream answer rest in
        let unloaded : Option Residency =
          some (record { state = model_unloaded; diagnostic = quiet; runtime = none }) in
        let entry =
          if not (allocation == llama_cpp) || not (equal model.backend backend_llama_cpp)
          then unloaded
          else if not has_upstream
          then some (unknown_residency changing_state)
          else probe_llama_residency answer model.id in
        (model.id, entry) ∷ others
