-- ===== src/Registry/State.antt =====
-- The data of internal/gateway/registry.go.
use paracetamol.Base.{ℕ, Bool, false, ◌||◌, Option, List, [], ◌∷◌}
use paracetamol.Base.Int.{ℤ}
use paracetamol.Text.{Text, codes, equal}

abbrev pub backend_llama_cpp : Text
backend_llama_cpp = codes "llama-cpp"

-- `textmodel.Model`
pub record Candidate : Type 0 where
  pub id : Text
  pub backend : Text
  pub bundle : Text
  pub context : ℤ
  pub max_output_tokens : ℤ
  pub agent_tools : Bool
  pub vision : Bool
  pub reasoning_control : Text
  pub reasoning_levels : List Text
  pub reasoning_default : Text
  pub reasoning_off : Bool
  pub sampling_policy : Text

-- `Model`; `sampling_defaults` has the defaults of a policy, `none` being the zero value
pub record ServedModel (P : Type 0) : Type 0 where
  pub id : Text
  pub application : Text
  pub context : ℤ
  pub max_output_tokens : ℤ
  pub agent_tools : Bool
  pub vision : Bool
  pub reasoning_control : Text
  pub reasoning_levels : List Text
  pub reasoning_default : Text
  pub reasoning_off : Bool
  pub sampling_policy : Text
  pub backend : Text
  pub bundle : Text
  pub sampling_defaults : Option P

-- why a model is not served: the runtime, or the artifacts that are not ready, each with its state
pub data DiagnosticReason : Type 0 where
  unsupported : DiagnosticReason
  artifacts : List (Text × Text) → DiagnosticReason

pub record Diagnostic : Type 0 where
  pub application : Text
  pub model : Text
  pub reason : DiagnosticReason

pub data RegistryError : Type 0 where
  unsupported_application selected_twice : Text → RegistryError
  nothing_selected cannot_read : RegistryError
  unknown_bundle unknown_policy cannot_inspect ambiguous : Text → RegistryError
  no_ready_model : Text → RegistryError
  no_ready_application : RegistryError

-- The text models of the catalog, if they and the receipts can be read; whether the preset of a model
-- supports the runtime; the bundles; the artifacts of a bundle with their states; which states
-- `content.Ready` accepts; and the sampling policies with their defaults.
pub record Catalog (P : Type 0) : Type 0 where
  pub models : Option (List Candidate)
  pub supports_runtime : Text → Bool
  pub has_bundle : Text → Bool
  pub inspect_bundle : Text → Option (List (Text × Text))
  pub is_ready_state : Text → Bool
  pub policy : Text → Option P

pub record Registry (P : Type 0) : Type 0 where
  pub models : List (ServedModel P)
  pub by_id : Text → Option (ServedModel P)

-- the state of the loop, with `readyByApplication`
pub record Building (P : Type 0) : Type 0 where
  pub registry : Registry P
  pub diagnostics : List Diagnostic
  pub ready_by_application : Text → ℕ

abbrev pub is_selected : Text → List Text → Bool
is_selected application [] = false
is_selected application (other ∷ rest) = equal other application || is_selected application rest
