-- ===== src/Registry/Tests.antt =====
-- A registry built from two candidates, one of which has an artifact that is not ready.
use paracetamol.Base.{ℕ, ◌<◌, true, false, none, some, List, [], ◌∷◌, ◌≡◌, refl, if◌then◌else◌}
use paracetamol.Base.Int.{pos}
use paracetamol.Text.{Text, codes, equal}
use paracetamol.Registry.Build.{
  judge, judge_inspected, appended, append_model, apply_verdict, build_from, insert_model,
  sort_models, select_applications, build, require_ready, build_registry, model_of,
}
use paracetamol.Registry.State.{
  Candidate, ServedModel, Diagnostic, artifacts, Catalog, Registry, backend_llama_cpp,
}
use paracetamol.Registry.Sound.{count_models, served}
use paracetamol.Registry.Served.{only_application, Serves, build_registry_lem}

abbrev candidate : Text → Text → Candidate
candidate id bundle = record {
  id = id;
  backend = codes "llama-cpp";
  bundle = bundle;
  context = pos 4096;
  max_output_tokens = pos 1024;
  agent_tools = true;
  vision = false;
  reasoning_control = [];
  reasoning_levels = [];
  reasoning_default = [];
  reasoning_off = false;
  sampling_policy = [];
}

abbrev test_catalog : Catalog ℕ
test_catalog = record {
  models = some (
      candidate (codes "b") (codes "whole")
      ∷ candidate (codes "c") (codes "half")
      ∷ candidate (codes "a") (codes "whole")
      ∷ []);
  supports_runtime = λ id. true;
  has_bundle = λ bundle. true;
  inspect_bundle = λ bundle. some (
      (codes "artifact", if equal bundle (codes "whole") then codes "verified" else codes "missing")
      ∷ []);
  is_ready_state = equal (codes "verified");
  policy = λ name. none;
}

abbrev model_a : ServedModel ℕ
model_a = model_of test_catalog (candidate (codes "a") (codes "whole")) none

abbrev model_b : ServedModel ℕ
model_b = model_of test_catalog (candidate (codes "b") (codes "whole")) none

abbrev test_registry : Registry ℕ
test_registry = record {
  models = model_a ∷ model_b ∷ [];
  by_id = λ id.
      if equal (codes "a") id
      then some model_a
      else if equal (codes "b") id
      then some model_b
      else none;
}

abbrev test_diagnostics : List Diagnostic
test_diagnostics =
    record {
      application = codes "llama-cpp";
      model = codes "c";
      reason = artifacts ((codes "artifact", codes "missing") ∷ []);
    }
    ∷ []

build_registry_lem_example :
    (only_application ≡ only_application)
    × ((cs : List Candidate) × Serves test_catalog cs test_registry.models test_diagnostics
          test_registry.by_id
        × (0 < count_models backend_llama_cpp (served test_catalog only_application cs)))
unfolding build_registry build select_applications build_from judge judge_inspected appended
    append_model apply_verdict insert_model sort_models require_ready equal
build_registry_lem_example =
    build_registry_lem test_catalog only_application test_registry test_diagnostics refl
