-- ===== src/Residency/Tests.antt =====
-- A probe of a router that reports one model once, and a stranger.
use paracetamol.Base.{
  Bool, true, false, Option, none, some, List, [], ◌∷◌, ◌≡◌, refl, if◌then◌else◌,
}
use paracetamol.Base.Int.{pos}
use paracetamol.Text.{Text, codes, equal}
use paracetamol.Registry.State.{ServedModel, Registry}
use paracetamol.Registry.Find.{find_model}
use paracetamol.Scheduler.State.{llama_cpp}
use paracetamol.Residency.Probe.{
  RouterModel, model_loaded, quiet, decode_router_model_status, decode_router_model_runtime,
  residency_of, is_llama, unknown_llama_residency, merge_listed, probe_llama_residency,
  model_status,
}
use paracetamol.Residency.Reports.{answered_residency, probe_llama_residency_lem}

abbrev same : Text → Text
same text = text

abbrev model : ServedModel Bool
model = record {
  id = codes "m";
  application = codes "llama-cpp";
  context = pos 4096;
  max_output_tokens = pos 1024;
  agent_tools = true;
  vision = false;
  reasoning_control = [];
  reasoning_levels = [];
  reasoning_default = [];
  reasoning_off = false;
  sampling_policy = [];
  backend = codes "llama-cpp";
  bundle = codes "b";
  sampling_defaults = none;
}

abbrev registry : Registry Bool
registry = record { models = model ∷ []; by_id = λ id. find_model id (model ∷ []) }

abbrev answer : Option (List RouterModel)
answer = some (
    record { id = codes "stranger"; status = none; meta = none }
    ∷ record { id = codes "m"; status = some (codes "loaded", false); meta = none }
    ∷ [])

loaded_model :
    model_status same same registry llama_cpp true answer registry.models
    ≡ (codes "m", some (record { state = model_loaded; diagnostic = quiet; runtime = none })) ∷ []
unfolding model_status probe_llama_residency unknown_llama_residency merge_listed residency_of
    decode_router_model_status decode_router_model_runtime find_model equal
loaded_model = refl

probe_llama_residency_lem_example : probe_llama_residency same same registry answer (codes "m") ≡ (
    if is_llama (registry.by_id (codes "m"))
    then some (answered_residency same same registry answer (codes "m"))
    else none)
unfolding equal
probe_llama_residency_lem_example =
    probe_llama_residency_lem same same registry answer (codes "m") (λ x. refl) refl
