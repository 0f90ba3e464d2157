-- ===== src/Observer/State.antt =====
-- `responseObserver` and `responseObservation`, and the parts of encoding/json and strconv that the
-- observer uses, as operations on the raw values of type `R`. Floating-point numbers are of type `F`.
use paracetamol.Base.{ℕ, ◌*◌, Bool, false, Option, none, List, []}
use paracetamol.Base.Int.{ℤ}
use paracetamol.Text.{Text}
use paracetamol.Ledger.Usage.{TokenUsage, BackendTimings}
use paracetamol.Completion.Collector.{
  Choices, CompletionCollector, CompletionMetadata, new_collector,
}

abbrev pub max_observed_json_bytes : ℕ
max_observed_json_bytes = 1024 * 1024

abbrev pub max_observed_sse_event_bytes : ℕ
max_observed_sse_event_bytes = 256 * 1024

-- one choice of a streaming chunk, as `hasGeneratedDelta` decodes it; a tool call has a name and
-- arguments
pub record Delta : Type 0 where
  pub content : Text
  pub reasoning : Text
  pub reasoning_content : Text
  pub refusal : Text
  pub tool_calls : List (Text × Text)

-- A decoded object gives the raw value of a key, and the empty one where the key is missing.
abbrev pub Object : Type 0 → Type 0
Object R = Text → R

pub record Json (R F : Type 0) : Type 0 where
  -- `len(raw) == 0 || isJSONNull(raw)`
  pub is_absent : R → Bool
  -- `json.Unmarshal` into a map, which is not nil
  pub unmarshal_object : R → Option (Object R)
  -- the same of a whole text, with nothing behind it
  pub response_object : Text → Option (Object R)
  -- `strconv.ParseInt` and `strconv.ParseFloat` of the trimmed value
  pub parse_int : R → Option ℤ
  pub parse_float : R → Option F
  -- `bytes.TrimSpace`, which decodes UTF-8 beyond ASCII
  pub trim_bytes : Text → Text
  pub unmarshal_deltas : R → Option (List Delta)
  -- what the completion collector decodes
  pub unique_choices : Text → Bool
  pub choices : R → Choices

-- A time that is zero is `none`.
pub record ResponseObserver (F : Type 0) : Type 0 where
  pub stream : Bool
  pub json_buffer : Text
  pub json_oversized : Bool
  pub line : Text
  pub event : Text
  pub event_oversize : Bool
  pub tokens : TokenUsage
  pub timings : BackendTimings F
  pub first_output_at : Option ℕ
  pub cache_from_usage : Bool
  pub completion : CompletionCollector

pub record ResponseObservation (F : Type 0) : Type 0 where
  pub tokens : TokenUsage
  pub timings : BackendTimings F
  pub first_output_at : Option ℕ
  pub completion : CompletionMetadata

-- `newResponseObserver`; the Boolean is the verdict of `isEventStream`
abbrev pub new_response_observer : {F : Type 0} → Bool → ResponseObserver F
new_response_observer stream = record {
  stream = stream;
  json_buffer = [];
  json_oversized = false;
  line = [];
  event = [];
  event_oversize = false;
  tokens = record { input = none; output = none; cached = none; reasoning = none };
  timings = record {
    prompt_tokens = none;
    prompt_milliseconds = none;
    generated_tokens = none;
    generated_milliseconds = none;
    draft_tokens = none;
    draft_accepted_tokens = none;
    draft_verification_steps = none;
  };
  first_output_at = none;
  cache_from_usage = false;
  completion = new_collector;
}
