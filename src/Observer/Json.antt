-- ===== src/Observer/Json.antt =====
-- `observeJSON` and the functions that it reads a decoded response with.
use paracetamol.Base.{
  ℕ, Bool, false, not, ◌&&◌, ◌||◌, Option, none, some, List, [], ◌∷◌, if◌then◌else◌, is_some,
}
use paracetamol.Base.Int.{ℤ, pos}
use paracetamol.Text.{Text, codes, is_empty}
use paracetamol.Ledger.Usage.{Floats}
use paracetamol.Completion.Collector.{observe_response, mark_partial}
use paracetamol.Observer.State.{Json, Object, Delta, ResponseObserver}

-- what is found, or else what was there
abbrev pub newer {ℓ} : {A : Type ℓ} → Option A → Option A → Option A
newer none old = old
newer (some v) old = some v

unfoldable pub has_call : List (Text × Text) → Bool
has_call [] = false
has_call ((name, arguments) ∷ calls) =
    not (is_empty name) || not (is_empty arguments) || has_call calls

unfoldable pub has_delta : List Delta → Bool
unfolding has_call
has_delta [] = false
has_delta (d ∷ rest) =
    not (is_empty d.content)
    || not (is_empty d.reasoning)
    || not (is_empty d.reasoning_content)
    || not (is_empty d.refusal)
    || has_call d.tool_calls
    || has_delta rest

module _ {R F : Type 0} (json : Json R F) (floats : Floats F) where
  unfoldable pub has_generated_delta : R → Bool
  unfolding has_delta
  has_generated_delta raw = elim (json.unmarshal_deltas raw) [
    | none ↦ false
    | some choices ↦ has_delta choices
  ]

  unfoldable pub raw_object : R → Option (Object R)
  raw_object raw = if json.is_absent raw then none else json.unmarshal_object raw

  -- a value that is at least 0
  abbrev pub natural : Option ℤ → Option ℤ
  natural (some (pos n)) = some (pos n)
  natural _ = none

  abbrev pub accepted : Option F → Option F
  accepted none = none
  accepted (some f) = if floats.refused f then none else some f

  unfoldable pub first_integer : Object R → List Text → Option ℤ
  first_integer object [] = none
  first_integer object (name ∷ names) =
      let rest = first_integer object names in
      if json.is_absent (object name)
      then rest
      else newer (natural (json.parse_int (object name))) rest

  unfoldable pub first_number : Object R → List Text → Option F
  first_number object [] = none
  first_number object (name ∷ names) =
      let rest = first_number object names in
      if json.is_absent (object name)
      then rest
      else newer (accepted (json.parse_float (object name))) rest

  -- an integer of an object within the usage
  unfoldable pub detail : Object R → Text → Text → Option ℤ
  unfolding raw_object first_integer
  detail usage name key = elim (raw_object (usage name)) [
    | none ↦ none
    | some details ↦ first_integer details (key ∷ [])
  ]

  -- the counts of cached tokens in `usage`, the one that counts last in front
  abbrev pub cached_in : Object R → Option ℤ
  cached_in usage = newer (detail usage (codes "input_tokens_details") (codes "cached_tokens")) (
      newer (detail usage (codes "prompt_tokens_details") (codes "cached_tokens"))
        (first_integer usage (codes "cache_read_input_tokens" ∷ codes "cached_tokens" ∷ [])))

  abbrev pub reasoning_in : Object R → Option ℤ
  reasoning_in usage =
      newer (detail usage (codes "output_tokens_details") (codes "reasoning_tokens")) (
        newer (detail usage (codes "completion_tokens_details") (codes "reasoning_tokens"))
          (first_integer usage (codes "reasoning_tokens" ∷ [])))

  -- the block `if usage, ok := ...`
  unfoldable pub observe_usage : ResponseObserver F → Object R → ResponseObserver F
  unfolding detail
  observe_usage o usage = record o {
    tokens = record {
      input =
          newer (first_integer usage (codes "prompt_tokens" ∷ codes "input_tokens" ∷ []))
            o.tokens.input;
      output =
          newer (first_integer usage (codes "completion_tokens" ∷ codes "output_tokens" ∷ []))
            o.tokens.output;
      cached = newer (cached_in usage) o.tokens.cached;
      reasoning = newer (reasoning_in usage) o.tokens.reasoning;
    };
    cache_from_usage = o.cache_from_usage || is_some (cached_in usage);
  }

  -- the block `if timings, ok := ...`
  unfoldable pub observe_timings : ResponseObserver F → Object R → ResponseObserver F
  unfolding first_integer first_number
  observe_timings o timings =
      let integer =
        λ (name : Text) (old : Option ℤ). newer (first_integer timings (name ∷ [])) old in
      let number = λ (name : Text) (old : Option F). newer (first_number timings (name ∷ [])) old in
      record o {
        tokens = record o.tokens {
          cached =
              if o.cache_from_usage
              then o.tokens.cached
              else integer (codes "cache_n") o.tokens.cached;
        };
        timings = record {
          prompt_tokens = integer (codes "prompt_n") o.timings.prompt_tokens;
          prompt_milliseconds = number (codes "prompt_ms") o.timings.prompt_milliseconds;
          generated_tokens = integer (codes "predicted_n") o.timings.generated_tokens;
          generated_milliseconds = number (codes "predicted_ms") o.timings.generated_milliseconds;
          draft_tokens = integer (codes "draft_n") o.timings.draft_tokens;
          draft_accepted_tokens =
              integer (codes "draft_n_accepted") o.timings.draft_accepted_tokens;
          draft_verification_steps =
              integer (codes "draft_verif_steps") o.timings.draft_verification_steps;
        };
      }

  abbrev pub with_object :
      (ResponseObserver F → Object R → ResponseObserver F)
      → ResponseObserver F
      → R
      → ResponseObserver F
  with_object observe o raw = elim (raw_object raw) [ none ↦ o | some object ↦ observe o object ]

  -- the first time that something generated is seen in a stream
  unfoldable pub note_first_output : ResponseObserver F → ℕ → R → ResponseObserver F
  unfolding has_generated_delta
  note_first_output o now raw =
      if o.stream && not (is_some o.first_output_at) && has_generated_delta raw
      then record o { first_output_at = some now }
      else o

  -- `observeJSON` at the time `now`
  unfoldable pub observe_json : ResponseObserver F → ℕ → Text → ResponseObserver F
  unfolding raw_object observe_usage observe_timings note_first_output
  observe_json o now value = elim (json.response_object value) [
    | none ↦ record o { completion = mark_partial o.completion }
    | some object ↦
        let seen = record o {
          completion =
              observe_response o.completion (json.unique_choices value)
                (json.choices (object (codes "choices")));
        } in
        let timed = note_first_output seen now (object (codes "choices")) in
        let counted = with_object observe_usage timed (object (codes "usage")) in
        with_object observe_timings counted (object (codes "timings"))
  ]
