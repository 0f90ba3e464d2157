-- ===== src/Sampling/Rewrite.antt =====
-- `applySamplingDefaults`: the defaults of the mode that a request gets where it has no value.
use paracetamol.Base.{
  Bool, true, false, not, ◌||◌, Option, none, some, List, [], ◌∷◌, if◌then◌else◌, map,
}
use paracetamol.Base.Result.{Result, ok, err}
use paracetamol.Text.{Text, codes, equal, is_empty}
use paracetamol.Sampling.Policy.{
  PolicyJson, PolicyError, ReasoningModel, field, policy_object, request_thinking,
}

pub data ControlSource : Type 0 where
  control_client control_default control_gateway_default control_invalid : ControlSource

pub record ObservedControl : Type 0 where
  pub name : Text
  pub source : ControlSource
  pub provided : Bool
  pub value : Text

pub record RequestControls : Type 0 where
  pub sampling_policy : Text
  pub sampling_mode : Text
  pub reasoning : List ObservedControl
  pub sampling : List ObservedControl
  pub diagnostics : List Text

-- the name of the policy of a model, and its defaults with and without thinking, each in the order
-- in which the map is gone through
pub record SamplingPolicy (V : Type 0) : Type 0 where
  pub name : Text
  pub thinking : List (Text × V)
  pub non_thinking : List (Text × V)

pub data RewriteError : Type 0 where
  refused : PolicyError → RewriteError
  cannot_encode cannot_encode_object : RewriteError

-- `json.Marshal` of a default and of an object, and the text of a raw value
pub record Encoding (R V : Type 0) : Type 0 where
  pub encode : V → Option R
  pub encode_object : (Text → Option R) → Option R
  pub text_of : R → Text

-- the inner loop over the controls
abbrev pub note_default : Text → Text → List ObservedControl → List ObservedControl
note_default name value controls =
    map
      (λ control.
        if equal control.name name
        then record control { source = control_gateway_default; value = value }
        else control)
      controls

-- there is a default for the key
abbrev pub has_default : {V : Type 0} → Text → List (Text × V) → Bool
has_default key [] = false
has_default key ((name, value) ∷ rest) = equal name key || has_default key rest

-- the client has sent a value
unfoldable pub is_given : {R : Type 0} → PolicyJson R → Text → List (Text × R) → Bool
unfolding equal
is_given json name object = elim (field name object) [
  | none ↦ false
  | some raw ↦ not (json.is_null raw)
]

module _ {R V : Type 0} (json : PolicyJson R) (encoding : Encoding R V) where
  -- the loop over the defaults: the controls, and the object with the verdict on a change, or nothing
  -- where a default cannot be encoded
  unfoldable pub fill_defaults :
      List (Text × V)
      → List (Text × R)
      → List ObservedControl
      → Bool
      → List ObservedControl × Option (List (Text × R) × Bool)
  unfolding is_given
  fill_defaults [] object controls changed = (controls, some (object, changed))
  fill_defaults ((name, value) ∷ rest) object controls changed =
      let kept = fill_defaults rest object controls changed in
      let filled =
        elim (encoding.encode value)
          as (λ e. List ObservedControl × Option (List (Text × R) × Bool)) [
            | none ↦ (controls, none)
            | some raw ↦
                fill_defaults rest ((name, raw) ∷ object)
                  (note_default name (encoding.text_of raw) controls) true
          ] in
      if is_given json name object then kept else filled

  -- `applySamplingDefaults`: the controls, and the body or an error
  unfoldable pub apply_sampling_defaults :
      ReasoningModel
      → SamplingPolicy V
      → R
      → RequestControls
      → RequestControls × Result RewriteError R
  unfolding policy_object request_thinking fill_defaults
  apply_sampling_defaults model policy body controls =
      if is_empty policy.name then (controls, ok body) else elim (policy_object json body) [
        | err e ↦ (controls, err (refused e))
        | ok object ↦ elim (request_thinking json model object) [
          | err e ↦ (controls, err (refused e))
          | ok thinking ↦
              let defaults = if thinking then policy.thinking else policy.non_thinking in
              let (sampling, filled) = fill_defaults defaults object controls.sampling false in
              let noted = record controls {
                sampling_policy = policy.name;
                sampling_mode = if thinking then codes "thinking" else codes "non_thinking";
                sampling = sampling;
              } in
              (
                noted,
                elim filled [
                  | none ↦ err cannot_encode
                  | some (object', changed) ↦
                      if not changed
                      then ok body
                      else elim (encoding.encode_object (λ key. field key object')) [
                        | none ↦ err cannot_encode
                        | some encoded ↦ ok encoded
                      ]
                ],
              )
        ]
      ]
