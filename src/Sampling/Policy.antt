-- ===== src/Sampling/Policy.antt =====
-- `policyObject` and `requestThinking`: which thinking mode the controls of a request select. Raw
-- values are of type `R`, with the operations of encoding/json as a parameter.
use paracetamol.Base.{
  Bool, true, false, not, ◌&&◌, ◌||◌, Option, none, some, List, [], ◌∷◌, if◌then◌else◌,
}
use paracetamol.Base.Result.{Result, ok, err, ◌>>=◌}
use paracetamol.Text.{Text, codes, equal, is_empty}

-- what the decoder finds behind the fields of an object
pub data FieldsEnd : Type 0 where
  ends_there trailing_data invalid_token : FieldsEnd

-- what it reads: something else than an object, or its fields, in which a value may be invalid
pub data Fields (R : Type 0) : Type 0 where
  not_an_object : Fields R
  fields : List (Text × Option R) → FieldsEnd → Fields R

pub record PolicyJson (R : Type 0) : Type 0 where
  pub is_null : R → Bool
  pub decode_bool : R → Option Bool
  pub decode_string : R → Option Text
  pub decode_fields : R → Fields R

pub data PolicyError : Type 0 where
  object_required invalid_object duplicate_fields trailing_fields : PolicyError
  cannot_disable conflicting_modes not_boolean not_a_string unsupported_effort conflicting_efforts :
      PolicyError

-- the part of the gateway's `Model` that the policy reads
pub record ReasoningModel : Type 0 where
  pub reasoning_control : Text
  pub reasoning_levels : List Text
  pub reasoning_default : Text
  pub reasoning_off : Bool

-- the local variables of `requestThinking`
pub record Selection : Type 0 where
  pub thinking : Bool
  pub selected : Bool
  pub effort : Text

abbrev pub field : {R : Type 0} → Text → List (Text × R) → Option R
field key [] = none
field key ((k, raw) ∷ rest) = let found = field key rest in if equal k key then some raw else found

abbrev pub offered : Text → List Text → Bool
offered value [] = false
offered value (level ∷ levels) = equal level value || offered value levels

abbrev pub same_mode : Bool → Bool → Bool
same_mode true b = b
same_mode false b = not b

module _ {R : Type 0} (json : PolicyJson R) where
  -- the loop of `policyObject`
  unfoldable pub policy_fields :
      List (Text × R) → List (Text × Option R) → FieldsEnd → Result PolicyError (List (Text × R))
  unfolding equal
  policy_fields object [] ends_there = ok object
  policy_fields object [] trailing_data = err trailing_fields
  policy_fields object [] invalid_token = err invalid_object
  policy_fields object ((key, value) ∷ rest) last = elim (field key object) [
    | some raw ↦ err duplicate_fields
    | none ↦ elim value [
      | none ↦ err invalid_object
      | some raw ↦ policy_fields ((key, raw) ∷ object) rest last
    ]
  ]

  unfoldable pub policy_object : R → Result PolicyError (List (Text × R))
  unfolding policy_fields
  policy_object raw = elim (json.decode_fields raw) [
    | not_an_object ↦ err object_required
    | fields entries last ↦ policy_fields [] entries last
  ]

  module _ (model : ReasoningModel) where
    unfoldable pub select_mode : Selection → Bool → Result PolicyError Selection
    select_mode s enabled =
        if not enabled && not model.reasoning_off
        then err cannot_disable
        else if s.selected && not (same_mode s.thinking enabled)
        then err conflicting_modes
        else ok (record s { thinking = enabled; selected = true })

    unfoldable pub select_bool : Selection → R → Result PolicyError Selection
    unfolding select_mode
    select_bool s raw = if json.is_null raw then err not_boolean else elim (json.decode_bool raw) [
      | none ↦ err not_boolean
      | some enabled ↦ select_mode s enabled
    ]

    abbrev pub toggle_only : Bool
    toggle_only = equal model.reasoning_control (codes "toggle")

    abbrev pub effort_levels : List Text
    effort_levels =
        if toggle_only
        then codes "minimal"
          ∷ codes "low"
          ∷ codes "medium"
          ∷ codes "high"
          ∷ codes "xhigh"
          ∷ codes "max"
          ∷ []
        else model.reasoning_levels

    -- `selectEffort` behind the decoding of the value
    unfoldable pub select_level : Selection → Text → Bool → Result PolicyError Selection
    unfolding select_mode equal
    select_level s value top_level =
        if top_level && equal value (codes "none")
        then select_mode s false
        else if not (offered value effort_levels)
        then err unsupported_effort
        else if not (is_empty s.effort) && not (equal s.effort value) && not toggle_only
        then err conflicting_efforts
        else select_mode (record s { effort = value }) true

    -- `selectEffort` of a value that is given
    unfoldable pub select_effort : Selection → R → Bool → Result PolicyError Selection
    unfolding select_level
    select_effort s raw top_level =
        if json.is_null raw then err not_a_string else elim (json.decode_string raw) [
          | none ↦ err not_a_string
          | some value ↦ select_level s value top_level
        ]

    -- a control that may be missing
    abbrev pub if_given :
        (Selection → R → Result PolicyError Selection)
        → Selection
        → Option R
        → Result PolicyError Selection
    if_given select s none = ok s
    if_given select s (some raw) = select s raw

    abbrev pub default_thinking : Bool
    default_thinking =
        not (equal model.reasoning_default (codes "off"))
        && not (equal model.reasoning_default (codes "none"))
        && not (is_empty model.reasoning_control)

    -- the controls of `chat_template_kwargs`
    unfoldable pub select_kwargs : Selection → R → Result PolicyError Selection
    unfolding policy_object select_bool select_effort
    select_kwargs s raw = do
      kwargs ← policy_object raw
      toggled ← if_given select_bool s (field (codes "enable_thinking") kwargs)
      if_given (λ t r. select_effort t r false) toggled (field (codes "reasoning_effort") kwargs)

    unfoldable pub request_thinking : List (Text × R) → Result PolicyError Bool
    unfolding select_effort select_kwargs
    request_thinking object = do
      let start : Selection = record { thinking = default_thinking; selected = false; effort = [] }
      first ←
          if_given (λ t r. select_effort t r true) start (field (codes "reasoning_effort") object)
      last ← if_given select_kwargs first (field (codes "chat_template_kwargs") object)
      ok last.thinking
