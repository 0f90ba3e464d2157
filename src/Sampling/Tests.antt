-- ===== src/Sampling/Tests.antt =====
-- A request with two controls, and the theorem of the policy applied to it.
use paracetamol.Base.{
  true, false, Bool, Option, none, some, List, [], ◌∷◌, ◌≡◌, refl, ◌⊎◌, ◌||◌, sym, ap,
  if◌then◌else◌,
}
use paracetamol.Base.Result.{ok}
use paracetamol.Text.{Text, codes, equal}
use paracetamol.Sampling.Policy.{
  PolicyJson, fields, ends_there, ReasoningModel, field, request_thinking, policy_fields,
  policy_object, select_mode, select_bool, select_level, select_effort, select_kwargs,
}
use paracetamol.Sampling.Modes.{request_modes, Selects, first_mode}
use paracetamol.Sampling.Rewrite.{Encoding, is_given, has_default, fill_defaults}
use paracetamol.Sampling.Filled.{fill_defaults-fields}
use paracetamol.Sampling.Agrees.{request_thinking-Selects}

-- every object that is nested has the one field `enable_thinking`, and every toggle is off
abbrev plain : PolicyJson Text
plain = record {
  is_null = λ raw. equal raw (codes "null");
  decode_bool = λ raw. if equal raw (codes "false") then some false else none;
  decode_string = λ raw. some raw;
  decode_fields = λ raw. fields ((codes "enable_thinking", some (codes "false")) ∷ []) ends_there;
}

abbrev model : ReasoningModel
model = record {
  reasoning_control = codes "effort";
  reasoning_levels = codes "low" ∷ [];
  reasoning_default = codes "low";
  reasoning_off = true;
}

abbrev object : List (Text × Text)
object = (codes "reasoning_effort", codes "none") ∷ (codes "chat_template_kwargs", codes "{}") ∷ []

turned_off : request_thinking plain model object ≡ ok false
unfolding request_thinking policy_object policy_fields select_mode select_bool select_level
    select_effort select_kwargs
turned_off = refl

request_thinking-Selects_example :
    Selects plain model false (request_modes plain object)
    × (false ≡ first_mode plain model (request_modes plain object))
request_thinking-Selects_example = request_thinking-Selects plain model object false turned_off

-- a default is encoded as its text
abbrev text_encoding : Encoding Text Text
text_encoding = record {
  encode = λ value. some (codes "0");
  encode_object = λ object. some [];
  text_of = λ raw. raw;
}

abbrev top_p : Text
top_p = codes "top_p"

abbrev defaults : List (Text × Text)
defaults = (codes "temperature", codes "1") ∷ (top_p, codes "1") ∷ []

abbrev sent : List (Text × Text)
sent = (codes "temperature", codes "2") ∷ (top_p, codes "null") ∷ []

abbrev filled : List (Text × Text)
filled = (top_p, codes "0") ∷ sent

zero_not_null :
    (value raw : Text) → text_encoding.encode value ≡ some raw → plain.is_null raw ≡ false
unfolding equal
zero_not_null value raw e = sym (
    ap
      (λ (o : Option Text). elim o as (λ x. Bool) [
        | none ↦ false
        | some r ↦ equal r (codes "null")
      ])
      e)

fill_defaults-fields_example :
    ((field top_p filled ≡ field top_p sent)
      ⊎ ((is_given plain top_p sent ≡ false) × (has_default top_p defaults ≡ true)))
    × (is_given plain top_p filled ≡ (is_given plain top_p sent || has_default top_p defaults))
fill_defaults-fields_example =
    fill_defaults-fields plain text_encoding zero_not_null defaults sent filled [] false true top_p
      (unfold fill_defaults is_given in refl)
