-- ===== src/Sampling/Modes.antt =====
-- The modes that the controls of a request ask for.
use paracetamol.Base.{
  Bool, true, false, not, ◌&&◌, Option, none, some, List, [], ◌∷◌, ◌++◌, ◌≡◌, ◌⊎◌,
}
use paracetamol.Base.Result.{ok, err}
use paracetamol.Text.{Text, codes, equal}
use paracetamol.Sampling.Policy.{
  PolicyJson, ReasoningModel, Selection, field, policy_object, default_thinking,
}

module _ {R : Type 0} (json : PolicyJson R) where
  -- the modes that an effort, a toggle and the controls of a request ask for, as far as they decode
  unfoldable pub effort_mode : Bool → Option R → List Bool
  unfolding equal
  effort_mode top_level none = []
  effort_mode top_level (some raw) = elim (json.decode_string raw) [
    | none ↦ []
    | some value ↦ not (top_level && equal value (codes "none")) ∷ []
  ]

  unfoldable pub toggle_mode : Option R → List Bool
  toggle_mode none = []
  toggle_mode (some raw) = elim (json.decode_bool raw) [ none ↦ [] | some enabled ↦ enabled ∷ [] ]

  unfoldable pub kwargs_modes : Option R → List Bool
  unfolding policy_object effort_mode toggle_mode
  kwargs_modes none = []
  kwargs_modes (some raw) = elim (policy_object json raw) [
    | err e ↦ []
    | ok kwargs ↦
        toggle_mode (field (codes "enable_thinking") kwargs)
        ++ effort_mode false (field (codes "reasoning_effort") kwargs)
  ]

  unfoldable pub request_modes : List (Text × R) → List Bool
  unfolding effort_mode kwargs_modes
  request_modes object =
      effort_mode true (field (codes "reasoning_effort") object)
      ++ kwargs_modes (field (codes "chat_template_kwargs") object)

  -- a mode is selected, which the model allows
  unfoldable pub Selects : ReasoningModel → Bool → List Bool → Type 0
  Selects model mode [] = Unit
  Selects model mode (b ∷ modes) =
      (b ≡ mode) × ((b ≡ true) ⊎ (model.reasoning_off ≡ true)) × Selects model mode modes

  -- the mode with the modes asked for so far
  unfoldable pub Follows : ReasoningModel → Selection → List Bool → Type 0
  unfolding Selects
  Follows model s [] = (s.selected ≡ false) × (s.thinking ≡ default_thinking json model)
  Follows model s (b ∷ modes) = (s.selected ≡ true) × Selects model s.thinking (b ∷ modes)

  -- the first mode asked for, or the default
  abbrev pub first_mode : ReasoningModel → List Bool → Bool
  first_mode model [] = default_thinking json model
  first_mode model (b ∷ modes) = b
