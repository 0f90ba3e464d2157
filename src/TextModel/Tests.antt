-- ===== src/TextModel/Tests.antt =====
-- Concrete models, and the theorems of the text models applied to them.
use paracetamol.Base.{true, ◌||◌, [], ◌∷◌, ◌≡◌, refl}
use paracetamol.Text.{codes, equal}
use paracetamol.Config.Parser.{seen}
use paracetamol.TextModel.{Model}

abbrev model : Model
model = record {
  reasoning_control = codes "effort";
  reasoning_levels_set = codes "low" ∷ codes "high" ∷ [];
  reasoning_default_set = codes "high";
  reasoning_off = true;
}

model_default :
    (equal model.reasoning_control (codes "toggle")
      || seen model.reasoning_default_set model.reasoning_levels_set)
    ≡ true
unfolding equal seen
model_default = refl
