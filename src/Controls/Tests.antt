-- ===== src/Controls/Tests.antt =====
-- Concrete controls and identifiers, and the theorems applied to them.
use paracetamol.Base.{Bool, true, false, some, List, [], ◌∷◌, ◌≡◌, refl, ℕ}
use paracetamol.Text.{Text, codes, equal, trim_space}
use paracetamol.Controls.Conflict.{
  ObservedControl, client, default, enable_thinking, reasoning_effort, reasoning_controls_conflict,
  conflict_from, wants, OneWay, reasoning_controls_conflict-OneWay,
}
use paracetamol.Controls.Session.{to_lower, all_fit, normalize_session_id}

abbrev controls : List ObservedControl
controls =
    record { kind = reasoning_effort; source = client; provided = true; value = codes "high" }
    ∷ record { kind = enable_thinking; source = default; provided = false; value = [] }
    ∷ record { kind = enable_thinking; source = client; provided = true; value = codes "true" }
    ∷ []

agree : reasoning_controls_conflict controls ≡ false
unfolding reasoning_controls_conflict conflict_from wants equal
agree = refl

reasoning_controls_conflict-OneWay_example : (decision : Bool) × OneWay decision controls
reasoning_controls_conflict-OneWay_example = reasoning_controls_conflict-OneWay controls agree

abbrev raw : Text
raw = codes " 0F8FAD5B-D9CB-469F-A165-70867728950E"

abbrev normal : Text
normal = codes "0f8fad5b-d9cb-469f-a165-70867728950e"

normalized : normalize_session_id raw ≡ some normal
unfolding normalize_session_id to_lower all_fit trim_space
normalized = refl

abbrev never : ℕ → Bool
never c = false
