-- ===== src/TextModel.antt =====
-- internal/textmodel/model.go: the output limit and the reasoning levels of a text model.
use paracetamol.Base.{
  ℕ, suc, ◌/◌, ◌-◌, ◌*◌, ◌+◌, ◌≤◌, Bool, true, false, ◌||◌, List, [], ◌∷◌, ◌++◌, ◌≡◌, refl, arith,
  ltb, if◌then◌else◌, Bool-cases, inl, inr,
}
use paracetamol.Base.Int.{ℤ, pos, negsuc, ltb_ℤ}
use paracetamol.Config.Parser.{seen}
use paracetamol.Text.{Text, codes, equal, is_empty}
mod Tests

-- the part of `Model` that these functions read
pub record Model : Type 0 where
  pub reasoning_control : Text
  pub reasoning_levels_set : List Text
  pub reasoning_default_set : Text
  pub reasoning_off : Bool

-- `context / 4`, which rounds towards zero
abbrev pub quarter : ℤ → ℤ
quarter (pos n) = pos (n / 4)
quarter (negsuc n) = if ltb n 3 then pos 0 else negsuc (suc n / 4 - 1)

unfoldable pub output_limit : ℤ → ℤ
output_limit context =
    let value = quarter context in
    let raised = if ltb_ℤ value (pos 4096) then pos 4096 else value in
    if ltb_ℤ (pos 16384) raised then pos 16384 else raised

unfoldable pub reasoning_levels : Model → List Text
unfolding equal
reasoning_levels m =
    let levels =
      if equal m.reasoning_control (codes "toggle")
      then codes "high" ∷ []
      else m.reasoning_levels_set in
    if is_empty m.reasoning_control
    then codes "off" ∷ []
    else if m.reasoning_off
    then codes "off" ∷ levels
    else levels

unfoldable pub reasoning_default : Model → Text
unfolding equal
reasoning_default m =
    if equal m.reasoning_control (codes "toggle") then codes "high" else m.reasoning_default_set

-- The output limit of a context of 4096 tokens at least lies between 4096 and 16384, and is at most
-- the context.
output_limit_bounds :
    (context : ℕ)
    → 4096 ≤ context
    → (n : ℕ) × (output_limit (pos context) ≡ pos n) × (4096 ≤ n) × (n ≤ 16384) × (n ≤ context)
unfolding output_limit
output_limit_bounds context enough =
    let q = context / 4 in
    elim (Bool-cases (ltb q 4096)) [
      | inl small ↦ (4096, ground (arith, small), omega arith, omega arith, omega arith)
      | inr fine ↦ elim (Bool-cases (ltb 16384 q)) [
        | inl large ↦
            (16384, ground (arith, fine, large), omega arith, omega arith, ground (arith, large))
        | inr middle ↦ (
          q,
          ground (arith, fine, middle),
          ground (arith, fine),
          ground (arith, middle),
          omega arith,
        )
      ]
    ]

-- A model with a control of its reasoning, whose default is one of its levels unless the control is
-- a toggle, has a default among the levels that clients are offered.
reasoning_default_offered :
    (m : Model)
    → is_empty m.reasoning_control ≡ false
    → (equal m.reasoning_control (codes "toggle")
        || seen m.reasoning_default_set m.reasoning_levels_set)
      ≡ true
    → seen (reasoning_default m) (reasoning_levels m) ≡ true
unfolding reasoning_default reasoning_levels seen
reasoning_default_offered m controlled known =
    elim (Bool-cases (equal m.reasoning_control (codes "toggle"))) [
      | inl toggle ↦
          rw (toggle, reasoning_default)
            (rw controlled (elim (Bool-cases m.reasoning_off) [
              | inl off ↦ rw off (unfold equal in refl)
              | inr on ↦ rw on (unfold equal in refl)
            ]))
      | inr levels ↦
          let known' : seen m.reasoning_default_set m.reasoning_levels_set ≡ true =
            ground (arith, known, levels) in
          rw (levels, reasoning_default)
            (rw controlled (elim (Bool-cases m.reasoning_off) [
              | inl off ↦ rw off (ground (arith, known'))
              | inr on ↦ rw on known'
            ]))
    ]
