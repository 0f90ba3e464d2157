-- ===== src/Sampling/Agrees.antt =====
-- The mode that `requestThinking` returns, against what the controls select.
use paracetamol.Base.{
  Bool, true, false, not, ◌&&◌, Option, none, some, List, [], ◌∷◌, ◌++◌, ◌≡◌, refl, ◌⊎◌, inl, inr,
  arith, Bool-cases, Option-cases, if◌then◌else◌, ap, sym, subst,
}
use paracetamol.Base.Result.{Result, ok, err, ◌>>=◌}
use paracetamol.Text.{Text, codes, equal}
use mathlib.Core.List.{append-nil, append_assoc}
use paracetamol.Sampling.Modes.{
  effort_mode, toggle_mode, kwargs_modes, request_modes, Selects, Follows, first_mode,
}
use paracetamol.Sampling.Policy.{
  PolicyJson, PolicyError, ReasoningModel, Selection, field, same_mode, policy_object, select_mode,
  select_bool, select_level, select_effort, if_given, select_kwargs, request_thinking,
  cannot_disable, conflicting_modes, not_boolean, not_a_string, unsupported_effort,
  conflicting_efforts,
}

passes :
    {E A : Type 0} (c : Bool) (x : E) (r : Result E A) (a : A)
    → (if c then err x else r) ≡ ok a
    → (c ≡ false) × (r ≡ ok a)
passes true x r a e = cc
passes false x r a e = (refl, e)

ok_same : {E A : Type 0} (a b : A) → ◌≡◌ {A = Result E A} (ok a) (ok b) → a ≡ b
ok_same a b e = ap (λ r. elim r [ ok x ↦ x | err x ↦ a ]) e

-- a chain gets through its first part
continues :
    {E A B : Type 0} (r : Result E A) (next : A → Result E B) (b : B)
    → (r >>= next) ≡ ok b
    → (a : A) × (r ≡ ok a) × (next a ≡ ok b)
continues (ok a) next b e = (a, refl, e)
continues (err x) next b e = cc

same_mode_sound : (a b : Bool) → not (same_mode a b) ≡ false → a ≡ b
same_mode_sound true true e = refl
same_mode_sound true false e = cc
same_mode_sound false true e = cc
same_mode_sound false false e = refl

module _ {R : Type 0} (json : PolicyJson R) (model : ReasoningModel) where
  Selects-snoc :
      (mode : Bool) (modes : List Bool)
      → Selects json model mode modes
      → (mode ≡ true) ⊎ (model.reasoning_off ≡ true)
      → Selects json model mode (modes ++ mode ∷ [])
  unfolding Selects
  Selects-snoc mode [] h allowed = (refl, allowed, h)
  Selects-snoc mode (b ∷ modes) (e, a, h) allowed = (e, a, Selects-snoc mode modes h allowed)

  Follows-effort :
      (s : Selection) (value : Text) (modes : List Bool)
      → Follows json model s modes
      → Follows json model (record s { effort = value }) modes
  unfolding Follows
  Follows-effort s value [] h = h
  Follows-effort s value (b ∷ modes) h = h

  mode-Follows :
      (s : Selection) (enabled : Bool) (modes : List Bool)
      → (enabled ≡ true) ⊎ (model.reasoning_off ≡ true)
      → (s.selected && not (same_mode s.thinking enabled)) ≡ false
      → Follows json model s modes
      → Follows json model
          (record s { thinking = enabled; selected = true })
          (modes ++ enabled ∷ [])
  unfolding Follows Selects
  mode-Follows s enabled [] allowed fits h = (refl, (refl, allowed, tt))
  mode-Follows s enabled (b ∷ modes) allowed fits (chosen, h) =
      let same = same_mode_sound s.thinking enabled (ground (arith, fits, chosen)) in
      (
        refl,
        Selects-snoc enabled (b ∷ modes) (subst (λ m. Selects json model m (b ∷ modes)) same h)
            allowed,
      )

  allows :
      (enabled : Bool)
      → (not enabled && not model.reasoning_off) ≡ false
      → (enabled ≡ true) ⊎ (model.reasoning_off ≡ true)
  allows true e = inl refl
  allows false e = inr (ground (arith, e))

  select_mode-Follows :
      (s s' : Selection) (enabled : Bool) (modes : List Bool)
      → select_mode json model s enabled ≡ ok s'
      → Follows json model s modes
      → Follows json model s' (modes ++ enabled ∷ [])
  unfolding select_mode
  select_mode-Follows s s' enabled modes e h =
      let (off, e1) = passes (not enabled && not model.reasoning_off) cannot_disable _ s' e in
      let (fits, e2) =
        passes (s.selected && not (same_mode s.thinking enabled)) conflicting_modes _ s' e1 in
      subst (λ x. Follows json model x (modes ++ enabled ∷ [])) (ok_same {E = PolicyError} _ s' e2)
        (mode-Follows s enabled modes (allows enabled off) fits h)

  select_level-Follows :
      (s s' : Selection) (value : Text) (top : Bool) (modes : List Bool)
      → select_level json model s value top ≡ ok s'
      → Follows json model s modes
      → Follows json model s' (modes ++ not (top && equal value (codes "none")) ∷ [])
  unfolding select_level
  select_level-Follows s s' value top modes e h =
      elim (Bool-cases (top && equal value (codes "none"))) [
        | inl off ↦ rw off (select_mode-Follows s s' false modes (rw off at e) h)
        | inr level ↦
            let (known, e1) = passes _ unsupported_effort _ s' (rw level at e) in
            let (fits, e2) = passes _ conflicting_efforts _ s' e1 in
            rw level (
              select_mode-Follows (record s { effort = value }) s' true modes e2
                (Follows-effort s value modes h))
      ]

  select_effort-Follows :
      (s s' : Selection) (raw : R) (top : Bool) (modes : List Bool)
      → select_effort json model s raw top ≡ ok s'
      → Follows json model s modes
      → Follows json model s' (modes ++ effort_mode json top (some raw))
  unfolding select_effort effort_mode
  select_effort-Follows s s' raw top modes e h =
      let (given, e1) = passes (json.is_null raw) not_a_string _ s' e in
      elim (Option-cases (json.decode_string raw)) [
        | inl other ↦ absurd (ground (arith, (rw other at e1)))
        | inr (value, found) ↦
            rw (found, effort_mode) (select_level-Follows s s' value top modes (rw found at e1) h)
      ]

  select_bool-Follows :
      (s s' : Selection) (raw : R) (modes : List Bool)
      → select_bool json model s raw ≡ ok s'
      → Follows json model s modes
      → Follows json model s' (modes ++ toggle_mode json (some raw))
  unfolding select_bool toggle_mode
  select_bool-Follows s s' raw modes e h =
      let (given, e1) = passes (json.is_null raw) not_boolean _ s' e in
      elim (Option-cases (json.decode_bool raw)) [
        | inl other ↦ absurd (ground (arith, (rw other at e1)))
        | inr (enabled, found) ↦
            rw (found, toggle_mode) (select_mode-Follows s s' enabled modes (rw found at e1) h)
      ]

  missing-Follows :
      (s s' : Selection) (modes : List Bool)
      → ◌≡◌ {A = Result PolicyError Selection} (ok s) (ok s')
      → Follows json model s modes
      → Follows json model s' (modes ++ [])
  missing-Follows s s' modes e h =
      subst (Follows json model s') (sym (append-nil modes))
        (subst (λ x. Follows json model x modes) (ok_same {E = PolicyError} s s' e) h)

  effort-Follows :
      (s s' : Selection) (given : Option R) (top : Bool) (modes : List Bool)
      → if_given json model (λ t r. select_effort json model t r top) s given ≡ ok s'
      → Follows json model s modes
      → Follows json model s' (modes ++ effort_mode json top given)
  unfolding effort_mode
  effort-Follows s s' none top modes e h = missing-Follows s s' modes e h
  effort-Follows s s' (some raw) top modes e h = select_effort-Follows s s' raw top modes e h

  toggle-Follows :
      (s s' : Selection) (given : Option R) (modes : List Bool)
      → if_given json model (select_bool json model) s given ≡ ok s'
      → Follows json model s modes
      → Follows json model s' (modes ++ toggle_mode json given)
  unfolding toggle_mode
  toggle-Follows s s' none modes e h = missing-Follows s s' modes e h
  toggle-Follows s s' (some raw) modes e h = select_bool-Follows s s' raw modes e h

  kwargs-Follows :
      (s s' : Selection) (given : Option R) (modes : List Bool)
      → if_given json model (select_kwargs json model) s given ≡ ok s'
      → Follows json model s modes
      → Follows json model s' (modes ++ kwargs_modes json given)
  unfolding kwargs_modes select_kwargs
  kwargs-Follows s s' none modes e h = missing-Follows s s' modes e h
  kwargs-Follows s s' (some raw) modes e h =
      let (kwargs, found, e1) = continues (policy_object json raw) _ s' e in
      let (toggled, e2, e3) = continues _ _ s' e1 in
      let enable = field (codes "enable_thinking") kwargs in
      let effort = field (codes "reasoning_effort") kwargs in
      let first = toggle-Follows s toggled enable modes e2 h in
      let last =
        effort-Follows toggled s' effort false (modes ++ toggle_mode json enable) e3 first in
      rw (found, kwargs_modes)
        (subst (Follows json model s')
          (append_assoc modes (toggle_mode json enable) (effort_mode json false effort)) last)

  agreed :
      (s : Selection) (modes : List Bool)
      → Follows json model s modes
      → Selects json model s.thinking modes × (s.thinking ≡ first_mode json model modes)
  unfolding Follows Selects
  agreed s [] h = (tt, h.1)
  agreed s (b ∷ modes) (chosen, h) = (h, sym h.0)

  -- If the controls are accepted, the mode is what each of them selects that is given, and the
  -- model's default if none is; and the model lets the mode that is selected be selected.
  pub request_thinking-Selects :
      (object : List (Text × R)) (thinking : Bool)
      → request_thinking json model object ≡ ok thinking
      → Selects json model thinking (request_modes json object)
        × (thinking ≡ first_mode json model (request_modes json object))
  unfolding request_thinking request_modes Follows
  request_thinking-Selects object thinking e =
      let (first, e1, e2) = continues _ _ thinking e in
      let (last, e3, e4) = continues _ _ thinking e2 in
      let effort = field (codes "reasoning_effort") object in
      let f1 = effort-Follows _ first effort true [] e1 (refl, refl) in
      let f2 =
        kwargs-Follows first last (field (codes "chat_template_kwargs") object)
          (effort_mode json true effort) e3 f1 in
      subst
        (λ t.
          Selects json model t (request_modes json object)
          × (t ≡ first_mode json model (request_modes json object)))
        (ok_same {E = PolicyError} last.thinking thinking e4)
        (agreed last (request_modes json object) f2)
