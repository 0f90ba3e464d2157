-- ===== src/Controls/Conflict.antt =====
-- `reasoningControlsConflict`. A kind of control is what its name ends with.
use paracetamol.Base.{
  Bool, true, false, not, ◌&&◌, Option, none, some, List, [], ◌∷◌, ◌≡◌, refl, arith, if◌then◌else◌,
  Bool-cases, inl, inr, sym, ap, ◌∙◌, All,
}
use paracetamol.Text.{Text, codes, equal}

pub data ControlSource : Type 0 where
  client default gateway_default invalid : ControlSource

-- the kind of a control: its suffix, or the empty string
pub data ControlKind : Type 0 where
  enable_thinking reasoning_effort reasoning_strength nothing : ControlKind

-- `Name` counts by its kind only
pub record ObservedControl : Type 0 where
  pub kind : ControlKind
  pub source : ControlSource
  pub provided : Bool
  pub value : Text

abbrev pub is_client : ControlSource → Bool
is_client client = true
is_client _ = false

-- whether the control asks for thinking
unfoldable pub wants : ControlKind → Text → Bool
wants enable_thinking value = equal value (codes "true")
wants reasoning_effort value = not (equal value (codes "none")) && not (equal value (codes "off"))
wants reasoning_strength value = not (equal value (codes "none")) && not (equal value (codes "off"))
wants nothing value = true

-- `values` and `decision`
pub record Seen : Type 0 where
  pub values : ControlKind → Option Text
  pub decision : Option Bool

abbrev pub same_kind : ControlKind → ControlKind → Bool
same_kind enable_thinking enable_thinking = true
same_kind reasoning_effort reasoning_effort = true
same_kind reasoning_strength reasoning_strength = true
same_kind nothing nothing = true
same_kind _ _ = false

abbrev pub differs : Option Text → Text → Bool
differs none value = false
differs (some previous) value = not (equal previous value)

abbrev pub reversed : Option Bool → Bool → Bool
reversed none current = false
reversed (some decision) current = if decision then not current else current

unfoldable pub conflict_from : Seen → List ObservedControl → Bool
unfolding wants
conflict_from s [] = false
conflict_from s (c ∷ rest) =
    let current = wants c.kind c.value in
    let skipped = conflict_from s rest in
    let later =
      conflict_from
        (record {
          values = λ k. if same_kind c.kind k then some c.value else s.values k;
          decision = some current;
        })
        rest in
    if not (is_client c.source)
    then skipped
    else if differs (s.values c.kind) c.value
    then true
    else if reversed s.decision current
    then true
    else later

abbrev pub none_seen : Seen
none_seen = record { values = λ k. none; decision = none }

unfoldable pub reasoning_controls_conflict : List ObservedControl → Bool
unfolding conflict_from
reasoning_controls_conflict controls = conflict_from none_seen controls

-- the controls of the client decide one way
abbrev pub OneWay : Bool → List ObservedControl → Type 0
OneWay decision controls =
    All (λ c. is_client c.source ≡ true → wants c.kind c.value ≡ decision) controls

reversed-false :
    (decision current : Bool) → reversed (some decision) current ≡ false → current ≡ decision
reversed-false decision current h = ground arith

-- the state behind a control of the client
abbrev then_seen : Seen → ObservedControl → Seen
then_seen s c = record {
  values = λ k. if same_kind c.kind k then some c.value else s.values k;
  decision = some (wants c.kind c.value);
}

conflict_from-skip :
    (s : Seen) (c : ObservedControl) (rest : List ObservedControl)
    → is_client c.source ≡ false
    → conflict_from s (c ∷ rest) ≡ conflict_from s rest
unfolding conflict_from
conflict_from-skip s c rest other = rw other refl

conflict_from-client :
    (s : Seen) (c : ObservedControl) (rest : List ObservedControl)
    → is_client c.source ≡ true
    → conflict_from s (c ∷ rest) ≡ false
    → (reversed s.decision (wants c.kind c.value) ≡ false)
      × (conflict_from (then_seen s c) rest ≡ false)
unfolding conflict_from
conflict_from-client s c rest ours h = elim (Bool-cases (differs (s.values c.kind) c.value)) [
  | inl different ↦ absurd (ground (arith, h, ours, different))
  | inr same ↦ elim (Bool-cases (reversed s.decision (wants c.kind c.value))) [
    | inl turned ↦ absurd (ground (arith, h, ours, same, turned))
    | inr kept ↦ (kept, ground (arith, h, ours, same, kept))
  ]
]

conflict_from-OneWay :
    (s : Seen) (decision : Bool) (controls : List ObservedControl)
    → s.decision ≡ some decision
    → conflict_from s controls ≡ false
    → OneWay decision controls
conflict_from-OneWay s decision [] d h = tt
conflict_from-OneWay s decision (c ∷ rest) d h = elim (Bool-cases (is_client c.source)) [
  | inr other ↦ (
    λ ours. absurd (ground (arith, other, ours)),
    conflict_from-OneWay s decision rest d (sym (conflict_from-skip s c rest other) ∙ h),
  )
  | inl ours ↦
      let (kept, later) = conflict_from-client s c rest ours h in
      let agrees = reversed-false decision (wants c.kind c.value) (rw d at kept) in
      (λ o. agrees, conflict_from-OneWay (then_seen s c) decision rest (ap some agrees) later)
]

conflict_from-Some :
    (s : Seen) (controls : List ObservedControl)
    → conflict_from s controls ≡ false
    → (decision : Bool) × OneWay decision controls
conflict_from-Some s [] h = (true, tt)
conflict_from-Some s (c ∷ rest) h = elim (Bool-cases (is_client c.source)) [
  | inr other ↦
      let (decision, all) =
        conflict_from-Some s rest (sym (conflict_from-skip s c rest other) ∙ h) in
      (decision, (λ ours. absurd (ground (arith, other, ours)), all))
  | inl ours ↦
      let (kept, later) = conflict_from-client s c rest ours h in
      let decision = wants c.kind c.value in
      (decision, (λ o. refl, conflict_from-OneWay (then_seen s c) decision rest refl later))
]

-- Controls that `reasoningControlsConflict` finds no conflict in decide one way: all those that the
-- client set ask for thinking, or none does.
pub reasoning_controls_conflict-OneWay :
    (controls : List ObservedControl)
    → reasoning_controls_conflict controls ≡ false
    → (decision : Bool) × OneWay decision controls
unfolding reasoning_controls_conflict
reasoning_controls_conflict-OneWay controls h = conflict_from-Some none_seen controls h
