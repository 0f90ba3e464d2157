-- ===== src/Sampling/Filled.antt =====
-- What the defaults of the sampling policy change in a request.
use paracetamol.Base.{
  Bool, true, false, not, ◌||◌, none, some, List, [], ◌∷◌, ◌≡◌, refl, ◌⊎◌, inl, inr, arith,
  Bool-cases, Option-cases, ap, sym, ◌∙◌,
}
use paracetamol.Text.{Text, equal}
use paracetamol.Ledger.Maps.{equal→≡}
use paracetamol.Sampling.Policy.{PolicyJson, field}
use paracetamol.Sampling.Rewrite.{
  Encoding, ObservedControl, note_default, is_given, has_default, fill_defaults,
}

module _ {R V : Type 0} (json : PolicyJson R) (encoding : Encoding R V) where
  given_apart :
      (name key : Text) (object : List (Text × R))
      → is_given json name object ≡ false
      → is_given json key object ≡ true
      → equal name key ≡ false
  given_apart name key object missing given = elim (Bool-cases (equal name key)) [
    | inl same ↦
        absurd
          (ground (arith, missing, given, ap (λ k. is_given json k object) (equal→≡ name key same)))
    | inr apart ↦ apart
  ]

  given_still :
      (name key : Text) (raw : R) (object : List (Text × R))
      → equal name key ≡ false
      → is_given json key ((name, raw) ∷ object) ≡ is_given json key object
  unfolding is_given
  given_still name key raw object apart = rw (apart, is_given) refl

  filled_kept :
      (name key : Text) (value : V) (rest : List (Text × V)) (raw : R) (object : List (Text × R))
      → is_given json name object ≡ false
      → (is_given json key object ≡ true) ⊎ (has_default key ((name, value) ∷ rest) ≡ false)
      → (equal name key ≡ false)
        × ((is_given json key ((name, raw) ∷ object) ≡ true) ⊎ (has_default key rest ≡ false))
  filled_kept name key value rest raw object missing (inl sent) =
      let apart = given_apart name key object missing sent in
      (apart, inl (given_still name key raw object apart ∙ sent))
  filled_kept name key value rest raw object missing (inr none_for) =
      (ground (arith, none_for), inr (ground (arith, none_for)))

  field-other :
      (name key : Text) (raw : R) (object : List (Text × R))
      → equal name key ≡ false
      → field key ((name, raw) ∷ object) ≡ field key object
  field-other name key raw object apart = rw apart refl

  -- what the client has sent stays, and so does a field without a default
  fill_defaults-field :
      (defaults : List (Text × V)) (object object' : List (Text × R))
      (controls : List ObservedControl) (changed changed' : Bool) (key : Text)
      → (is_given json key object ≡ true) ⊎ (has_default key defaults ≡ false)
      → (fill_defaults json encoding defaults object controls changed).1 ≡ some (object', changed')
      → field key object' ≡ field key object
  unfolding fill_defaults
  fill_defaults-field [] object object' controls changed changed' key kept e =
      ap (λ r. elim r [ none ↦ field key object | some (o, c) ↦ field key o ]) (sym e)
  fill_defaults-field ((name, value) ∷ rest) object object' controls changed changed' key kept e =
      elim (Bool-cases (is_given json name object)) [
        | inl given ↦
            let kept' : (is_given json key object ≡ true) ⊎ (has_default key rest ≡ false) =
              elim kept [ inl sent ↦ inl sent | inr none_for ↦ inr (ground (arith, none_for)) ] in
            fill_defaults-field rest object object' controls changed changed' key kept'
              (rw given at e)
        | inr missing ↦ elim (Option-cases (encoding.encode value)) [
          | inl failing ↦ absurd (ground (arith, (rw failing at (rw missing at e))))
          | inr (raw, encoded) ↦
              let (apart, kept') = filled_kept name key value rest raw object missing kept in
              fill_defaults-field rest ((name, raw) ∷ object) object'
                (note_default name (encoding.text_of raw) controls) true changed' key kept'
                (rw encoded at (rw missing at e))
              ∙ field-other name key raw object apart
        ]
      ]

  given_first :
      (name key : Text) (raw : R) (object : List (Text × R))
      → equal name key ≡ true
      → json.is_null raw ≡ false
      → is_given json key ((name, raw) ∷ object) ≡ true
  unfolding is_given
  given_first name key raw object same set = rw (same, is_given) (rw set refl)

  field-is_given :
      (key : Text) (object object' : List (Text × R))
      → field key object' ≡ field key object
      → is_given json key object' ≡ is_given json key object
  unfolding is_given
  field-is_given key object object' e =
      ap (λ f. elim f as (λ x. Bool) [ none ↦ false | some raw ↦ not (json.is_null raw) ]) e

  or_false : (b : Bool) → b ≡ (b || false)
  or_false true = refl
  or_false false = refl

  or_true : (b : Bool) → true ≡ (b || true)
  or_true true = refl
  or_true false = refl

  given_or :
      (name key : Text) (object : List (Text × R)) (b : Bool)
      → is_given json name object ≡ true
      → (is_given json key object || b) ≡ (is_given json key object || (equal name key || b))
  given_or name key object b given = elim (Bool-cases (equal name key)) [
    | inl same ↦
        let here : is_given json key object ≡ true =
          sym (ap (λ k. is_given json k object) (equal→≡ name key same)) ∙ given in
        rw here refl
    | inr apart ↦ rw apart refl
  ]

  filled_or :
      (name key : Text) (raw : R) (object : List (Text × R)) (b : Bool)
      → json.is_null raw ≡ false
      → (is_given json key ((name, raw) ∷ object) || b)
        ≡ (is_given json key object || (equal name key || b))
  filled_or name key raw object b set = elim (Bool-cases (equal name key)) [
    | inl same ↦
        rw (given_first name key raw object same set, same) (or_true (is_given json key object))
    | inr apart ↦ rw (given_still name key raw object apart, apart) refl
  ]

  fill_defaults-is_given :
      ((value : V) (raw : R) → encoding.encode value ≡ some raw → json.is_null raw ≡ false)
      → (defaults : List (Text × V)) (object object' : List (Text × R))
        (controls : List ObservedControl) (changed changed' : Bool) (key : Text)
      → (fill_defaults json encoding defaults object controls changed).1 ≡ some (object', changed')
      → is_given json key object' ≡ (is_given json key object || has_default key defaults)
  unfolding fill_defaults
  fill_defaults-is_given set [] object object' controls changed changed' key e =
      field-is_given key object object'
        (fill_defaults-field [] object object' controls changed changed' key (inr refl) e)
      ∙ or_false (is_given json key object)
  fill_defaults-is_given set ((name, value) ∷ rest) object object' controls changed changed' key e =
      elim (Bool-cases (is_given json name object)) [
        | inl given ↦
            fill_defaults-is_given set rest object object' controls changed changed' key
              (rw given at e)
            ∙ given_or name key object (has_default key rest) given
        | inr missing ↦ elim (Option-cases (encoding.encode value)) [
          | inl failing ↦ absurd (ground (arith, (rw failing at (rw missing at e))))
          | inr (raw, encoded) ↦
              fill_defaults-is_given set rest ((name, raw) ∷ object) object'
                (note_default name (encoding.text_of raw) controls) true changed' key
                (rw encoded at (rw missing at e))
              ∙ filled_or name key raw object (has_default key rest) (set value raw encoded)
        ]
      ]

  -- Where a default that is encoded is not null: a field is as the client has sent it, unless the
  -- client has sent none but null and there is a default for it; and what has a value in the end is
  -- what the client has sent and what there is a default for.
  pub fill_defaults-fields :
      ((value : V) (raw : R) → encoding.encode value ≡ some raw → json.is_null raw ≡ false)
      → (defaults : List (Text × V)) (object object' : List (Text × R))
        (controls : List ObservedControl) (changed changed' : Bool) (key : Text)
      → (fill_defaults json encoding defaults object controls changed).1 ≡ some (object', changed')
      → ((field key object' ≡ field key object)
          ⊎ ((is_given json key object ≡ false) × (has_default key defaults ≡ true)))
        × (is_given json key object' ≡ (is_given json key object || has_default key defaults))
  fill_defaults-fields set defaults object object' controls changed changed' key e =
      let keep = λ (kept : (is_given json key object ≡ true) ⊎ (has_default key defaults ≡ false)).
        fill_defaults-field defaults object object' controls changed changed' key kept e in
      (
        elim (Bool-cases (is_given json key object)) [
          | inl sent ↦ inl (keep (inl sent))
          | inr missing ↦ elim (Bool-cases (has_default key defaults)) [
            | inl named ↦ inr (missing, named)
            | inr other ↦ inl (keep (inr other))
          ]
        ],
        fill_defaults-is_given set defaults object object' controls changed changed' key e,
      )
