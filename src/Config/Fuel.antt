-- ===== src/Config/Fuel.antt =====
-- The fuel of the loops of internal/config/parser.go.
use paracetamol.Base.{
  ℕ, zero, suc, ◌<◌, ◌≤◌, List, [], ◌∷◌, ◌++◌, ◌≡◌, ◌⊎◌, ap, refl, arith, length, Option-cases, inl,
  inr, none, some, Bool-cases, ◌&&◌, ◌==◌,
}
use paracetamol.Base.Result.{ok, Result-cases}
use paracetamol.Text.{Text, drop, unsnoc}
use paracetamol.Config.Values.{
  validate_token, validate_from, unquote_token, unquote_from, parse_string,
}
use paracetamol.Config.Numbers.{skip_blanks, scan, element, after_element, elements}

length-drop : (n : ℕ) (s : Text) → length (drop n s) ≤ length s
length-drop zero s = omega arith
length-drop (suc n) [] = omega arith
length-drop (suc n) (c ∷ s) = omega (arith, length-drop n s)

validate_from-fuel :
    (fuel big : ℕ) (s : Text)
    → length s ≤ fuel
    → fuel ≤ big
    → validate_from big s ≡ validate_from fuel s
unfolding validate_from
validate_from-fuel fuel big [] h l = unfold validate_from in refl
validate_from-fuel zero big (c ∷ s) h l = absurd (omega arith)
validate_from-fuel (suc fuel) zero (c ∷ s) h l = absurd (omega arith)
validate_from-fuel (suc fuel) (suc big) (c ∷ s) h l = elim (Result-cases (validate_token c s)) [
  | inr (e, bad) ↦ rw (bad, validate_from) refl
  | inl (n, fine) ↦
      let same =
        validate_from-fuel fuel big (drop n s) (omega (arith, length-drop n s)) (omega arith) in
      rw (fine, validate_from) same
]

unquote_from-fuel :
    (fuel big : ℕ) (s : Text)
    → length s ≤ fuel
    → fuel ≤ big
    → unquote_from big s ≡ unquote_from fuel s
unfolding unquote_from
unquote_from-fuel fuel big [] h l = unfold unquote_from in refl
unquote_from-fuel zero big (c ∷ s) h l = absurd (omega arith)
unquote_from-fuel (suc fuel) zero (c ∷ s) h l = absurd (omega arith)
unquote_from-fuel (suc fuel) (suc big) (c ∷ s) h l = elim (Result-cases (unquote_token c s)) [
  | inr (e, bad) ↦ rw (bad, unquote_from) refl
  | inl ((v, n), fine) ↦
      let same =
        unquote_from-fuel fuel big (drop n s) (omega (arith, length-drop n s)) (omega arith) in
      rw (fine, unquote_from) (rw same refl)
]

List-cases : (s : Text) → (s ≡ []) ⊎ ((p : ℕ × Text) × (s ≡ p.0 ∷ p.1))
List-cases [] = inl refl
List-cases (c ∷ s) = inr ((c, s), refl)

length-skip_blanks : (s : Text) → length (skip_blanks s) ≤ length s
unfolding skip_blanks
length-skip_blanks [] = omega arith
length-skip_blanks (c ∷ s) = ground (arith, length-skip_blanks s)

length-scan : (quote : ℕ) (s : Text) {t r : Text} → scan quote s ≡ some (t, r) → length r ≤ length s
unfolding scan
length-scan quote [] h = ground arith
length-scan quote (c ∷ []) h = ground arith
length-scan quote (c ∷ d ∷ s) h = elim (Bool-cases (quote == b'"' && c == b'\\')) [
  | inl escape ↦ elim (Option-cases (scan quote s)) [
    | inl missing ↦ absurd (ground (arith, h, escape, missing))
    | inr ((u, r), found) ↦
        let shorter = length-scan quote s found in ground (arith, h, escape, found, shorter)
  ]
  | inr other ↦ elim (Bool-cases (c == quote)) [
    | inl closing ↦ ground (arith, h, other, closing)
    | inr inside ↦ elim (Option-cases (scan quote (d ∷ s))) [
      | inl missing ↦ absurd (ground (arith, h, other, inside, missing))
      | inr ((u, r), found) ↦
          let shorter = length-scan quote (d ∷ s) found in
          ground (arith, h, other, inside, found, shorter)
    ]
  ]
]

element-unscanned :
    (first : ℕ) (s : Text) {e : Text × Text} → scan first s ≡ none → element first s ≡ ok e → ⊥
unfolding element
element-unscanned first s missing h = ground arith

element-rest :
    (first : ℕ) (s : Text) {taken left v rest : Text}
    → scan first s ≡ some (taken, left)
    → element first s ≡ ok (v, rest)
    → length rest ≡ length left
unfolding element
element-rest first s {taken} found h = elim (Option-cases (unsnoc (first ∷ taken))) [
  | inl missing ↦ absurd (ground arith)
  | inr ((front, last), ends) ↦ elim (Result-cases (parse_string (first ∷ taken))) [
    | inr (e, bad) ↦ absurd (ground arith)
    | inl (value, fine) ↦ ground arith
  ]
]

length-element :
    (first : ℕ) (s : Text) {v rest : Text} → element first s ≡ ok (v, rest) → length rest ≤ length s
unfolding element
length-element first s h = elim (Option-cases (scan first s)) [
  | inl missing ↦ absurd (element-unscanned first s missing h)
  | inr ((taken, left), found) ↦
      let shorter = length-scan first s found in
      let same = element-rest first s found h in omega arith
]

length-after_element : (s : Text) {t : Text} → after_element s ≡ ok (some t) → length t < length s
unfolding after_element
length-after_element [] h = ground arith
length-after_element (c ∷ s) h = ground arith

-- With more fuel than characters, the loop over the elements of an array gives the same result for
-- any fuel that is larger: what `parseConfigurationStringArray` gives it is enough.
elements-fuel :
    (fuel big : ℕ) (values : List Text) (s : Text)
    → length s < fuel
    → fuel ≤ big
    → elements big values s ≡ elements fuel values s
unfolding elements
elements-fuel zero big values s h l = absurd (omega arith)
elements-fuel (suc fuel) zero values s h l = absurd (omega arith)
elements-fuel (suc fuel) (suc big) values s h l = elim (List-cases (skip_blanks s)) [
  | inl blank ↦ rw (blank, elements) refl
  | inr ((c, r), full) ↦ elim (Result-cases (element c r)) [
    | inr (e, bad) ↦ rw (full, elements) (rw bad refl)
    | inl ((v, rest), fine) ↦ elim (Result-cases (after_element (skip_blanks rest))) [
      | inr (e, bad) ↦ rw (full, elements) (rw fine (rw bad refl))
      | inl (none, ends) ↦ rw (full, elements) (rw fine (rw ends refl))
      | inl (some t, more) ↦
          let blanks = length-skip_blanks s in
          let taken = length-element c r fine in
          let again = length-skip_blanks rest in
          let comma = length-after_element (skip_blanks rest) more in
          let shorter : length t < fuel = omega (arith, ap (λ (x : Text). length x) full) in
          rw (full, elements)
            (rw fine (rw more (elements-fuel fuel big (values ++ v ∷ []) t shorter (omega arith))))
    ]
  ]
]

-- The three loops that run on fuel are given enough: the validation and the reading of a basic
-- string of `s`, and the reading of an array with body `s`, have the same result for every fuel
-- beyond the one that the functions give.
enough_fuel :
    (s : Text) (big : ℕ)
    → length s < big
    → (validate_from big s ≡ validate_from (length s) s)
      × (unquote_from big s ≡ unquote_from (length s) s)
      × (elements big [] s ≡ elements (suc (length s)) [] s)
enough_fuel s big h = (
  validate_from-fuel (length s) big s (omega arith) (omega arith),
  unquote_from-fuel (length s) big s (omega arith) (omega arith),
  elements-fuel (suc (length s)) big [] s (omega arith) (omega arith),
)
