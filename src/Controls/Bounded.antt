-- ===== src/Controls/Bounded.antt =====
-- `boundedText` of internal/gateway/observability.go. `is_format` is the category Cf of unicode.
use paracetamol.Base.{
  ℕ, suc, ◌≤◌, Bool, false, ◌||◌, [], ◌∷◌, ◌++◌, ◌≡◌, refl, arith, ◌==◌, if◌then◌else◌, length, All,
  Bool-cases, inl, inr, length-append, All-append,
}
use paracetamol.Text.{Text, between}

-- `unicode.IsControl`
abbrev pub is_control : ℕ → Bool
is_control c = between 0 0x1f c || between 0x7f 0x9f c

module _ (is_format : ℕ → Bool) where
  abbrev pub cleaned : ℕ → ℕ
  cleaned c = if is_control c || is_format c then b' ' else c

  -- the loop, with the text that is clean so far
  unfoldable pub clean_onto : ℕ → Text → Text → Text
  clean_onto limit clean [] = clean
  clean_onto limit clean (c ∷ s) =
      let rest = clean_onto limit (clean ++ cleaned c ∷ []) s in
      if length clean == limit then clean ++ 0x2026 ∷ [] else rest

  unfoldable pub bounded_text : Text → ℕ → Text
  unfolding clean_onto
  bounded_text value limit = clean_onto limit [] value

  length-clean_onto :
      (limit : ℕ) (clean value : Text)
      → length clean ≤ limit
      → length (clean_onto limit clean value) ≤ suc limit
  unfolding clean_onto
  length-clean_onto limit clean [] h = omega arith
  length-clean_onto limit clean (c ∷ s) h = elim (Bool-cases (length clean == limit)) [
    | inl full ↦ rw full (omega (arith, h, length-append clean (0x2026 ∷ [])))
    | inr room ↦ rw room (
        length-clean_onto limit (clean ++ cleaned c ∷ []) s
          (ground (arith, h, room, length-append clean (cleaned c ∷ []))))
  ]

  -- a character that is no control character
  abbrev pub IsPlain : ℕ → Type 0
  IsPlain c = is_control c ≡ false

  cleaned-IsPlain : (c : ℕ) → IsPlain (cleaned c)
  cleaned-IsPlain c = elim (Bool-cases (is_control c || is_format c)) [
    | inl odd ↦ rw odd refl
    | inr fine ↦ rw fine (ground (arith, fine))
  ]

  clean_onto-IsPlain :
      (limit : ℕ) (clean value : Text)
      → All IsPlain clean
      → All IsPlain (clean_onto limit clean value)
  unfolding clean_onto
  clean_onto-IsPlain limit clean [] h = h
  clean_onto-IsPlain limit clean (c ∷ s) h = elim (Bool-cases (length clean == limit)) [
    | inl full ↦ rw full (All-append IsPlain clean (0x2026 ∷ []) h (refl, tt))
    | inr room ↦ rw room (
        clean_onto-IsPlain limit (clean ++ cleaned c ∷ []) s
          (All-append IsPlain clean (cleaned c ∷ []) h (cleaned-IsPlain c, tt)))
  ]

  -- What `boundedText` returns has at most one character more than the limit, and no control
  -- character.
  bounded_text-IsPlain :
      (value : Text) (limit : ℕ)
      → (length (bounded_text value limit) ≤ suc limit) × All IsPlain (bounded_text value limit)
  unfolding bounded_text
  bounded_text-IsPlain value limit =
      (length-clean_onto limit [] value (omega arith), clean_onto-IsPlain limit [] value tt)
