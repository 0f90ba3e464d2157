-- ===== src/Controls/Session.antt =====
-- `normalizeSessionID` of internal/gateway/observability.go, on ASCII characters, which alone it
-- accepts. `strings.ToLower` on them.
use paracetamol.Base.{
  ℕ, ◌+◌, Bool, true, false, not, ◌&&◌, ◌||◌, Option, none, some, [], ◌∷◌, ◌≡◌, refl, arith, ◌==◌,
  if◌then◌else◌, length, map, Bool-cases, inl, inr, sym, ap, ◌∙◌, ==_iff,
}
use paracetamol.Text.{Text, between, trim_space, trim_left, trim_right, keep, is_space}

unfoldable pub to_lower : ℕ → ℕ
to_lower c = if between b'A' b'Z' c then c + 32 else c

abbrev pub is_dash_place : ℕ → Bool
is_dash_place index = index == 8 || index == 13 || index == 18 || index == 23

-- the test of the character at an index
abbrev pub fits : ℕ → ℕ → Bool
fits index c = if is_dash_place index then c == b'-' else between b'0' b'9' c || between b'a' b'f' c

unfoldable pub all_fit : ℕ → Text → Bool
all_fit index [] = true
all_fit index (c ∷ s) = fits index c && all_fit (index + 1) s

unfoldable pub normalize_session_id : Text → Option Text
unfolding to_lower all_fit trim_space
normalize_session_id raw =
    let value = map to_lower (trim_space raw) in
    if not (length value == 36) then none else if all_fit 0 value then some value else none

fits-lower : (index c : ℕ) → fits index c ≡ true → to_lower c ≡ c
unfolding to_lower
fits-lower index c h = ground arith

fits-dark : (index c : ℕ) → fits index c ≡ true → is_space c ≡ false
unfolding is_space
fits-dark index c h = ground arith

lower-fit : (index : ℕ) (s : Text) → all_fit index s ≡ true → map to_lower s ≡ s
unfolding all_fit
lower-fit index [] h = refl
lower-fit index (c ∷ s) h =
    let here : fits index c ≡ true = ground (arith, h) in
    let rest : all_fit (index + 1) s ≡ true = ground (arith, h) in
    rw (fits-lower index c here) (rw (lower-fit (index + 1) s rest) refl)

keep-dark : (c : ℕ) (s : Text) → is_space c ≡ false → keep c s ≡ c ∷ s
unfolding keep
keep-dark c [] h = rw h refl
keep-dark c (d ∷ s) h = refl

trim_right-fit : (index : ℕ) (s : Text) → all_fit index s ≡ true → trim_right s ≡ s
unfolding all_fit trim_right
trim_right-fit index [] h = refl
trim_right-fit index (c ∷ s) h =
    let here : fits index c ≡ true = ground (arith, h) in
    let rest : all_fit (index + 1) s ≡ true = ground (arith, h) in
    rw (trim_right-fit (index + 1) s rest) (keep-dark c s (fits-dark index c here))

trim_space-fit : (s : Text) → all_fit 0 s ≡ true → trim_space s ≡ s
unfolding trim_space trim_left
trim_space-fit [] h = refl
trim_space-fit (c ∷ s) h =
    let here : fits 0 c ≡ true = unfold all_fit in ground (arith, h) in
    rw (fits-dark 0 c here) (trim_right-fit 0 (c ∷ s) h)

-- A session identifier that `normalizeSessionID` returns has 36 characters, which are a dash at the
-- places 8, 13, 18 and 23 and lower-case hexadecimal digits elsewhere, and is returned unchanged if
-- it is normalized again.
normalize_session_id-twice :
    (raw value : Text)
    → normalize_session_id raw ≡ some value
    → (length value ≡ 36) × (all_fit 0 value ≡ true) × (normalize_session_id value ≡ some value)
unfolding normalize_session_id
normalize_session_id-twice raw value h =
    let lowered = map to_lower (trim_space raw) in
    elim (Bool-cases (length lowered == 36)) [
      | inr short ↦ absurd (ground (arith, h, short))
      | inl full ↦ elim (Bool-cases (all_fit 0 lowered)) [
        | inr unfit ↦ absurd (ground (arith, h, full, unfit))
        | inl fit ↦
            let e : lowered ≡ value = ground (arith, h, full, fit) in
            let fit' : all_fit 0 value ≡ true = ap (λ (x : Text). all_fit 0 x) (sym e) ∙ fit in
            let full' : (length value == 36) ≡ true =
              ap (λ (x : Text). length x == 36) (sym e) ∙ full in
            (
              (==_iff (length value) 36).0 full',
              fit',
              rw (trim_space-fit value fit')
                  (rw (lower-fit 0 value fit') (rw full' (rw fit' refl))),
            )
      ]
    ]
