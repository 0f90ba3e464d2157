-- ===== src/Config/Quoting.antt =====
-- A grammar of quoted lines, and the steps of `strip_from` of Config/Values.antt, the loop of
-- `stripConfigurationComment`.
use paracetamol.Base.{
  ℕ, Bool, true, false, ◌&&◌, ◌||◌, [], ◌∷◌, ◌++◌, ◌≡◌, refl, ◌⊎◌, inl, inr, arith, ◌==◌,
}
use paracetamol.Base.Result.{ok, ◌>>=◌, Result-cases}
use paracetamol.Text.{Text}
use paracetamol.Config.Values.{next_quote, next_escaped, strip_from}

pub data Place : Type 0 where
  outside in_literal in_basic : Place

-- A text from a place up to its end outside of quotes: outside are plain characters, literals
-- between single quotes, and basic strings between double quotes, where a backslash takes the
-- character behind it along.
pub data Quoting : Place → Text → Type 0 where
  ends : Quoting outside []
  plain :
      {c : ℕ} {s : Text}
      → (c == b'#' || c == b'\'' || c == b'"') ≡ false
      → Quoting outside s
      → Quoting outside (c ∷ s)
  opens_literal : {s : Text} → Quoting in_literal s → Quoting outside (b'\'' ∷ s)
  opens_basic : {s : Text} → Quoting in_basic s → Quoting outside (b'"' ∷ s)
  literal :
      {c : ℕ} {s : Text} → (c == b'\'') ≡ false → Quoting in_literal s → Quoting in_literal (c ∷ s)
  closes_literal : {s : Text} → Quoting outside s → Quoting in_literal (b'\'' ∷ s)
  basic :
      {c : ℕ} {s : Text}
      → (c == b'"' || c == b'\\') ≡ false
      → Quoting in_basic s
      → Quoting in_basic (c ∷ s)
  escapes : {c : ℕ} {s : Text} → Quoting in_basic s → Quoting in_basic (b'\\' ∷ c ∷ s)
  closes_basic : {s : Text} → Quoting outside s → Quoting in_basic (b'"' ∷ s)

-- nothing, or a comment
abbrev pub Comment : Text → Type 0
Comment comment = (comment ≡ []) ⊎ ((rest : Text) × (comment ≡ b'#' ∷ rest))

-- `line`, whose quotes are all closed, stands before the comment
pub record Strips (place : Place) (raw line : Text) : Type 0 where
  pub comment : Text
  pub splits : raw ≡ line ++ comment
  pub starts : Comment comment
  pub quoting : Quoting place line

abbrev pub quote_of : Place → ℕ
quote_of outside = 0
quote_of in_literal = b'\''
quote_of in_basic = b'"'

pub strip_from-cons :
    (quote : ℕ) (escaped : Bool) (c : ℕ) (s : Text)
    → (quote == 0 && c == b'#') ≡ false
    → strip_from quote escaped (c ∷ s) ≡ (
        strip_from (next_quote quote escaped c) (next_escaped quote escaped c) s >>= λ kept.
        ok (c ∷ kept))
unfolding strip_from
strip_from-cons quote escaped c s no_comment = rw no_comment refl

pub strip_from-comment :
    (c : ℕ) (s line : Text)
    → (c == b'#') ≡ true
    → strip_from 0 false (c ∷ s) ≡ ok line
    → (line ≡ []) × (c ≡ b'#')
unfolding strip_from
strip_from-comment c s line here e = ground arith

-- a character before the comment, and the state behind it
pub strip_from-inner :
    (quote q : ℕ) (escaped f : Bool) (c : ℕ) (s line : Text)
    → (quote == 0 && c == b'#') ≡ false
    → next_quote quote escaped c ≡ q
    → next_escaped quote escaped c ≡ f
    → strip_from quote escaped (c ∷ s) ≡ ok line
    → (kept : Text) × (strip_from q f s ≡ ok kept) × (line ≡ c ∷ kept)
strip_from-inner quote q escaped f c s line n a b e =
    let step = strip_from-cons quote escaped c s n in
    elim (Result-cases (strip_from q f s)) [
      | inl (kept, k) ↦ (kept, k, ground (arith, e, step, a, b, k))
      | inr (x, k) ↦ absurd (ground (arith, e, step, a, b, k))
    ]

pub strip_from-outer :
    (quote q : ℕ) (escaped f : Bool) (c : ℕ) (s line : Text)
    → (quote == 0 && c == b'#') ≡ false
    → next_quote quote escaped c ≡ q
    → next_escaped quote escaped c ≡ f
    → strip_from q f s ≡ ok line
    → strip_from quote escaped (c ∷ s) ≡ ok (c ∷ line)
strip_from-outer quote q escaped f c s line n a b e =
    rw (strip_from-cons quote escaped c s n) (rw (a, b, e) refl)
