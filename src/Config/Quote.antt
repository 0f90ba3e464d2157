-- ===== src/Config/Quote.antt =====
-- `strconv.Quote`, as `DefaultContents` of internal/config/config.go uses it, and how the parser
-- reads its results. `is_print` is `unicode.IsPrint` beyond ASCII.
use paracetamol.Base.{
  ℕ, zero, suc, ◌+◌, ◌/◌, ◌%◌, ◌≤◌, Bool, true, false, ◌&&◌, ◌||◌, [], ◌∷◌, ◌++◌, ◌≡◌, refl, ◌⊎◌,
  some, inl, inr, arith, ltb, leb, ◌==◌, if◌then◌else◌, length, length-append, All, Bool-cases, ◌∙◌,
}
use paracetamol.Base.Result.{ok, ◌>>=◌}
use paracetamol.Text.{Text, between, is_space, trim_left, trim_right, keep, trim_space, unsnoc}
use paracetamol.Config.Values.{
  validate_escape, validate_token, validate_from, unquote_escape, unquote_token, unquote_from,
  basic_string, string_body, quoted, parse_string,
}

abbrev hex_char : ℕ → ℕ
hex_char n = if ltb n 10 then n + b'0' else n + 87

-- `n` hexadecimal digits, and what follows
unfoldable pub hex_text : ℕ → ℕ → Text → Text
hex_text zero v rest = rest
hex_text (suc n) v rest = hex_text n (v / 16) (hex_char (v % 16) ∷ rest)

-- the escape of a control character
unfoldable pub escape_control : ℕ → Text
unfolding hex_text
escape_control c =
    if c == 7
    then b'a' ∷ []
    else if c == 8
    then b'b' ∷ []
    else if c == 9
    then b't' ∷ []
    else if c == 10
    then b'n' ∷ []
    else if c == 11
    then b'v' ∷ []
    else if c == 12
    then b'f' ∷ []
    else if c == 13
    then b'r' ∷ []
    else b'x' ∷ hex_text 2 c []

module _ (is_print : ℕ → Bool) where
  unfoldable pub quote_rune : ℕ → Text
  unfolding escape_control
  quote_rune c =
      if c == b'"' || c == b'\\'
      then b'\\' ∷ c ∷ []
      else if between 0x20 0x7e c || (ltb 0x7f c && is_print c)
      then c ∷ []
      else if leb c 0x7f
      then b'\\' ∷ escape_control c
      else if ltb c 0x10000
      then b'\\' ∷ b'u' ∷ hex_text 4 c []
      else b'\\' ∷ b'U' ∷ hex_text 8 c []

  unfoldable pub quote_body : Text → Text
  unfolding quote_rune
  quote_body [] = []
  quote_body (c ∷ s) = quote_rune c ++ quote_body s

  -- `strconv.Quote`
  unfoldable pub quote : Text → Text
  unfolding quote_body
  quote s = b'"' ∷ (quote_body s ++ b'"' ∷ [])

  -- quoted as itself, or by a backslash and one character that the configuration allows
  abbrev pub IsKept : ℕ → Type 0
  IsKept c =
      (between 0x20 0x7e c || (ltb 0x7f c && is_print c) || between 8 10 c || between 12 13 c)
      ≡ true

  -- The escapes that occur, and the characters that stand for themselves.
  pub data Kept (c : ℕ) : Type 0 where
    plain :
        quote_rune c ≡ c ∷ []
        → ((rest : Text) → validate_token c rest ≡ ok 0)
        → ((rest : Text) → unquote_token c rest ≡ ok (c, 0))
        → (c == b'"' || c == b'\\' || c == b'\n') ≡ false
        → Kept c
    escaped :
        (e : ℕ)
        → quote_rune c ≡ b'\\' ∷ e ∷ []
        → ((rest : Text) → validate_escape (e ∷ rest) ≡ ok 1)
        → ((rest : Text) → unquote_escape (e ∷ rest) ≡ ok (c, 1))
        → (e == b'\n') ≡ false
        → Kept c

  Kept-at :
      (k e : ℕ) (c : ℕ)
      → c ≡ k
      → quote_rune k ≡ b'\\' ∷ e ∷ []
      → ((rest : Text) → validate_escape (e ∷ rest) ≡ ok 1)
      → ((rest : Text) → unquote_escape (e ∷ rest) ≡ ok (k, 1))
      → (e == b'\n') ≡ false
      → Kept c
  Kept-at k e c h q v u n = rw h (escaped e q v u n)

  Kept-plain :
      (c : ℕ)
      → (c == b'"' || c == b'\\') ≡ false
      → (between 0x20 0x7e c || (ltb 0x7f c && is_print c)) ≡ true
      → Kept c
  unfolding quote_rune validate_token unquote_token
  Kept-plain c n p =
      plain (rw (n, p) refl) (λ rest. ground arith) (λ rest. ground arith) (ground arith)

  IsKept-cases :
      (c : ℕ)
      → IsKept c
      → ((c == b'"' || c == b'\\') ≡ true)
        ⊎ (((c == b'"' || c == b'\\') ≡ false)
            × ((between 0x20 0x7e c || (ltb 0x7f c && is_print c)) ≡ true))
        ⊎ (c ≡ 8)
        ⊎ (c ≡ 9)
        ⊎ (c ≡ 10)
        ⊎ (c ≡ 12)
        ⊎ (c ≡ 13)
  IsKept-cases c k = ground arith

  pub IsKept-Kept : (c : ℕ) → IsKept c → Kept c
  unfolding quote_rune escape_control validate_escape unquote_escape
  IsKept-Kept c k = elim (IsKept-cases c k) [
    | inl q ↦ elim (Bool-cases (c == b'"')) [
      | inl a ↦ Kept-at b'"' b'"' c (ground arith) refl (λ rest. refl) (λ rest. refl) refl
      | inr b ↦ Kept-at b'\\' b'\\' c (ground arith) refl (λ rest. refl) (λ rest. refl) refl
    ]
    | inr (inl (n, p)) ↦ Kept-plain c n p
    | inr (inr (inl e)) ↦ Kept-at 8 b'b' c e refl (λ rest. refl) (λ rest. refl) refl
    | inr (inr (inr (inl e))) ↦ Kept-at 9 b't' c e refl (λ rest. refl) (λ rest. refl) refl
    | inr (inr (inr (inr (inl e)))) ↦ Kept-at 10 b'n' c e refl (λ rest. refl) (λ rest. refl) refl
    | inr (inr (inr (inr (inr (inl e))))) ↦
        Kept-at 12 b'f' c e refl (λ rest. refl) (λ rest. refl) refl
    | inr (inr (inr (inr (inr (inr e))))) ↦
        Kept-at 13 b'r' c e refl (λ rest. refl) (λ rest. refl) refl
  ]

  pub validate_rune :
      (fuel c : ℕ) (rest : Text)
      → Kept c
      → validate_from (suc fuel) (quote_rune c ++ rest) ≡ validate_from fuel rest
  unfolding validate_from
  validate_rune fuel c rest (plain q v u n) = rw q (rw (v rest, validate_from) refl)
  validate_rune fuel c rest (escaped e q v u n) =
      rw q (unfold validate_token in rw (v rest, validate_from) refl)

  unquote_rune :
      (fuel c : ℕ) (rest : Text)
      → Kept c
      → unquote_from (suc fuel) (quote_rune c ++ rest)
        ≡ (unquote_from fuel rest >>= λ s. ok (c ∷ s))
  unfolding unquote_from
  unquote_rune fuel c rest (plain q v u n) = rw q (rw (u rest, unquote_from) refl)
  unquote_rune fuel c rest (escaped e q v u n) =
      rw q (unfold unquote_token in rw (u rest, unquote_from) refl)

  validate_body :
      (fuel : ℕ) (s : Text)
      → length s ≤ fuel
      → All IsKept s
      → validate_from fuel (quote_body s) ≡ ok tt
  unfolding quote_body
  validate_body fuel [] h k = unfold validate_from in refl
  validate_body zero (c ∷ s) h k = absurd (omega arith)
  validate_body (suc fuel) (c ∷ s) h k =
      validate_rune fuel c (quote_body s) (IsKept-Kept c k.0)
      ∙ validate_body fuel s (omega arith) k.1

  unquote_body :
      (fuel : ℕ) (s : Text)
      → length s ≤ fuel
      → All IsKept s
      → unquote_from fuel (quote_body s) ≡ ok s
  unfolding quote_body
  unquote_body fuel [] h k = unfold unquote_from in refl
  unquote_body zero (c ∷ s) h k = absurd (omega arith)
  unquote_body (suc fuel) (c ∷ s) h k =
      unquote_rune fuel c (quote_body s) (IsKept-Kept c k.0)
      ∙ rw (unquote_body fuel s (omega arith) k.1) refl

  pub length-quote_rune : (c : ℕ) → Kept c → 1 ≤ length (quote_rune c)
  length-quote_rune c (plain q v u n) = rw q (omega arith)
  length-quote_rune c (escaped e q v u n) = rw q (omega arith)

  length-le-quote_body : (s : Text) → All IsKept s → length s ≤ length (quote_body s)
  unfolding quote_body
  length-le-quote_body [] k = omega arith
  length-le-quote_body (c ∷ s) k = omega (
    arith,
    length-append (quote_rune c) (quote_body s),
    length-quote_rune c (IsKept-Kept c k.0),
    length-le-quote_body s k.1,
  )

  basic_string-quote_body : (s : Text) → All IsKept s → basic_string (quote_body s) ≡ ok s
  unfolding basic_string
  basic_string-quote_body s k =
      let enough = length-le-quote_body s k in
      rw (validate_body (length (quote_body s)) s enough k)
        (unquote_body (length (quote_body s)) s enough k)

pub unsnoc-concat : (s : Text) (c : ℕ) → unsnoc (s ++ c ∷ []) ≡ some (s, c)
unfolding unsnoc
unsnoc-concat [] c = refl
unsnoc-concat (d ∷ s) c = rw (unsnoc-concat s c) refl

keep-concat : (b : ℕ) (s : Text) (c : ℕ) → keep b (s ++ c ∷ []) ≡ b ∷ (s ++ c ∷ [])
unfolding keep
keep-concat b [] c = refl
keep-concat b (d ∷ s) c = refl

pub trim_right-concat :
    (s : Text) (c : ℕ) → is_space c ≡ false → trim_right (s ++ c ∷ []) ≡ s ++ c ∷ []
unfolding trim_right
trim_right-concat [] c h = unfold keep in rw h refl
trim_right-concat (d ∷ s) c h = rw (trim_right-concat s c h) (keep-concat d s c)

-- text between two characters that are no spaces is not trimmed
pub trim_space_between :
    (b : ℕ) (s : Text) (c : ℕ)
    → is_space b ≡ false
    → is_space c ≡ false
    → trim_space (b ∷ (s ++ c ∷ [])) ≡ b ∷ (s ++ c ∷ [])
unfolding trim_space trim_left
trim_space_between b s c hb hc = rw hb (trim_right-concat (b ∷ s) c hc)

-- `parseConfigurationString` reads back what `strconv.Quote` writes, for every text of characters
-- that are printed as themselves or escaped as \b, \t, \n, \f, \r, \" or \\.
pub parse_string-quote :
    (is_print : ℕ → Bool) (s : Text)
    → All (IsKept is_print) s
    → parse_string (quote is_print s) ≡ ok s
unfolding parse_string quoted string_body quote is_space
parse_string-quote is_print s k =
    rw (trim_space_between b'"' (quote_body is_print s) b'"' refl refl) (
      rw (unsnoc-concat (quote_body is_print s) b'"', quoted)
        (basic_string-quote_body is_print s k))
