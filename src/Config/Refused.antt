-- ===== src/Config/Refused.antt =====
-- What `strconv.Quote` writes for an ASCII control character that the configuration has no escape
-- for, and how the parser reads it.
use paracetamol.Base.{
  ℕ, zero, suc, ◌<◌, Bool, true, false, ◌&&◌, ◌||◌, [], ◌∷◌, ◌++◌, ◌≡◌, refl, ◌⊎◌, inl, inr, arith,
  ltb, leb, ◌==◌, length, length-append, All, ◌∙◌,
}
use paracetamol.Base.Result.{err}
use paracetamol.Text.{Text, between, is_space}
use paracetamol.Config.Values.{
  unsupported_escape, validate_escape, validate_token, validate_from, basic_string, string_body,
  quoted, parse_string,
}
use paracetamol.Config.Quote.{
  hex_text, escape_control, quote_rune, quote_body, quote, IsKept, IsKept-Kept, validate_rune,
  length-quote_rune, unsnoc-concat, trim_space_between,
}

abbrev pub IsRefused : ℕ → Type 0
IsRefused c = ((leb c 0x1f || c == 0x7f) ≡ true) × ((between 8 10 c || between 12 13 c) ≡ false)

escape_control-cases :
    (c : ℕ)
    → (between 8 10 c || between 12 13 c) ≡ false
    → (escape_control c ≡ b'a' ∷ [])
      ⊎ (escape_control c ≡ b'v' ∷ [])
      ⊎ (escape_control c ≡ b'x' ∷ hex_text 2 c [])
unfolding escape_control
escape_control-cases c b = ground arith

no_quote : (c : ℕ) → (leb c 0x1f || c == 0x7f) ≡ true → (c == b'"' || c == b'\\') ≡ false
no_quote c h = ground arith

not_plain :
    (p : Bool) (c : ℕ)
    → (leb c 0x1f || c == 0x7f) ≡ true
    → (between 0x20 0x7e c || (ltb 0x7f c && p)) ≡ false
not_plain p c h = ground arith

is_ascii : (c : ℕ) → (leb c 0x1f || c == 0x7f) ≡ true → leb c 0x7f ≡ true
is_ascii c h = ground arith

quote_rune-control :
    (is_print : ℕ → Bool) (c : ℕ) → IsRefused c → quote_rune is_print c ≡ b'\\' ∷ escape_control c
unfolding quote_rune
quote_rune-control is_print c r =
    let a : (c == b'"' || c == b'\\') ≡ false = no_quote c r.0 in
    let b : (between 0x20 0x7e c || (ltb 0x7f c && is_print c)) ≡ false =
      not_plain (is_print c) c r.0 in
    let d : leb c 0x7f ≡ true = is_ascii c r.0 in rw a (rw b (rw d refl))

validate_refused :
    (is_print : ℕ → Bool) (fuel c : ℕ) (rest : Text)
    → IsRefused c
    → validate_from (suc fuel) (quote_rune is_print c ++ rest) ≡ err unsupported_escape
unfolding validate_from validate_token validate_escape
validate_refused is_print fuel c rest r =
    rw (quote_rune-control is_print c r) (elim (escape_control-cases c r.1) [
      | inl e ↦ rw e refl
      | inr (inl e) ↦ rw e refl
      | inr (inr e) ↦ rw e refl
    ])

validate_body_refused :
    (is_print : ℕ → Bool) (fuel : ℕ) (s : Text) (c : ℕ) (t : Text)
    → length s < fuel
    → All (IsKept is_print) s
    → IsRefused c
    → validate_from fuel (quote_body is_print (s ++ c ∷ t)) ≡ err unsupported_escape
unfolding quote_body
validate_body_refused is_print zero s c t h k r = absurd (omega arith)
validate_body_refused is_print (suc fuel) [] c t h k r =
    validate_refused is_print fuel c (quote_body is_print t) r
validate_body_refused is_print (suc fuel) (d ∷ s) c t h k r =
    validate_rune is_print fuel d (quote_body is_print (s ++ c ∷ t)) (IsKept-Kept is_print d k.0)
    ∙ validate_body_refused is_print fuel s c t (omega arith) k.1 r

length-lt-quote_body :
    (is_print : ℕ → Bool) (s : Text) (c : ℕ) (t : Text)
    → All (IsKept is_print) s
    → IsRefused c
    → length s < length (quote_body is_print (s ++ c ∷ t))
unfolding quote_body
length-lt-quote_body is_print [] c t k r = rw (quote_rune-control is_print c r) (omega arith)
length-lt-quote_body is_print (d ∷ s) c t k r = omega (
  arith,
  length-append (quote_rune is_print d) (quote_body is_print (s ++ c ∷ t)),
  length-quote_rune is_print d (IsKept-Kept is_print d k.0),
  length-lt-quote_body is_print s c t k.1 r,
)

-- An ASCII control character other than \b, \t, \n, \f and \r is written by an escape that the
-- configuration does not allow: `parseConfigurationString` refuses the result of `strconv.Quote`
-- for every text in which only printable characters and these five stand before one, whatever
-- follows it.
pub parse_string-quote_refused :
    (is_print : ℕ → Bool) (s : Text) (c : ℕ) (t : Text)
    → All (IsKept is_print) s
    → IsRefused c
    → parse_string (quote is_print (s ++ c ∷ t)) ≡ err unsupported_escape
unfolding parse_string quoted string_body quote is_space basic_string
parse_string-quote_refused is_print s c t k r =
    let body = quote_body is_print (s ++ c ∷ t) in
    let bad =
      validate_body_refused is_print (length body) s c t (length-lt-quote_body is_print s c t k r) k
        r in
    rw (trim_space_between b'"' body b'"' refl refl)
      (rw (unsnoc-concat body b'"', quoted) (rw bad refl))
