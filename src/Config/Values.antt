-- ===== src/Config/Values.antt =====
-- The values of internal/config/parser.go: strings, string arrays, integers, and the removal of a
-- comment. `len(raw) < 2` and the offsets count code points here; what they decide is the same.
use paracetamol.Base.{
  ℕ, zero, suc, ◌+◌, ◌-◌, ◌*◌, Bool, true, false, not, ◌&&◌, ◌||◌, none, some, [], ◌∷◌, ltb, leb,
  ◌==◌, if◌then◌else◌, length,
}
use paracetamol.Base.Result.{Result, ok, err, ◌>>=◌}
use paracetamol.Text.{Text, between, trim_space, contains, unsnoc, drop}

-- The messages of `fmt.Errorf`, without the line that the caller adds.
pub data Why : Type 0 where
  not_utf8 unterminated_value malformed_section unknown_section duplicate_section : Why
  expected_assignment outside_section unknown_setting duplicate_setting : Why
  expected_quoted malformed_literal control_character unterminated_string unescaped_quote : Why
  unterminated_escape invalid_unicode unsupported_escape malformed_basic : Why
  expected_array element_not_quoted unterminated_element expected_comma : Why
  expected_integer leading_zero expected_boolean : Why

abbrev pub Parsed : Type 0 → Type 0
Parsed = Result Why

-- `stripConfigurationComment`: what a character does to `quote` (0 is none) and to `escaped`
unfoldable pub next_quote : ℕ → Bool → ℕ → ℕ
next_quote quote escaped c =
    if quote == b'"' && (escaped || c == b'\\')
    then quote
    else if not (quote == 0)
    then if c == quote then 0 else quote
    else if c == b'"' || c == b'\''
    then c
    else quote

unfoldable pub next_escaped : ℕ → Bool → ℕ → Bool
next_escaped quote escaped c =
    if quote == b'"' && escaped
    then false
    else if quote == b'"' && c == b'\\'
    then true
    else escaped

unfoldable pub strip_from : ℕ → Bool → Text → Parsed Text
unfolding next_quote next_escaped
strip_from quote escaped [] = if not (quote == 0) || escaped then err unterminated_value else ok []
strip_from quote escaped (c ∷ s) =
    let rest = strip_from (next_quote quote escaped c) (next_escaped quote escaped c) s in
    if quote == 0 && c == b'#' then ok [] else rest >>= λ kept. ok (c ∷ kept)

unfoldable pub strip_comment : Text → Parsed Text
unfolding strip_from
strip_comment = strip_from 0 false

-- the test of `hasDisallowedStringControl` on one character
abbrev pub is_disallowed : ℕ → Bool
is_disallowed c = ltb c 0x20 && not (c == b'\t') || c == 0x7f

unfoldable pub has_disallowed : Text → Bool
has_disallowed [] = false
has_disallowed (c ∷ s) = is_disallowed c || has_disallowed s

-- `isHexadecimal` on one character: `character | 0x20` folds the upper-case letters
unfoldable pub is_hex : ℕ → Bool
is_hex c = between b'0' b'9' c || between b'a' b'f' c || between b'A' b'F' c

-- `end > closingQuote || !isHexadecimal(...)` is false for the next `n` characters
unfoldable pub all_hex : ℕ → Text → Bool
unfolding is_hex
all_hex zero s = true
all_hex (suc n) [] = false
all_hex (suc n) (c ∷ s) = is_hex c && all_hex n s

abbrev is_simple_escape : ℕ → Bool
is_simple_escape e =
    e == b'b' || e == b't' || e == b'n' || e == b'f' || e == b'r' || e == b'"' || e == b'\\'

-- the escape behind a backslash: how many characters it takes
unfoldable pub validate_escape : Text → Parsed ℕ
unfolding all_hex
validate_escape [] = err unterminated_escape
validate_escape (e ∷ s) =
    if is_simple_escape e
    then ok 1
    else if e == b'u'
    then if all_hex 4 s then ok 5 else err invalid_unicode
    else if e == b'U'
    then if all_hex 8 s then ok 9 else err invalid_unicode
    else err unsupported_escape

-- one round of the loop: how far the index moves behind the character
unfoldable pub validate_token : ℕ → Text → Parsed ℕ
unfolding validate_escape
validate_token c s =
    if c == b'"'
    then err unescaped_quote
    else if not (c == b'\\')
    then if is_disallowed c then err control_character else ok 0
    else validate_escape s

-- `validateConfigurationBasicString`, on what stands between the quotes; each round takes a
-- character at least, so the length is fuel enough.
unfoldable pub validate_from : ℕ → Text → Parsed (Unit {0})
unfolding validate_token
validate_from fuel [] = ok tt
validate_from zero (c ∷ s) = ok tt
validate_from (suc fuel) (c ∷ s) = elim (validate_token c s) [
  | err e ↦ err e
  | ok n ↦ validate_from fuel (drop n s)
]

unfoldable pub hex_digit : ℕ → ℕ
hex_digit c = if leb c b'9' then c - b'0' else if leb c b'F' then c - 55 else c - 87

unfoldable pub hex_value : ℕ → ℕ → Text → ℕ
unfolding hex_digit
hex_value zero acc s = acc
hex_value (suc n) acc [] = acc
hex_value (suc n) acc (c ∷ s) = hex_value n (acc * 16 + hex_digit c) s

-- `utf8.ValidRune`
abbrev pub is_rune : ℕ → Bool
is_rune c = ltb c 0xd800 || between 0xe000 0x10ffff c

-- `strconv.UnquoteChar` at a backslash, for the escapes that pass the validation: the character
-- and how many characters it takes
unfoldable pub unquote_escape : Text → Parsed (ℕ × ℕ)
unfolding hex_value
unquote_escape [] = err malformed_basic
unquote_escape (e ∷ s) =
    if e == b'b'
    then ok (8, 1)
    else if e == b't'
    then ok (9, 1)
    else if e == b'n'
    then ok (10, 1)
    else if e == b'f'
    then ok (12, 1)
    else if e == b'r'
    then ok (13, 1)
    else if e == b'"' || e == b'\\'
    then ok (e, 1)
    else if e == b'u' && is_rune (hex_value 4 0 s)
    then ok (hex_value 4 0 s, 5)
    else if e == b'U' && is_rune (hex_value 8 0 s)
    then ok (hex_value 8 0 s, 9)
    else err malformed_basic

unfoldable pub unquote_token : ℕ → Text → Parsed (ℕ × ℕ)
unfolding unquote_escape
unquote_token c s = if c == b'\\' then unquote_escape s else ok (c, 0)

-- `strconv.Unquote` of a double-quoted string, on what stands between the quotes
unfoldable pub unquote_from : ℕ → Text → Parsed Text
unfolding unquote_token
unquote_from fuel [] = ok []
unquote_from zero (c ∷ s) = ok []
unquote_from (suc fuel) (c ∷ s) = elim (unquote_token c s) [
  | err e ↦ err e
  | ok (v, n) ↦ unquote_from fuel (drop n s) >>= λ rest. ok (v ∷ rest)
]

unfoldable pub basic_string : Text → Parsed Text
unfolding validate_from unquote_from
basic_string inner = validate_from (length inner) inner >>= λ _. unquote_from (length inner) inner

-- the `switch raw[0]`; `inner` is `raw[1:len(raw)-1]`
unfoldable pub string_body : ℕ → Text → ℕ → Parsed Text
unfolding contains has_disallowed basic_string
string_body first inner last =
    if first == b'\''
    then if not (last == b'\'') || contains b'\'' inner
      then err malformed_literal
      else if has_disallowed inner
      then err control_character
      else ok inner
    else if first == b'"'
    then if not (last == b'"') then err unterminated_string else basic_string inner
    else err expected_quoted

unfoldable pub quoted : Text → Parsed Text
unfolding unsnoc string_body
quoted [] = err expected_quoted
quoted (c ∷ s) = elim (unsnoc s) [
  | none ↦ err expected_quoted
  | some (inner, last) ↦ string_body c inner last
]

-- `parseConfigurationString`
unfoldable pub parse_string : Text → Parsed Text
unfolding quoted trim_space
parse_string raw = quoted (trim_space raw)
