-- ===== src/Config/Numbers.antt =====
-- `parseConfigurationInteger` and `parseConfigurationStringArray` of internal/config/parser.go.
-- `int` has 64 bits, so the conversion of the parsed int64 loses nothing.
use paracetamol.Base.{
  ℕ, zero, suc, ◌+◌, ◌-◌, ◌*◌, ◌^◌, Bool, true, false, not, ◌&&◌, ◌||◌, Option, none, some, List,
  [], ◌∷◌, ◌++◌, ltb, leb, ◌==◌, if◌then◌else◌, length,
}
use paracetamol.Base.Int.{ℤ, pos, negsuc}
use paracetamol.Base.Result.{ok, err, ◌>>=◌}
use paracetamol.Text.{is_empty, Text, between, trim_space, unsnoc, remove, trim_prefix}
use paracetamol.Config.Values.{
  Parsed, expected_array, element_not_quoted, unterminated_element, expected_comma,
  expected_integer, leading_zero, parse_string,
}

abbrev pub is_digit : ℕ → Bool
is_digit c = between b'0' b'9' c

-- `_` stands neither first nor last, nor beside another `_`; `before` is the character before it
abbrev separates : Option ℕ → Text → Bool
separates none s = false
separates (some p) [] = false
separates (some p) (d ∷ s) = not (p == b'_') && not (d == b'_')

-- the loop over the digits
unfoldable pub all_digits : Option ℕ → Text → Bool
all_digits before [] = true
all_digits before (c ∷ s) =
    (is_digit c || (c == b'_' && separates before s)) && all_digits (some c) s

-- `digits`: the text without one sign
unfoldable pub unsigned : Text → Text
unsigned [] = []
unsigned (c ∷ s) = if c == b'+' || c == b'-' then s else c ∷ s

unfoldable pub digits_value : ℕ → Text → ℕ
digits_value acc [] = acc
digits_value acc (c ∷ s) = digits_value (acc * 10 + (c - b'0')) s

abbrev is_minus : Text → Bool
is_minus [] = false
is_minus (c ∷ s) = c == b'-'

-- `strconv.ParseInt(normalized, 10, 64)` on digits behind at most one sign
unfoldable pub parse_int : Text → Parsed ℤ
unfolding unsigned digits_value
parse_int s =
    let n = digits_value 0 (unsigned s) in
    if is_minus s
    then if n == 0
      then ok (pos 0)
      else if leb n (2 ^ 63)
      then ok (negsuc (n - 1))
      else err expected_integer
    else if ltb n (2 ^ 63)
    then ok (pos n)
    else err expected_integer

abbrev has_leading_zero : Text → Bool
has_leading_zero (c ∷ d ∷ s) = c == b'0'
has_leading_zero _ = false

-- behind `strings.TrimSpace`
unfoldable pub integer : Text → Parsed ℤ
unfolding unsigned all_digits remove trim_prefix parse_int
integer raw =
    let normalized = remove b'_' raw in
    if is_empty (unsigned raw) || not (all_digits none (unsigned raw))
    then err expected_integer
    else if has_leading_zero (trim_prefix b'-' (trim_prefix b'+' normalized))
    then err leading_zero
    else parse_int normalized

unfoldable pub parse_integer : Text → Parsed ℤ
unfolding integer trim_space
parse_integer raw = integer (trim_space raw)

-- blanks inside an array
abbrev pub is_blank : ℕ → Bool
is_blank c = c == b' ' || c == b'\t' || c == b'\r'

unfoldable pub skip_blanks : Text → Text
skip_blanks [] = []
skip_blanks (c ∷ s) = let rest = skip_blanks s in if is_blank c then rest else c ∷ s

-- The loop that looks for the closing quote: what it takes and what is left. An escape at the end
-- runs past the end of the body.
unfoldable pub scan : ℕ → Text → Option (Text × Text)
scan quote [] = some ([], [])
scan quote (c ∷ []) = if quote == b'"' && c == b'\\' then none else some (c ∷ [], [])
scan quote (c ∷ d ∷ s) = elim (quote == b'"' && c == b'\\') [
  | true ↦ elim (scan quote s) [ none ↦ none | some (t, r) ↦ some (c ∷ d ∷ t, r) ]
  | false ↦ elim (c == quote) [
    | true ↦ some (c ∷ [], d ∷ s)
    | false ↦ elim (scan quote (d ∷ s)) [ none ↦ none | some (t, r) ↦ some (c ∷ t, r) ]
  ]
]

-- one element with what follows it; `first` is the character at its start
unfoldable pub element : ℕ → Text → Parsed (Text × Text)
unfolding scan unsnoc
element first s =
    if not (first == b'"') && not (first == b'\'')
    then err element_not_quoted
    else elim (scan first s) [
      | none ↦ err unterminated_element
      | some (taken, rest) ↦ elim (unsnoc (first ∷ taken)) [
        | none ↦ err unterminated_element
        | some (front, last) ↦
            if not (last == first)
            then err unterminated_element
            else parse_string (first ∷ taken) >>= λ value. ok (value, rest)
      ]
    ]

-- the comma behind an element, or the end
unfoldable pub after_element : Text → Parsed (Option Text)
after_element [] = ok none
after_element (c ∷ s) = if c == b',' then ok (some s) else err expected_comma

-- The loop over the elements, one for each unit of fuel: each takes a character at least. `none`
-- for the fuel that ran out is not met, since the length of the body is given.
unfoldable pub elements : ℕ → List Text → Text → Parsed (List Text)
unfolding skip_blanks element after_element
elements zero values s = ok values
elements (suc fuel) values s = elim (skip_blanks s) [
  | [] ↦ ok values
  | c ∷ r ↦ element c r >>= λ e. after_element (skip_blanks e.1) >>= λ more. elim more [
    | none ↦ ok (values ++ e.0 ∷ [])
    | some t ↦ elements fuel (values ++ e.0 ∷ []) t
  ]
]

unfoldable pub array : Text → Parsed (List Text)
unfolding unsnoc elements
array [] = err expected_array
array (c ∷ s) = elim (unsnoc s) [
  | none ↦ err expected_array
  | some (body, last) ↦
      if not (c == b'[') || not (last == b']')
      then err expected_array
      else elements (suc (length body)) [] body
]

unfoldable pub parse_string_array : Text → Parsed (List Text)
unfolding array trim_space
parse_string_array raw = array (trim_space raw)
