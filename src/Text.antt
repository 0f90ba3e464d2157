-- ===== src/Text.antt =====
-- Text as a list of code points, with the functions of Go's `strings` and `unicode` that the
-- program calls. A string that is valid UTF-8 is such a list; tests on ASCII characters see the
-- same characters in it as in its bytes.
use Prim.Native.Char.{code}
use Prim.Native.String.{String}
use paracetamol.Base.{
  ℕ, zero, suc, Bool, true, false, ◌&&◌, ◌||◌, Option, none, some, List, [], ◌∷◌, leb, ◌==◌,
  if◌then◌else◌,
}

abbrev pub Text : Type 0
Text = List ℕ

-- the code points of a literal
abbrev pub codes : String → Text
codes String.[] = []
codes (String.◌∷◌ c s) = code c ∷ codes s

abbrev pub between : ℕ → ℕ → ℕ → Bool
between lo hi c = leb lo c && leb c hi

-- `unicode.IsSpace`
unfoldable pub is_space : ℕ → Bool
is_space c =
    between 0x09 0x0d c
    || c == 0x20
    || c == 0x85
    || c == 0xa0
    || c == 0x1680
    || between 0x2000 0x200a c
    || between 0x2028 0x2029 c
    || c == 0x202f
    || c == 0x205f
    || c == 0x3000

-- `==` on strings
unfoldable pub equal : Text → Text → Bool
equal [] [] = true
equal (x ∷ xs) (y ∷ ys) = x == y && equal xs ys
equal _ _ = false

unfoldable pub trim_left : Text → Text
unfolding is_space
trim_left [] = []
trim_left (c ∷ s) = let rest = trim_left s in if is_space c then rest else c ∷ s

-- drops the spaces at the end, on the way back
unfoldable pub keep : ℕ → Text → Text
unfolding is_space
keep c [] = if is_space c then [] else c ∷ []
keep c (d ∷ s) = c ∷ d ∷ s

unfoldable pub trim_right : Text → Text
unfolding keep
trim_right [] = []
trim_right (c ∷ s) = keep c (trim_right s)

-- `strings.TrimSpace`
unfoldable pub trim_space : Text → Text
unfolding trim_left trim_right
trim_space s = trim_right (trim_left s)

-- `strings.ContainsRune`
unfoldable pub contains : ℕ → Text → Bool
contains c [] = false
contains c (d ∷ s) = d == c || contains c s

-- `strings.Cut` at one character: the parts before and after it, or nothing
unfoldable pub cut : ℕ → Text → Option (Text × Text)
cut c [] = none
cut c (d ∷ s) =
    let rest = cut c s in
    if d == c then some ([], s) else elim rest [ none ↦ none | some (a, b) ↦ some (d ∷ a, b) ]

-- `strings.Split` at one character: the first part and the others
unfoldable pub split_onto : ℕ → Text → Text × List Text
split_onto c [] = ([], [])
split_onto c (d ∷ s) =
    let (part, parts) = split_onto c s in if d == c then ([], part ∷ parts) else (d ∷ part, parts)

unfoldable pub split : ℕ → Text → List Text
unfolding split_onto
split c s = let (part, parts) = split_onto c s in part ∷ parts

-- `s[:len(s)-1]` and `s[len(s)-1]`
unfoldable pub unsnoc : Text → Option (Text × ℕ)
unsnoc [] = none
unsnoc (c ∷ s) = elim (unsnoc s) [
  | none ↦ some ([], c)
  | some (front, last) ↦ some (c ∷ front, last)
]

unfoldable pub has_prefix : Text → Text → Bool
has_prefix s [] = true
has_prefix [] (p ∷ ps) = false
has_prefix (c ∷ s) (p ∷ ps) = c == p && has_prefix s ps

-- `strings.ReplaceAll` of one character by nothing
unfoldable pub remove : ℕ → Text → Text
remove c [] = []
remove c (d ∷ s) = let rest = remove c s in if d == c then rest else d ∷ rest

-- `strings.TrimPrefix` by one character
unfoldable pub trim_prefix : ℕ → Text → Text
trim_prefix c [] = []
trim_prefix c (d ∷ s) = if d == c then s else d ∷ s

abbrev pub drop : ℕ → Text → Text
drop zero s = s
drop (suc n) [] = []
drop (suc n) (c ∷ s) = drop n s

abbrev pub is_empty : Text → Bool
is_empty [] = true
is_empty (c ∷ s) = false
