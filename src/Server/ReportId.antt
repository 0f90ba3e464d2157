-- ===== src/Server/ReportId.antt =====
-- The identifiers of requests: how server.go makes them and how request_reports.go checks them.
use paracetamol.Base.{
  ℕ, zero, suc, ◌+◌, ◌-◌, ◌/◌, ◌%◌, ◌^◌, ◌≤◌, ◌<◌, Bool, true, false, not, ◌&&◌, ◌||◌, [], ◌∷◌,
  ◌++◌, ◌≡◌, refl, arith, ltb, leb, ◌==◌, if◌then◌else◌, length, sym, ap, ◌∙◌, Bool-cases, inl, inr,
  length-append,
}
use paracetamol.Text.{Text}

-- a digit of `%x`
abbrev pub hex_digit : ℕ → ℕ
hex_digit d = if ltb d 10 then b'0' + d else b'a' + (d - 10)

-- `%016x` for sixteen digits, of a number that has no more
unfoldable pub hex_text : ℕ → ℕ → Text
hex_text zero n = []
hex_text (suc k) n = hex_text k (n / 16) ++ hex_digit (n % 16) ∷ []

-- `fmt.Sprintf("r%s-%016x", …)`
unfoldable pub request_id : Text → ℕ → Text
unfolding hex_text
request_id instance_id number = b'r' ∷ (instance_id ++ b'-' ∷ hex_text 16 number)

abbrev pub is_lower_hex : ℕ → Bool
is_lower_hex c = (leb b'0' c && leb c b'9') || (leb b'a' c && leb c b'f')

-- the loop of `validRequestReportID`, from `index` on
unfoldable pub scan_id : ℕ → Bool → Text → Bool
scan_id index nonzero [] = nonzero
scan_id index nonzero (c ∷ rest) =
    let next = scan_id (index + 1) (nonzero || (ltb 33 index && not (c == b'0'))) rest in
    if not (index == 33) && not (is_lower_hex c) then false else next

-- `text[index] == c`, where the index is in range
unfoldable pub has_at : ℕ → ℕ → Text → Bool
has_at index c [] = false
has_at zero c (x ∷ rest) = x == c
has_at (suc index) c (x ∷ rest) = has_at index c rest

abbrev pub from_one : Text → Text
from_one [] = []
from_one (x ∷ rest) = rest

unfoldable pub valid_request_report_id : Text → Bool
unfolding scan_id has_at
valid_request_report_id text =
    length text == 50
    && has_at 0 b'r' text
    && has_at 33 b'-' text
    && scan_id 1 false (from_one text)

abbrev pub all_lower_hex : Text → Bool
all_lower_hex [] = true
all_lower_hex (c ∷ rest) = is_lower_hex c && all_lower_hex rest

abbrev any_nonzero : Text → Bool
any_nonzero [] = false
any_nonzero (c ∷ rest) = not (c == b'0') || any_nonzero rest

scan_id_front :
    (xs ys : Text) (index : ℕ) (nonzero : Bool)
    → all_lower_hex xs ≡ true
    → index + length xs ≤ 33
    → scan_id index nonzero (xs ++ ys) ≡ scan_id (index + length xs) nonzero ys
unfolding scan_id
scan_id_front [] ys index nonzero h k = ap (λ i. scan_id i nonzero ys) (omega arith)
scan_id_front (x ∷ xs) ys index nonzero h k =
    let ih = scan_id_front xs ys (index + 1) nonzero (ground (arith, h)) (omega (arith, k)) in
    let place : index + suc (length xs) ≡ index + 1 + length xs = omega arith in
    let flag : (nonzero || (ltb 33 index && not (x == b'0'))) ≡ nonzero = ground (arith, k) in
    let hex : is_lower_hex x ≡ true = ground (arith, h) in
    rw place (rw flag (ground (arith, ih, hex)))

scan_id_back :
    (xs : Text) (index : ℕ) (nonzero : Bool)
    → all_lower_hex xs ≡ true
    → 33 < index
    → scan_id index nonzero xs ≡ (nonzero || any_nonzero xs)
unfolding scan_id
scan_id_back [] index nonzero h k = ground (arith)
scan_id_back (x ∷ xs) index nonzero h k =
    ground (arith, scan_id_back xs (index + 1) (nonzero || (ltb 33 index && not (x == b'0'))), h, k)

all_lower_hex-append :
    (xs ys : Text) → all_lower_hex (xs ++ ys) ≡ (all_lower_hex xs && all_lower_hex ys)
all_lower_hex-append [] ys = refl
all_lower_hex-append (x ∷ xs) ys = ground (arith, all_lower_hex-append xs ys)

any_nonzero-append : (xs ys : Text) → any_nonzero (xs ++ ys) ≡ (any_nonzero xs || any_nonzero ys)
any_nonzero-append [] ys = refl
any_nonzero-append (x ∷ xs) ys = ground (arith, any_nonzero-append xs ys)

hex_digit-hex : (d : ℕ) → d < 16 → (is_lower_hex (hex_digit d) && true) ≡ true
hex_digit-hex d h = ground (arith, h)

hex_digit-nonzero : (d : ℕ) → (d == 0) ≡ false → not (hex_digit d == b'0') ≡ true
hex_digit-nonzero d h = ground (arith, h)

length-hex_text : (k n : ℕ) → length (hex_text k n) ≡ k
unfolding hex_text
length-hex_text zero n = refl
length-hex_text (suc k) n =
    length-append (hex_text k (n / 16)) _ ∙ omega (arith, length-hex_text k (n / 16))

hex_text-hex : (k n : ℕ) → all_lower_hex (hex_text k n) ≡ true
unfolding hex_text
hex_text-hex zero n = refl
hex_text-hex (suc k) n =
    rw (all_lower_hex-append (hex_text k (n / 16)) (hex_digit (n % 16) ∷ []))
      (rw (hex_text-hex k (n / 16)) (hex_digit-hex (n % 16) (omega arith)))

hex_text-nonzero : (k n : ℕ) → 0 < n → n < 16 ^ k → any_nonzero (hex_text k n) ≡ true
unfolding hex_text
hex_text-nonzero zero n h b = absurd (omega (arith, h, b))
hex_text-nonzero (suc k) n h b =
    rw (any_nonzero-append (hex_text k (n / 16)) (hex_digit (n % 16) ∷ []))
      (elim (Bool-cases (n % 16 == 0)) [
        | inl p ↦
            let q : n % 16 ≡ 0 = ground (arith, p) in
            rw (hex_text-nonzero k (n / 16) (omega (arith, q, h)) (omega (arith, b))) refl
        | inr p ↦
            let q : not (hex_digit (n % 16) == b'0') ≡ true = hex_digit-nonzero (n % 16) p in
            rw q (ground (arith))
      ])

has_at_front : (xs ys : Text) (c : ℕ) → has_at (length xs) c (xs ++ ys) ≡ has_at 0 c ys
unfolding has_at
has_at_front [] ys c = refl
has_at_front (x ∷ xs) ys c = has_at_front xs ys c

-- the first characters of a text
abbrev take : ℕ → Text → Text
take zero s = []
take (suc n) [] = []
take (suc n) (c ∷ s) = c ∷ take n s

take_front : (xs ys : Text) → take (length xs) (xs ++ ys) ≡ xs
take_front [] ys = refl
take_front (x ∷ xs) ys = ap (λ l. x ∷ l) (take_front xs ys)

-- `id[1:33]`
unfoldable pub instance_part : Text → Text
instance_part text = take 32 (from_one text)

parts-valid :
    (xs ys : Text)
    → length xs ≡ 32
    → all_lower_hex xs ≡ true
    → length ys ≡ 16
    → all_lower_hex ys ≡ true
    → any_nonzero ys ≡ true
    → (valid_request_report_id (b'r' ∷ (xs ++ b'-' ∷ ys)) ≡ true)
      × (instance_part (b'r' ∷ (xs ++ b'-' ∷ ys)) ≡ xs)
unfolding valid_request_report_id has_at instance_part scan_id
parts-valid xs ys l h m k z =
    let size : suc (length (xs ++ b'-' ∷ ys)) ≡ 50 =
      omega (arith, length-append xs (b'-' ∷ ys), l, m) in
    let dash : has_at 32 b'-' (xs ++ b'-' ∷ ys) ≡ true =
      ap (λ n. has_at n b'-' (xs ++ b'-' ∷ ys)) (sym l) ∙ has_at_front xs (b'-' ∷ ys) b'-' in
    let scanned : scan_id 1 false (xs ++ b'-' ∷ ys) ≡ true =
      scan_id_front xs (b'-' ∷ ys) 1 false h (omega (arith, l))
      ∙ (ap (λ n. scan_id (1 + n) false (b'-' ∷ ys)) l
          ∙ (scan_id_back ys 34 false k (omega arith) ∙ z)) in
    (
      rw size (rw dash (rw scanned refl)),
      ap (λ n. take n (xs ++ b'-' ∷ ys)) (sym l) ∙ take_front xs (b'-' ∷ ys),
    )

-- The identifier of a request of an instance whose name has 32 hexadecimal digits passes the check of
-- the reports and names its instance, where the number is not 0, so the counter has not wrapped around.
pub request_id-valid :
    (instance_id : Text) (number : ℕ)
    → length instance_id ≡ 32
    → all_lower_hex instance_id ≡ true
    → 0 < number
    → number < 2 ^ 64
    → (valid_request_report_id (request_id instance_id number) ≡ true)
      × (instance_part (request_id instance_id number) ≡ instance_id)
unfolding request_id
request_id-valid instance_id number l h p b =
    parts-valid instance_id (hex_text 16 number) l h (length-hex_text 16 number)
      (hex_text-hex 16 number) (hex_text-nonzero 16 number p b)
