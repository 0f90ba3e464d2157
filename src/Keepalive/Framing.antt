-- ===== src/Keepalive/Framing.antt =====
-- `streamBoundary`: whether what was written of a stream of events ends a frame.
use paracetamol.Base.{
  ℕ, Bool, true, false, not, ◌&&◌, ◌||◌, [], ◌∷◌, ◌++◌, ◌≡◌, refl, arith, ◌==◌, if◌then◌else◌,
  Bool-cases, inl, inr, ap, ◌∙◌,
}
use paracetamol.Text.{Text}

pub record StreamBoundary : Type 0 where
  pub boundary : Bool
  pub line_data : Bool
  pub after_cr : Bool

-- one round of the loop of `observe`
unfoldable pub observe_char : StreamBoundary → ℕ → StreamBoundary
observe_char framing c =
    if framing.after_cr && c == b'\n'
    then record framing { after_cr = false }
    else if c == b'\r' || c == b'\n'
    then record { boundary = not framing.line_data; line_data = false; after_cr = c == b'\r' }
    else record { boundary = false; line_data = true; after_cr = false }

-- `observe`
unfoldable pub observe_framing : StreamBoundary → Text → StreamBoundary
unfolding observe_char
observe_framing framing [] = framing
observe_framing framing (c ∷ s) = observe_framing (observe_char framing c) s

-- what `newStreamKeepaliveBody` starts with
abbrev pub at_start : StreamBoundary
at_start = record { boundary = true; line_data = false; after_cr = false }

-- where `Read` puts a comment
abbrev pub at_boundary : StreamBoundary → Bool
at_boundary framing = framing.boundary && not framing.after_cr

-- The line ends of a text as newlines: a carriage return counts, with the newline right behind it if
-- there is one. The Boolean tells whether a carriage return stands just before the text.
unfoldable pub with_newlines : Bool → Text → Text
with_newlines after [] = []
with_newlines after (c ∷ s) =
    let feed = with_newlines false s in
    let return = b'\n' ∷ with_newlines true s in
    if after && c == b'\n' then feed else if c == b'\r' then return else c ∷ feed

-- whether the last two characters are newlines, where `p` and `c` stand before the text
unfoldable pub two_newlines : ℕ → ℕ → Text → Bool
two_newlines p c [] = p == b'\n' && c == b'\n'
two_newlines p c (d ∷ s) = two_newlines c d s

-- a text ends a frame that ends with an empty line, or has nothing but one
abbrev pub ends_frame : Text → Bool
ends_frame s = two_newlines b'\n' b'\n' (with_newlines false s)

-- the framing behind two characters
abbrev behind : ℕ → ℕ → Bool → StreamBoundary
behind p c after = record {
  boundary = p == b'\n' && c == b'\n';
  line_data = not (c == b'\n');
  after_cr = after;
}

not-not : (b : Bool) → not (not b) ≡ (b && true)
not-not true = refl
not-not false = refl

and-false : (b : Bool) → false ≡ (b && false)
and-false true = refl
and-false false = refl

char_behind :
    (p c : ℕ) (after : Bool) (d : ℕ)
    → observe_char (behind p c after) d ≡ (
        if after && d == b'\n'
        then behind p c false
        else if d == b'\r'
        then behind c b'\n' true
        else behind c d false)
unfolding observe_char
char_behind p c after d = elim (Bool-cases (after && d == b'\n')) [
  | inl fed ↦ rw fed refl
  | inr other ↦ elim (Bool-cases (d == b'\r')) [
    | inl return ↦
        rw (other, return)
          (ap (λ b. record { boundary = b; line_data = false; after_cr = true })
            (not-not (c == b'\n')))
    | inr shown ↦ elim (Bool-cases (d == b'\n')) [
      | inl feed ↦
          rw (other, shown, feed)
            (ap (λ b. record { boundary = b; line_data = false; after_cr = false })
              (not-not (c == b'\n')))
      | inr text ↦
          rw (other, shown, text)
            (ap (λ b. record { boundary = b; line_data = true; after_cr = false })
              (and-false (c == b'\n')))
    ]
  ]
]

observe_framing-behind :
    (p c : ℕ) (after : Bool) (s : Text)
    → (observe_framing (behind p c after) s).boundary ≡ two_newlines p c (with_newlines after s)
unfolding observe_framing observe_char two_newlines with_newlines
observe_framing-behind p c after [] = refl
observe_framing-behind p c after (d ∷ s) =
    let first = ap (λ x. (observe_framing x s).boundary) (char_behind p c after d) in
    elim (Bool-cases (after && d == b'\n')) [
      | inl fed ↦ first ∙ rw fed (observe_framing-behind p c false s)
      | inr other ↦ elim (Bool-cases (d == b'\r')) [
        | inl return ↦ first ∙ rw (other, return) (observe_framing-behind c b'\n' true s)
        | inr shown ↦ first ∙ rw (other, shown) (observe_framing-behind c d false s)
      ]
    ]

-- A text ends at a boundary of frames, as `observe` sees it, just where its last two line ends have
-- nothing between them.
pub boundary-ends_frame : (s : Text) → (observe_framing at_start s).boundary ≡ ends_frame s
boundary-ends_frame s = observe_framing-behind b'\n' b'\n' false s

-- whether the last character is a carriage return, given whether that before the text is one
unfoldable pub ends_return : Bool → Text → Bool
ends_return before [] = before
ends_return before (c ∷ s) = ends_return (c == b'\r') s

after_char : (framing : StreamBoundary) (c : ℕ) → (observe_char framing c).after_cr ≡ (c == b'\r')
unfolding observe_char
after_char framing c = ground arith

-- `observe` waits for what follows just behind a carriage return.
pub after_cr-ends_return :
    (framing : StreamBoundary) (s : Text)
    → (observe_framing framing s).after_cr ≡ ends_return framing.after_cr s
unfolding observe_framing ends_return
after_cr-ends_return framing [] = refl
after_cr-ends_return framing (c ∷ s) =
    after_cr-ends_return (observe_char framing c) s
    ∙ ap (λ b. ends_return b s) (after_char framing c)

pub observe_framing-append :
    (framing : StreamBoundary) (a b : Text)
    → observe_framing framing (a ++ b) ≡ observe_framing (observe_framing framing a) b
unfolding observe_framing
observe_framing-append framing [] b = refl
observe_framing-append framing (c ∷ a) b = observe_framing-append (observe_char framing c) a b

if-clean :
    (b : Bool) (f g : StreamBoundary)
    → (f.boundary && f.line_data) ≡ false
    → (g.boundary && g.line_data) ≡ false
    → ((if b then f else g).boundary && (if b then f else g).line_data) ≡ false
if-clean true f g h k = h
if-clean false f g h k = k

and-not : (b : Bool) → (not b && false) ≡ false
and-not true = refl
and-not false = refl

-- a line at a boundary is empty
clean_char :
    (framing : StreamBoundary) (c : ℕ)
    → (framing.boundary && framing.line_data) ≡ false
    → ((observe_char framing c).boundary && (observe_char framing c).line_data) ≡ false
unfolding observe_char
clean_char framing c h =
    if-clean (framing.after_cr && c == b'\n') _ _ h
      (if-clean (c == b'\r' || c == b'\n') _ _ (and-not framing.line_data) refl)

pub clean :
    (framing : StreamBoundary) (s : Text)
    → (framing.boundary && framing.line_data) ≡ false
    → ((observe_framing framing s).boundary && (observe_framing framing s).line_data) ≡ false
unfolding observe_framing
clean framing [] h = h
clean framing (c ∷ s) h = clean (observe_char framing c) s (clean_char framing c h)
