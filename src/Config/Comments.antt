-- ===== src/Config/Comments.antt =====
-- What `stripConfigurationComment` leaves of a line, against the grammar of Config/Quoting.antt.
use paracetamol.Base.{
  ℕ, true, false, ◌&&◌, [], ◌∷◌, ◌++◌, ◌≡◌, refl, inl, inr, ◌↔◌, ap, ◌∙◌, arith, ◌==◌, Bool-cases,
}
use paracetamol.Base.Result.{ok}
use paracetamol.Text.{Text}
use paracetamol.Config.Values.{next_quote, next_escaped, strip_from, strip_comment}
use paracetamol.Config.Quoting.{
  Place, outside, in_literal, in_basic, Quoting, ends, plain, opens_literal, opens_basic, literal,
  closes_literal, basic, escapes, closes_basic, Comment, Strips, quote_of, strip_from-comment,
  strip_from-inner, strip_from-outer,
}

-- one more character before what is left of the text behind it
Strips-step :
    (quote : ℕ) (behind : Place) {before : Place} (c : ℕ) (s line : Text)
    → (quote == 0 && c == b'#') ≡ false
    → next_quote quote false c ≡ quote_of behind
    → next_escaped quote false c ≡ false
    → strip_from quote false (c ∷ s) ≡ ok line
    → ((kept : Text) → strip_from (quote_of behind) false s ≡ ok kept → Strips behind s kept)
    → ((kept : Text) → Quoting behind kept → Quoting before (c ∷ kept))
    → Strips before (c ∷ s) line
Strips-step quote behind c s line n a b e inner extend =
    let (kept, k, l) = strip_from-inner quote (quote_of behind) false false c s line n a b e in
    let i = inner kept k in
    record {
      comment = i.comment;
      splits = rw l (ap (◌∷◌ c) i.splits);
      starts = i.starts;
      quoting = rw l (extend kept i.quoting);
    }

Quoting-head :
    {place : Place} {c d : ℕ} {s : Text} → c ≡ d → Quoting place (d ∷ s) → Quoting place (c ∷ s)
Quoting-head e q = rw e q

Strips-end :
    (place : Place) (line : Text)
    → strip_from (quote_of place) false [] ≡ ok line
    → Strips place [] line
unfolding strip_from
Strips-end outside line e =
    let l : line ≡ [] = ground arith in
    record { comment = []; splits = rw l refl; starts = inl refl; quoting = rw l ends }
Strips-end in_literal line e = absurd (ground arith)
Strips-end in_basic line e = absurd (ground arith)

-- a backslash and the character that it takes along
Strips-escape :
    (c d : ℕ) (s line : Text)
    → c ≡ b'\\'
    → strip_from b'"' false (c ∷ d ∷ s) ≡ ok line
    → ((kept : Text) → strip_from b'"' false s ≡ ok kept → Strips in_basic s kept)
    → Strips in_basic (c ∷ d ∷ s) line
unfolding next_quote next_escaped
Strips-escape c d s line q e inner =
    let (front, k, l) =
      strip_from-inner b'"' b'"' false true c (d ∷ s) line refl (ground arith) (ground arith) e in
    let (kept, k', l') =
      strip_from-inner b'"' b'"' true false d s front refl (ground arith) (ground arith) k in
    let i = inner kept k' in
    let whole : line ≡ c ∷ d ∷ kept = l ∙ ap (◌∷◌ c) l' in
    record {
      comment = i.comment;
      splits = rw whole (ap (λ t. c ∷ d ∷ t) i.splits);
      starts = i.starts;
      quoting = rw whole (Quoting-head q (escapes i.quoting));
    }

strip_from-last :
    (c : ℕ) (line : Text)
    → strip_from b'"' false (c ∷ []) ≡ ok line
    → (c ≡ b'"') × (line ≡ b'"' ∷ [])
unfolding strip_from next_quote next_escaped
strip_from-last c line e = ground arith

strip_from-Strips :
    (place : Place) (raw line : Text)
    → strip_from (quote_of place) false raw ≡ ok line
    → Strips place raw line
unfolding next_quote next_escaped
strip_from-Strips place [] line e = Strips-end place line e
strip_from-Strips outside (c ∷ s) line e = elim (Bool-cases (c == b'#')) [
  | inl here ↦
      let (l, h) = strip_from-comment c s line here e in
      record {
        comment = c ∷ s;
        splits = rw l refl;
        starts = inr (s, rw h refl);
        quoting = rw l ends;
      }
  | inr there ↦ elim (Bool-cases (c == b'\'')) [
    | inl single ↦
        Strips-step 0 in_literal c s line there (ground arith) (ground arith) e
          (strip_from-Strips in_literal s) (λ kept q. Quoting-head (ground arith) (opens_literal q))
    | inr other ↦ elim (Bool-cases (c == b'"')) [
      | inl double ↦
          Strips-step 0 in_basic c s line there (ground arith) (ground arith) e
            (strip_from-Strips in_basic s) (λ kept q. Quoting-head (ground arith) (opens_basic q))
      | inr neither ↦
          Strips-step 0 outside c s line there (ground arith) (ground arith) e
            (strip_from-Strips outside s) (λ kept q. plain (ground arith) q)
    ]
  ]
]
strip_from-Strips in_literal (c ∷ s) line e = elim (Bool-cases (c == b'\'')) [
  | inl here ↦
      Strips-step b'\'' outside c s line refl (ground arith) (ground arith) e
        (strip_from-Strips outside s) (λ kept q. Quoting-head (ground arith) (closes_literal q))
  | inr there ↦
      Strips-step b'\'' in_literal c s line refl (ground arith) (ground arith) e
        (strip_from-Strips in_literal s) (λ kept q. literal there q)
]
strip_from-Strips in_basic (c ∷ []) line e =
    let (q, l) = strip_from-last c line e in
    record {
      comment = [];
      splits = rw (q, l) refl;
      starts = inl refl;
      quoting = rw l (closes_basic ends);
    }
strip_from-Strips in_basic (c ∷ d ∷ s) line e = elim (Bool-cases (c == b'"')) [
  | inl here ↦
      Strips-step b'"' outside c (d ∷ s) line refl (ground arith) (ground arith) e
        (strip_from-Strips outside (d ∷ s)) (λ kept q. Quoting-head (ground arith) (closes_basic q))
  | inr there ↦ elim (Bool-cases (c == b'\\')) [
    | inl backslash ↦ Strips-escape c d s line (ground arith) e (strip_from-Strips in_basic s)
    | inr plainly ↦
        Strips-step b'"' in_basic c (d ∷ s) line refl (ground arith) (ground arith) e
          (strip_from-Strips in_basic (d ∷ s)) (λ kept q. basic (ground arith) q)
  ]
]

Comment-strip_from : (comment : Text) → Comment comment → strip_from 0 false comment ≡ ok []
unfolding strip_from
Comment-strip_from comment (inl e) = rw e refl
Comment-strip_from comment (inr (rest, e)) = rw e refl

strip_from-quoting :
    {place : Place} {line : Text} (comment : Text)
    → Quoting place line
    → Comment comment
    → strip_from (quote_of place) false (line ++ comment) ≡ ok line
unfolding next_quote next_escaped
strip_from-quoting comment ends e = Comment-strip_from comment e
strip_from-quoting comment (plain {c} {s} n q) e =
    strip_from-outer 0 0 false false c (s ++ comment) s (ground arith) (ground arith) (ground arith)
      (strip_from-quoting comment q e)
strip_from-quoting comment (opens_literal {s} q) e =
    strip_from-outer 0 b'\'' false false b'\'' (s ++ comment) s refl refl refl
      (strip_from-quoting comment q e)
strip_from-quoting comment (opens_basic {s} q) e =
    strip_from-outer 0 b'"' false false b'"' (s ++ comment) s refl refl refl
      (strip_from-quoting comment q e)
strip_from-quoting comment (literal {c} {s} n q) e =
    strip_from-outer b'\'' b'\'' false false c (s ++ comment) s refl (ground arith) (ground arith)
      (strip_from-quoting comment q e)
strip_from-quoting comment (closes_literal {s} q) e =
    strip_from-outer b'\'' 0 false false b'\'' (s ++ comment) s refl refl refl
      (strip_from-quoting comment q e)
strip_from-quoting comment (basic {c} {s} n q) e =
    strip_from-outer b'"' b'"' false false c (s ++ comment) s refl (ground arith) (ground arith)
      (strip_from-quoting comment q e)
strip_from-quoting comment (escapes {c} {s} q) e =
    strip_from-outer b'"' b'"' false true b'\\' (c ∷ (s ++ comment)) (c ∷ s) refl refl refl (
      strip_from-outer b'"' b'"' true false c (s ++ comment) s refl refl refl
        (strip_from-quoting comment q e))
strip_from-quoting comment (closes_basic {s} q) e =
    strip_from-outer b'"' 0 false false b'"' (s ++ comment) s refl refl refl
      (strip_from-quoting comment q e)

-- `stripConfigurationComment` returns a line exactly if the raw line is that one, with plain
-- characters, whole literals and whole basic strings only, followed by nothing or by a `#` and the
-- rest.
pub strip_comment-Strips :
    (raw line : Text) → (strip_comment raw ≡ ok line) ↔ Strips outside raw line
unfolding strip_comment
strip_comment-Strips raw line = (
  strip_from-Strips outside raw line,
  λ s. rw s.splits (strip_from-quoting s.comment s.quoting s.starts),
)
