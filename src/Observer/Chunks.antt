-- ===== src/Observer/Chunks.antt =====
-- How a stream is cut into reads, and the observer of its bytes.
use paracetamol.Base.{
  ℕ, suc, Bool, true, false, ◌&&◌, List, [], ◌∷◌, ◌++◌, ◌≡◌, refl, arith, leb, ◌==◌, if◌then◌else◌,
  length, Bool-cases, inl, inr, ap, sym, ◌∙◌, length-append,
}
use paracetamol.Text.{Text, split, split_onto}
use paracetamol.Ledger.Usage.{Floats}
use paracetamol.Observer.State.{Json, ResponseObserver, max_observed_sse_event_bytes}
use paracetamol.Observer.Framing.{complete_line, partial_line, observe_parts, observe_sse}
use mathlib.Core.List.{append_assoc}

-- no line gets longer than the limit, the first of which has `n` bytes already
unfoldable pub fits : ℕ → Text → Bool
fits n [] = true
fits n (c ∷ s) =
    if c == b'\n' then fits 0 s else leb (suc n) max_observed_sse_event_bytes && fits (suc n) s

fits-newline : (n c : ℕ) (s : Text) → (c == b'\n') ≡ true → fits n (c ∷ s) ≡ true → fits 0 s ≡ true
unfolding fits
fits-newline n c s newline f = rw newline at f

fits-other :
    (n c : ℕ) (s : Text)
    → (c == b'\n') ≡ false
    → fits n (c ∷ s) ≡ true
    → (leb (suc n) max_observed_sse_event_bytes ≡ true) × (fits (suc n) s ≡ true)
unfolding fits
fits-other n c s other f = elim (Bool-cases (leb (suc n) max_observed_sse_event_bytes)) [
  | inl short ↦ (short, (rw short at (rw other at f)))
  | inr long ↦ absurd (ground (arith, (rw other at f), long))
]

fits_newline : (n c : ℕ) (s : Text) → (c == b'\n') ≡ true → fits 0 s ≡ true → fits n (c ∷ s) ≡ true
unfolding fits
fits_newline n c s newline f = rw newline f

fits_other :
    (n c : ℕ) (s : Text)
    → (c == b'\n') ≡ false
    → leb (suc n) max_observed_sse_event_bytes ≡ true
    → fits (suc n) s ≡ true
    → fits n (c ∷ s) ≡ true
unfolding fits
fits_other n c s other short f = rw other (rw short f)

module _ {R F : Type 0} (json : Json R F) (floats : Floats F) (now : ℕ) where
  -- one byte at a time
  unfoldable pub observe_byte : ResponseObserver F → ℕ → ResponseObserver F
  observe_byte o c =
      if c == b'\n'
      then complete_line json floats now o []
      else record o { line = o.line ++ c ∷ [] }

  unfoldable pub observe_bytes : ResponseObserver F → Text → ResponseObserver F
  unfolding observe_byte
  observe_bytes o [] = o
  observe_bytes o (c ∷ s) = observe_bytes (observe_byte o c) s

  observe_bytes-append :
      (o : ResponseObserver F) (a b : Text)
      → observe_bytes o (a ++ b) ≡ observe_bytes (observe_bytes o a) b
  unfolding observe_bytes
  observe_bytes-append o [] b = refl
  observe_bytes-append o (c ∷ a) b = observe_bytes-append (observe_byte o c) a b

  -- a byte in front of a part may as well be in the line already
  complete_line-cons :
      (o : ResponseObserver F) (c : ℕ) (part : Text)
      → complete_line json floats now o (c ∷ part)
        ≡ complete_line json floats now (record o { line = o.line ++ c ∷ [] }) part
  unfolding complete_line
  complete_line-cons o c part = rw (append_assoc o.line (c ∷ []) part) refl

  partial_line-cons :
      (o : ResponseObserver F) (c : ℕ) (part : Text)
      → leb (suc (length o.line)) max_observed_sse_event_bytes ≡ true
      → observe_parts json floats now o ((c ∷ part) ∷ [])
        ≡ observe_parts json floats now (record o { line = o.line ++ c ∷ [] }) (part ∷ [])
  unfolding observe_parts partial_line
  partial_line-cons o c [] h =
      let e : length (o.line ++ c ∷ []) ≡ suc (length o.line) =
        omega (arith, length-append o.line (c ∷ [])) in
      let short : leb (length (o.line ++ c ∷ [])) max_observed_sse_event_bytes ≡ true =
        ap (λ n. leb n max_observed_sse_event_bytes) e ∙ h in
      rw (short, partial_line) refl
  partial_line-cons o c (d ∷ part) h = rw (append_assoc o.line (c ∷ []) (d ∷ part)) refl

  observe_parts-cons :
      (o : ResponseObserver F) (c : ℕ) (part : Text) (parts : List Text)
      → leb (suc (length o.line)) max_observed_sse_event_bytes ≡ true
      → observe_parts json floats now o ((c ∷ part) ∷ parts)
        ≡ observe_parts json floats now (record o { line = o.line ++ c ∷ [] }) (part ∷ parts)
  observe_parts-cons o c part [] h = partial_line-cons o c part h
  observe_parts-cons o c part (next ∷ parts) h =
      unfold observe_parts in
      ap (λ x. observe_parts json floats now x (next ∷ parts)) (complete_line-cons o c part)

  line_complete :
      (o : ResponseObserver F) (v : Text) → (complete_line json floats now o v).line ≡ []
  unfolding complete_line
  line_complete o v = elim (Bool-cases (leb (length (o.line ++ v)) max_observed_sse_event_bytes)) [
    | inl short ↦ rw (short, complete_line) refl
    | inr long ↦ rw (long, complete_line) refl
  ]

  observe_byte-newline :
      (o : ResponseObserver F) (c : ℕ)
      → (c == b'\n') ≡ true
      → observe_byte o c ≡ complete_line json floats now o []
  unfolding observe_byte
  observe_byte-newline o c newline = rw newline refl

  observe_byte-other :
      (o : ResponseObserver F) (c : ℕ)
      → (c == b'\n') ≡ false
      → observe_byte o c ≡ record o { line = o.line ++ c ∷ [] }
  unfolding observe_byte
  observe_byte-other o c other = rw other refl

  -- The stream as `observeSSE` reads it, one byte at a time.
  observe_sse-bytes :
      (o : ResponseObserver F) (value : Text)
      → fits (length o.line) value ≡ true
      → observe_sse json floats now o value ≡ observe_bytes o value
  unfolding observe_sse observe_bytes split
  observe_sse-bytes o [] f = refl
  observe_sse-bytes o (c ∷ s) f = elim (Bool-cases (c == b'\n')) [
    | inl newline ↦
        let o' = complete_line json floats now o [] in
        let empty = ap (λ (l : Text). fits (length l) s) (line_complete o []) in
        let ih = observe_sse-bytes o' s (empty ∙ fits-newline (length o.line) c s newline f) in
        rw (observe_byte-newline o c newline) (rw newline ih)
    | inr other ↦
        let o' = record o { line = o.line ++ c ∷ [] } in
        let (short, rest) = fits-other (length o.line) c s other f in
        let longer : length (o.line ++ c ∷ []) ≡ suc (length o.line) =
          omega (arith, length-append o.line (c ∷ [])) in
        let ih = observe_sse-bytes o' s (ap (λ n. fits n s) longer ∙ rest) in
        let parts = split_onto b'\n' s in
        rw (observe_byte-other o c other)
          (rw other (observe_parts-cons o c parts.0 parts.1 short ∙ ih))
  ]

  fits-append :
      (o : ResponseObserver F) (a b : Text)
      → fits (length o.line) (a ++ b) ≡ true
      → (fits (length o.line) a ≡ true) × (fits (length (observe_bytes o a).line) b ≡ true)
  unfolding observe_bytes
  fits-append o [] b f = (unfold fits in refl, f)
  fits-append o (c ∷ a) b f =
      let line_fits = λ (x : ResponseObserver F). fits (length (observe_bytes x a).line) b in
      elim (Bool-cases (c == b'\n')) [
        | inl newline ↦
            let o' = complete_line json floats now o [] in
            let empty = ap (λ (l : Text). fits (length l) (a ++ b)) (line_complete o []) in
            let (front, back) =
              fits-append o' a b (empty ∙ fits-newline (length o.line) c (a ++ b) newline f) in
            let front' = ap (λ (l : Text). fits (length l) a) (sym (line_complete o [])) ∙ front in
            (
              fits_newline (length o.line) c a newline front',
              ap line_fits (observe_byte-newline o c newline) ∙ back,
            )
        | inr other ↦
            let o' = record o { line = o.line ++ c ∷ [] } in
            let (short, rest) = fits-other (length o.line) c (a ++ b) other f in
            let longer : length (o.line ++ c ∷ []) ≡ suc (length o.line) =
              omega (arith, length-append o.line (c ∷ [])) in
            let (front, back) = fits-append o' a b (ap (λ n. fits n (a ++ b)) longer ∙ rest) in
            let front' = ap (λ n. fits n a) (sym longer) ∙ front in
            (
              fits_other (length o.line) c a other short front',
              ap line_fits (observe_byte-other o c other) ∙ back,
            )
      ]

  -- At one reading of the clock, and while no line of a stream, what stands of it before included,
  -- gets longer than 256 KiB, two reads of the stream have the effect of one read of both, and that
  -- of their bytes one at a time.
  pub observe_sse-append :
      (o : ResponseObserver F) (a b : Text)
      → fits (length o.line) (a ++ b) ≡ true
      → (observe_sse json floats now (observe_sse json floats now o a) b
          ≡ observe_sse json floats now o (a ++ b))
        × (observe_sse json floats now o (a ++ b) ≡ observe_bytes o (a ++ b))
  observe_sse-append o a b f =
      let (front, back) = fits-append o a b f in
      let whole = observe_sse-bytes o (a ++ b) f in
      let first = observe_sse-bytes o a front in
      let second = observe_sse-bytes (observe_bytes o a) b back in
      (
        ap (λ x. observe_sse json floats now x b) first
            ∙ second
            ∙ sym (whole ∙ observe_bytes-append o a b),
        whole,
      )
