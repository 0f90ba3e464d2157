-- ===== src/Observer/Whole.antt =====
-- The observer of a response that is not a stream, whose body comes in several reads.
use paracetamol.Base.{
  ℕ, ◌+◌, true, false, List, [], ◌∷◌, ◌++◌, ◌≡◌, refl, arith, ltb, if◌then◌else◌, length,
  Bool-cases, inl, inr, ap, sym, ◌∙◌, length-append,
}
use paracetamol.Text.{Text}
use paracetamol.Ledger.Usage.{Floats}
use paracetamol.Completion.Collector.{mark_partial, new_collector}
use paracetamol.Observer.State.{
  Json, ResponseObserver, new_response_observer, max_observed_json_bytes,
}
use paracetamol.Observer.Observe.{observe}
use mathlib.Core.List.{append-nil, append_assoc}

-- the bytes of the reads, each with its time
unfoldable pub body : List (ℕ × Text) → Text
body [] = []
body ((now, value) ∷ reads) = value ++ body reads

-- what is kept of a body: all of it, or nothing if it is longer than 1 MiB
abbrev pub kept : {F : Type 0} → Text → ResponseObserver F
kept value =
    if ltb max_observed_json_bytes (length value)
    then record (new_response_observer false) {
      json_oversized = true;
      completion = mark_partial new_collector;
    }
    else record (new_response_observer false) { json_buffer = value }

module _ {R F : Type 0} (json : Json R F) (floats : Floats F) where
  -- `Observe` of every read
  unfoldable pub observe_reads : ResponseObserver F → List (ℕ × Text) → ResponseObserver F
  unfolding observe
  observe_reads o [] = o
  observe_reads o ((now, value) ∷ reads) = observe_reads (observe json floats now o value) reads

  observe-kept : (now : ℕ) (a b : Text) → observe json floats now (kept a) b ≡ kept (a ++ b)
  unfolding observe
  observe-kept now a b =
      let both = length-append a b in
      elim (Bool-cases (ltb max_observed_json_bytes (length a))) [
        | inl over ↦
            let whole : ltb max_observed_json_bytes (length (a ++ b)) ≡ true =
              ground (arith, over, both) in
            rw (over, observe) (rw whole refl)
        | inr under ↦ elim (Bool-cases (ltb max_observed_json_bytes (length a + length b))) [
          | inl long ↦
              let whole : ltb max_observed_json_bytes (length (a ++ b)) ≡ true =
                ground (arith, long, both) in
              rw (under, observe) (rw (long, whole) refl)
          | inr short ↦
              let whole : ltb max_observed_json_bytes (length (a ++ b)) ≡ false =
                ground (arith, short, both) in
              rw (under, observe) (rw (short, whole) refl)
        ]
      ]

  observe_reads-kept :
      (reads : List (ℕ × Text)) (a : Text) → observe_reads (kept a) reads ≡ kept (a ++ body reads)
  unfolding observe_reads body
  observe_reads-kept [] a = ap kept (sym (append-nil a))
  observe_reads-kept ((now, value) ∷ reads) a =
      ap (λ x. observe_reads x reads) (observe-kept now a value)
      ∙ observe_reads-kept reads (a ++ value)
      ∙ ap kept (append_assoc a value (body reads))

  -- However a body arrives, the observer of a response that is not a stream keeps it whole, or
  -- nothing of it, marked as partial, where it is longer than 1 MiB.
  pub observe_reads-body :
      (reads : List (ℕ × Text))
      → observe_reads (new_response_observer false) reads ≡ kept (body reads)
  observe_reads-body reads = observe_reads-kept reads []
