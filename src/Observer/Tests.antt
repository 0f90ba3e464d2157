-- ===== src/Observer/Tests.antt =====
-- A short stream and a short body, and the theorems of the observer applied to them.
use paracetamol.Base.{
  ℕ, ◌+◌, ◌-◌, true, false, none, some, List, [], ◌∷◌, ◌++◌, ◌≡◌, refl, arith, ltb, if◌then◌else◌,
}
use paracetamol.Base.Int.{pos}
use paracetamol.Text.{Text, codes, equal}
use paracetamol.Ledger.Usage.{Floats}
use paracetamol.Completion.Collector.{no_choices}
use paracetamol.Observer.State.{Json, ResponseObserver, new_response_observer}
use paracetamol.Observer.Framing.{observe_sse}
use paracetamol.Observer.Observe.{observe, finish}
use paracetamol.Observer.Chunks.{fits, observe_bytes, observe_sse-append}
use paracetamol.Observer.Bounds.{IsBounded, observe-IsBounded}
use paracetamol.Observer.Whole.{kept, body, observe_reads, observe_reads-body}

abbrev whole : Floats ℕ
whole = record {
  nothing = 0;
  max_float64 = 1000000;
  refused = λ n. false;
  less = λ a b. ltb a b;
  minus = λ a b. a - b;
  plus = λ a b. a + b;
}

-- a notation for objects in which every key has the same value, a text that stands in brackets
abbrev flat : Json Text ℕ
flat = record {
  is_absent = λ raw. equal raw [];
  unmarshal_object = λ raw. some (λ name. codes "7");
  response_object = λ value. if equal value (codes "{7}") then some (λ name. codes "7") else none;
  parse_int = λ raw. if equal raw (codes "7") then some (pos 7) else none;
  parse_float = λ raw. some 7;
  trim_bytes = λ value. value;
  unmarshal_deltas = λ raw. none;
  unique_choices = λ value. true;
  choices = λ raw. no_choices;
}

abbrev first_read : Text
first_read = codes "data: {7"

abbrev second_read : Text
second_read = codes "}\n\ndata: [DONE]\n\n"

abbrev streaming : ResponseObserver ℕ
streaming = new_response_observer true

tokens_seen :
    (finish flat whole 1 (observe flat whole 1 streaming (first_read ++ second_read))).tokens.input
    ≡ some (pos 7)
unfolding observe finish
tokens_seen = refl

observe_sse-append_example :
    (observe_sse flat whole 1 (observe_sse flat whole 1 streaming first_read) second_read
      ≡ observe_sse flat whole 1 streaming (first_read ++ second_read))
    × (observe_sse flat whole 1 streaming (first_read ++ second_read)
        ≡ observe_bytes flat whole 1 streaming (first_read ++ second_read))
observe_sse-append_example =
    observe_sse-append flat whole 1 streaming first_read second_read (unfold fits in refl)

empty-IsBounded : IsBounded streaming
empty-IsBounded = record {
  line_short = omega arith;
  event_short = omega arith;
  json_short = omega arith;
}

observe-IsBounded_example : IsBounded (observe flat whole 1 streaming first_read)
observe-IsBounded_example = observe-IsBounded flat whole 1 streaming first_read empty-IsBounded

abbrev reads : List (ℕ × Text)
reads = (1, codes "{7") ∷ (2, codes "}") ∷ []

observe_reads-body_example :
    observe_reads flat whole (new_response_observer false) reads ≡ kept (body reads)
observe_reads-body_example = observe_reads-body flat whole reads
