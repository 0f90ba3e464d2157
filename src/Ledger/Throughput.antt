-- ===== src/Ledger/Throughput.antt =====
-- The throughput metrics of internal/gateway/usage.go against the observations of the records.
use paracetamol.Base.{
  ℕ, ◌+◌, ◌-◌, Bool, true, if◌then◌else◌, Option, none, some, List, [], ◌∷◌, ◌≡◌, refl, arith,
  Bool-cases, inl, inr,
}
use paracetamol.Base.Int.{ℤ, pos, negsuc}
use paracetamol.Ledger.Usage.{
  Floats, RequestRecord, AggregateThroughput, saturating_add_float, timed, add_throughput_metric,
}
use paracetamol.Ledger.Capped.{zero_add, capped, saturating_add-capped, sum, pair_value}

module _ {F : Type 0} (floats : Floats F) where
  -- a number of tokens and their time: both set, the first not negative, the second a duration
  abbrev pub timing_of : Option ℤ → Option F → Option (ℕ × F)
  timing_of (some (pos n)) (some t) = if floats.refused t then none else some (n, t)
  timing_of _ _ = none

  -- the observed times, added up in the order of the records; the newest record comes first
  abbrev pub times : (RequestRecord F → Option (ℕ × F)) → List (RequestRecord F) → F
  times f [] = floats.nothing
  times f (r ∷ rs) = elim (f r) [
    | none ↦ times f rs
    | some (n, t) ↦ saturating_add_float floats (times f rs) t
  ]

  -- the throughput of the observations `f`, of which each counts `part` tokens
  abbrev pub throughput :
      (ℕ → ℕ) → (RequestRecord F → Option (ℕ × F)) → List (RequestRecord F) → AggregateThroughput F
  throughput part f rs = record {
    timed_tokens = capped (sum (λ r. pair_value (λ p. part p.0) (f r)) rs);
    milliseconds = times f rs;
    observations = capped (sum (λ r. pair_value (λ p. 1) (f r)) rs);
  }

  abbrev pub prompts : RequestRecord F → Option (ℕ × F)
  prompts r = timing_of r.backend_timings.prompt_tokens r.backend_timings.prompt_milliseconds

  abbrev pub generations : RequestRecord F → Option (ℕ × F)
  generations r =
      timing_of r.backend_timings.generated_tokens r.backend_timings.generated_milliseconds

  pub timed-free : (n : ℕ) → timed floats n true ≡ n - 1
  timed-free n = ground arith

  pub add_throughput_metric-sums :
      (v : Option ℤ) (t : Option F) (free : Bool) (part : ℕ → ℕ)
      → ((n : ℕ) → timed floats n free ≡ part n)
      → (a b : ℕ) (x : F) {m : AggregateThroughput F}
      → m ≡ record { timed_tokens = capped a; milliseconds = x; observations = capped b }
      → add_throughput_metric floats m v t free ≡ record {
        timed_tokens = capped (pair_value (λ p. part p.0) (timing_of v t) + a);
        milliseconds = elim (timing_of v t) [
          | none ↦ x
          | some (n, t) ↦ saturating_add_float floats x t
        ];
        observations = capped (pair_value (λ p. 1) (timing_of v t) + b);
      }
  unfolding add_throughput_metric
  add_throughput_metric-sums none t free part same a b x e = rw (zero_add a) (rw (zero_add b) e)
  add_throughput_metric-sums (some (negsuc n)) t free part same a b x e =
      rw (zero_add a) (rw (zero_add b) e)
  add_throughput_metric-sums (some (pos n)) none free part same a b x e =
      rw (zero_add a) (rw (zero_add b) e)
  add_throughput_metric-sums (some (pos n)) (some t) free part same a b x e =
      elim (Bool-cases (floats.refused t)) [
        | inl refused ↦ rw refused (rw (zero_add a) (rw (zero_add b) e))
        | inr taken ↦ rw taken (
            rw e (
              rw (same n)
                (rw (saturating_add-capped a (part n)) (rw (saturating_add-capped b 1) refl))))
      ]
