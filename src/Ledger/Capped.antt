-- ===== src/Ledger/Capped.antt =====
-- The metrics of internal/gateway/usage.go against plain sums, cut down to the largest `uint64`.
use paracetamol.Base.{
  ℕ, suc, ◌+◌, Option, none, some, List, [], ◌∷◌, ◌≡◌, refl, arith, Option-cases, inl, inr,
}
use paracetamol.Base.Int.{ℤ, pos, negsuc}
use paracetamol.Ledger.Usage.{
  RequestOutcome, outcome_succeeded, outcome_rejected, outcome_canceled, outcome_queue_full,
  outcome_backend_start_failed, outcome_upstream_error, unnamed, AggregateMetric, AggregateOutcomes,
  AggregateCacheReuse, AggregateDraft, saturating_add, add_token_metric, add_duration_metric,
  add_outcome, add_cache_reuse, add_draft_metric, paired, max_uint64,
}
use paracetamol.Ledger.Store.{least}

pub zero_add : (n : ℕ) → 0 + n ≡ n
zero_add n = omega arith

pub one_add : (n : ℕ) → 1 + n ≡ suc n
one_add n = omega arith

abbrev pub capped : ℕ → ℕ
capped n = least n max_uint64

pub saturating_add-capped : (n v : ℕ) → saturating_add (capped n) v ≡ capped (v + n)
unfolding saturating_add
saturating_add-capped n v = ground arith

-- an observation that is set and not negative, and how often there is one
abbrev pub value : Option ℤ → ℕ
value (some (pos n)) = n
value _ = 0

abbrev pub observed : Option ℤ → ℕ
observed (some (pos n)) = 1
observed _ = 0

abbrev pub sum {ℓ} : {A : Type ℓ} → (A → ℕ) → List A → ℕ
sum f [] = 0
sum f (x ∷ xs) = f x + sum f xs

-- a metric whose sums are `a` and `b`
abbrev pub sums : ℕ → ℕ → AggregateMetric
sums a b = record { total = capped a; observations = capped b }

pub add_token_metric-sums :
    (v : Option ℤ) (a b : ℕ) {m : AggregateMetric}
    → m ≡ sums a b
    → add_token_metric m v ≡ sums (value v + a) (observed v + b)
unfolding add_token_metric
add_token_metric-sums none a b e = rw (zero_add a) (rw (zero_add b) e)
add_token_metric-sums (some (negsuc n)) a b e = rw (zero_add a) (rw (zero_add b) e)
add_token_metric-sums (some (pos n)) a b e =
    rw e (rw (saturating_add-capped a n) (rw (saturating_add-capped b 1) refl))

pub add_duration_metric-sums :
    (v : ℤ) (a b : ℕ) {m : AggregateMetric}
    → m ≡ sums a b
    → add_duration_metric m v ≡ sums (value (some v) + a) (observed (some v) + b)
unfolding add_duration_metric
add_duration_metric-sums (negsuc n) a b e = rw (zero_add a) (rw (zero_add b) e)
add_duration_metric-sums (pos n) a b e =
    rw e (rw (saturating_add-capped a n) (rw (saturating_add-capped b 1) refl))

abbrev pub pair_value {ℓ} : {A : Type ℓ} → (A → ℕ) → Option A → ℕ
pair_value part none = 0
pair_value part (some p) = part p

abbrev pub draft_sums : ℕ → ℕ → ℕ → AggregateDraft
draft_sums a b c = record {
  draft_tokens = capped a;
  accepted_tokens = capped b;
  observations = capped c;
}

abbrev pub cache_sums : ℕ → ℕ → ℕ → AggregateCacheReuse
cache_sums a b c = record {
  input_tokens = capped a;
  cached_tokens = capped b;
  observations = capped c;
}

pub add_draft_metric-sums :
    (x y : Option ℤ) (a b c : ℕ) {m : AggregateDraft}
    → m ≡ draft_sums a b c
    → add_draft_metric m x y
      ≡ draft_sums
          (pair_value (λ p. p.0) (paired x y) + a)
          (pair_value (λ p. p.1) (paired x y) + b)
          (pair_value (λ p. 1) (paired x y) + c)
unfolding add_draft_metric
add_draft_metric-sums x y a b c e = elim (Option-cases (paired x y)) [
  | inl alone ↦ rw (alone, add_draft_metric) (rw (zero_add a) (rw (zero_add b) (rw (zero_add c) e)))
  | inr ((n, m), both) ↦
      rw (both, add_draft_metric)
        (rw e (
          rw (saturating_add-capped a n)
            (rw (saturating_add-capped b m) (rw (saturating_add-capped c 1) refl))))
]

pub add_cache_reuse-sums :
    (x y : Option ℤ) (a b c : ℕ) {m : AggregateCacheReuse}
    → m ≡ cache_sums a b c
    → add_cache_reuse m x y
      ≡ cache_sums
          (pair_value (λ p. p.0) (paired x y) + a)
          (pair_value (λ p. p.1) (paired x y) + b)
          (pair_value (λ p. 1) (paired x y) + c)
unfolding add_cache_reuse
add_cache_reuse-sums x y a b c e = elim (Option-cases (paired x y)) [
  | inl alone ↦ rw (alone, add_cache_reuse) (rw (zero_add a) (rw (zero_add b) (rw (zero_add c) e)))
  | inr ((n, m), both) ↦
      rw (both, add_cache_reuse)
        (rw e (
          rw (saturating_add-capped a n)
            (rw (saturating_add-capped b m) (rw (saturating_add-capped c 1) refl))))
]

abbrev pub is_outcome : RequestOutcome → RequestOutcome → ℕ
is_outcome outcome_succeeded outcome_succeeded = 1
is_outcome outcome_rejected outcome_rejected = 1
is_outcome outcome_canceled outcome_canceled = 1
is_outcome outcome_queue_full outcome_queue_full = 1
is_outcome outcome_backend_start_failed outcome_backend_start_failed = 1
is_outcome outcome_upstream_error outcome_upstream_error = 1
is_outcome unnamed unnamed = 1
is_outcome _ _ = 0

-- a count of each outcome
abbrev pub tally : (RequestOutcome → ℕ) → AggregateOutcomes
tally n = record {
  succeeded = capped (n outcome_succeeded);
  rejected = capped (n outcome_rejected);
  canceled = capped (n outcome_canceled);
  queue_full = capped (n outcome_queue_full);
  backend_start_failed = capped (n outcome_backend_start_failed);
  upstream_error = capped (n outcome_upstream_error);
  other = capped (n unnamed);
}

pub add_outcome-tally :
    (n : RequestOutcome → ℕ) (o : RequestOutcome) {m : AggregateOutcomes}
    → m ≡ tally n
    → add_outcome m o ≡ tally (λ p. is_outcome p o + n p)
unfolding add_outcome
add_outcome-tally n outcome_succeeded e = rw e (simp (zero_add, saturating_add-capped) refl)
add_outcome-tally n outcome_rejected e = rw e (simp (zero_add, saturating_add-capped) refl)
add_outcome-tally n outcome_canceled e = rw e (simp (zero_add, saturating_add-capped) refl)
add_outcome-tally n outcome_queue_full e = rw e (simp (zero_add, saturating_add-capped) refl)
add_outcome-tally n outcome_backend_start_failed e =
    rw e (simp (zero_add, saturating_add-capped) refl)
add_outcome-tally n outcome_upstream_error e = rw e (simp (zero_add, saturating_add-capped) refl)
add_outcome-tally n unnamed e = rw e (simp (zero_add, saturating_add-capped) refl)
