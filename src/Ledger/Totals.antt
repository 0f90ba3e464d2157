-- ===== src/Ledger/Totals.antt =====
-- What the aggregates of internal/gateway/usage.go are of the records that `addAggregate` has read.
use paracetamol.Base.{ℕ, ◌-◌, true, false, Option, some, List, [], ◌∷◌, ◌≡◌, refl, ap, ◌∙◌, length}
use paracetamol.Base.Int.{ℤ}
use paracetamol.Ledger.Usage.{
  Floats, RequestRecord, RequestAggregate, AggregateMetric, AggregateOutcomes, add_aggregate,
  paired, no_usage,
}
use paracetamol.Ledger.Store.{add}
use paracetamol.Ledger.Recent.{after}
use paracetamol.Ledger.Capped.{
  one_add, capped, saturating_add-capped, value, observed, sum, pair_value, is_outcome, tally,
  add_token_metric-sums, add_duration_metric-sums, add_draft_metric-sums, add_cache_reuse-sums,
  add_outcome-tally,
}
use paracetamol.Ledger.Throughput.{
  throughput, prompts, generations, timed-free, add_throughput_metric-sums,
}

module _ {F : Type 0} where
  -- what a metric of the observations `f` has to be
  abbrev pub metric : (RequestRecord F → Option ℤ) → List (RequestRecord F) → AggregateMetric
  metric f rs = record {
    total = capped (sum (λ r. value (f r)) rs);
    observations = capped (sum (λ r. observed (f r)) rs);
  }

  -- the sum of a part of the pairs that count, and how many they are
  abbrev pub pairs : (ℕ × ℕ → ℕ) → (RequestRecord F → Option (ℕ × ℕ)) → List (RequestRecord F) → ℕ
  pairs part f rs = capped (sum (λ r. pair_value part (f r)) rs)

  abbrev pub drafts : RequestRecord F → Option (ℕ × ℕ)
  drafts r = paired r.backend_timings.draft_tokens r.backend_timings.draft_accepted_tokens

  abbrev pub caches : RequestRecord F → Option (ℕ × ℕ)
  caches r = paired r.tokens.input r.tokens.cached

  abbrev pub counts : List (RequestRecord F) → AggregateOutcomes
  counts rs = tally (λ o. sum (λ r. is_outcome o r.outcome) rs)

module _ {F : Type 0} (floats : Floats F) where
  -- an aggregate of the records
  pub record Totals (a : RequestAggregate F) (rs : List (RequestRecord F)) : Type 0 where
    pub requests : a.requests ≡ capped (length rs)
    pub outcomes : a.outcomes ≡ counts rs
    pub input : a.tokens.input ≡ metric (λ r. r.tokens.input) rs
    pub output : a.tokens.output ≡ metric (λ r. r.tokens.output) rs
    pub cached : a.tokens.cached ≡ metric (λ r. r.tokens.cached) rs
    pub reasoning : a.tokens.reasoning ≡ metric (λ r. r.tokens.reasoning) rs
    pub gateway_wait :
        a.timing.gateway_wait ≡ metric (λ r. some r.timing.gateway_wait_milliseconds) rs
    pub upstream : a.timing.upstream ≡ metric (λ r. some r.timing.upstream_milliseconds) rs
    pub total : a.timing.total ≡ metric (λ r. some r.timing.total_milliseconds) rs
    pub first_output : a.timing.first_output ≡ metric (λ r. r.timing.first_output_milliseconds) rs
    pub draft : a.backend_timings.speculative_draft ≡ record {
      draft_tokens = pairs (λ p. p.0) drafts rs;
      accepted_tokens = pairs (λ p. p.1) drafts rs;
      observations = pairs (λ p. 1) drafts rs;
    }
    pub prompt :
        a.backend_timings.prompt_processing ≡ throughput floats (λ n. n) (prompts floats) rs
    pub generation :
        a.backend_timings.token_generation ≡ throughput floats (λ n. n - 1) (generations floats) rs
    pub cache : a.cache_reuse ≡ record {
      input_tokens = pairs (λ p. p.0) caches rs;
      cached_tokens = pairs (λ p. p.1) caches rs;
      observations = pairs (λ p. 1) caches rs;
    }

  pub add_aggregate-Totals :
      {a : RequestAggregate F} (r : RequestRecord F) (rs : List (RequestRecord F))
      → Totals a rs
      → Totals (add_aggregate floats a r) (r ∷ rs)
  unfolding add_aggregate
  add_aggregate-Totals r rs t = record {
    requests =
        rw t.requests (saturating_add-capped (length rs) 1 ∙ ap capped (one_add (length rs)));
    outcomes = add_outcome-tally (λ o. sum (λ r. is_outcome o r.outcome) rs) r.outcome t.outcomes;
    input = add_token_metric-sums r.tokens.input _ _ t.input;
    output = add_token_metric-sums r.tokens.output _ _ t.output;
    cached = add_token_metric-sums r.tokens.cached _ _ t.cached;
    reasoning = add_token_metric-sums r.tokens.reasoning _ _ t.reasoning;
    gateway_wait = add_duration_metric-sums r.timing.gateway_wait_milliseconds _ _ t.gateway_wait;
    upstream = add_duration_metric-sums r.timing.upstream_milliseconds _ _ t.upstream;
    total = add_duration_metric-sums r.timing.total_milliseconds _ _ t.total;
    first_output = add_token_metric-sums r.timing.first_output_milliseconds _ _ t.first_output;
    draft =
        add_draft_metric-sums r.backend_timings.draft_tokens r.backend_timings.draft_accepted_tokens
          _ _ _ t.draft;
    prompt =
        add_throughput_metric-sums floats r.backend_timings.prompt_tokens
          r.backend_timings.prompt_milliseconds false (λ n. n) (λ n. refl) _ _ _ t.prompt;
    generation =
        add_throughput_metric-sums floats r.backend_timings.generated_tokens
          r.backend_timings.generated_milliseconds true (λ n. n - 1) (timed-free floats) _ _ _
          t.generation;
    cache = add_cache_reuse-sums r.tokens.input r.tokens.cached _ _ _ t.cache;
  }

  -- the zero value is the aggregate of no records
  pub no_usage-Totals : Totals (no_usage floats) []
  no_usage-Totals = record {
    requests = refl;
    outcomes = refl;
    input = refl;
    output = refl;
    cached = refl;
    reasoning = refl;
    gateway_wait = refl;
    upstream = refl;
    total = refl;
    first_output = refl;
    draft = refl;
    prompt = refl;
    generation = refl;
    cache = refl;
  }

  -- Whatever records have been added, the overall usage counts them, counts each outcome, and has
  -- the sum and the number of the observations of each token count and duration, of the draft
  -- tokens, of the cache reuse and of the tokens timed for prompts and for generation, each cut down
  -- to the largest `uint64`. A timed generation counts without its first token, and the times are
  -- added in the order of the records.
  pub overall-Totals :
      (history : List (RequestRecord F)) → Totals (after floats history).overall history
  unfolding after add
  overall-Totals [] = no_usage-Totals
  overall-Totals (r ∷ older) = add_aggregate-Totals r older (overall-Totals older)
