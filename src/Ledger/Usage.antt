-- ===== src/Ledger/Usage.antt =====
-- The aggregates of internal/gateway/usage.go and what a record adds to them. The ratios and rates,
-- which are nil until a snapshot computes them, are left out.
use paracetamol.Base.{
  ℕ, ◌-◌, ◌+◌, ◌^◌, Bool, true, false, ◌&&◌, Option, none, some, ltb, leb, if◌then◌else◌,
}
use paracetamol.Base.Int.{ℤ, pos, negsuc}
use paracetamol.Text.{Text}

-- What the code uses of `float64`: `refused` holds of negative, infinite and undefined values.
pub record Floats (F : Type 0) : Type 0 where
  pub nothing : F
  pub max_float64 : F
  pub refused : F → Bool
  pub less : F → F → Bool
  pub minus : F → F → F
  pub plus : F → F → F

pub record AggregateMetric : Type 0 where
  pub total : ℕ
  pub observations : ℕ

pub record AggregateTokens : Type 0 where
  pub input : AggregateMetric
  pub output : AggregateMetric
  pub cached : AggregateMetric
  pub reasoning : AggregateMetric

pub record AggregateTiming : Type 0 where
  pub gateway_wait : AggregateMetric
  pub upstream : AggregateMetric
  pub total : AggregateMetric
  pub first_output : AggregateMetric

pub record AggregateCacheReuse : Type 0 where
  pub input_tokens : ℕ
  pub cached_tokens : ℕ
  pub observations : ℕ

pub record AggregateThroughput (F : Type 0) : Type 0 where
  pub timed_tokens : ℕ
  pub milliseconds : F
  pub observations : ℕ

pub record AggregateDraft : Type 0 where
  pub draft_tokens : ℕ
  pub accepted_tokens : ℕ
  pub observations : ℕ

pub record AggregateBackendTimings (F : Type 0) : Type 0 where
  pub prompt_processing : AggregateThroughput F
  pub token_generation : AggregateThroughput F
  pub speculative_draft : AggregateDraft

pub record AggregateOutcomes : Type 0 where
  pub succeeded : ℕ
  pub rejected : ℕ
  pub canceled : ℕ
  pub queue_full : ℕ
  pub backend_start_failed : ℕ
  pub upstream_error : ℕ
  pub other : ℕ

pub record RequestAggregate (F : Type 0) : Type 0 where
  pub requests : ℕ
  pub outcomes : AggregateOutcomes
  pub tokens : AggregateTokens
  pub timing : AggregateTiming
  pub backend_timings : AggregateBackendTimings F
  pub cache_reuse : AggregateCacheReuse

-- `unnamed` stands for every other string
pub data RequestOutcome : Type 0 where
  outcome_succeeded outcome_rejected outcome_canceled outcome_queue_full : RequestOutcome
  outcome_backend_start_failed outcome_upstream_error unnamed : RequestOutcome

pub record RequestTiming : Type 0 where
  pub gateway_wait_milliseconds : ℤ
  pub upstream_milliseconds : ℤ
  pub total_milliseconds : ℤ
  pub first_output_milliseconds : Option ℤ

pub record TokenUsage : Type 0 where
  pub input : Option ℤ
  pub output : Option ℤ
  pub cached : Option ℤ
  pub reasoning : Option ℤ

pub record BackendTimings (F : Type 0) : Type 0 where
  pub prompt_tokens : Option ℤ
  pub prompt_milliseconds : Option F
  pub generated_tokens : Option ℤ
  pub generated_milliseconds : Option F
  pub draft_tokens : Option ℤ
  pub draft_accepted_tokens : Option ℤ
  pub draft_verification_steps : Option ℤ

-- `Controls` and `Completion`, which the ledger only carries along, are left out.
pub record RequestRecord (F : Type 0) : Type 0 where
  pub id : Text
  pub session_id : Text
  pub model : Text
  pub application : Text
  pub peer : Text
  pub user_agent : Text
  pub stream : Bool
  pub outcome : RequestOutcome
  pub http_status : ℤ
  pub started_at : Text
  pub finished_at : Text
  pub timing : RequestTiming
  pub tokens : TokenUsage
  pub backend_timings : BackendTimings F

abbrev pub max_uint64 : ℕ
max_uint64 = 2 ^ 64 - 1

unfoldable pub saturating_add : ℕ → ℕ → ℕ
saturating_add current value =
    if ltb (max_uint64 - current) value then max_uint64 else current + value

unfoldable pub add_duration_metric : AggregateMetric → ℤ → AggregateMetric
add_duration_metric metric (negsuc n) = metric
add_duration_metric metric (pos n) = record {
  total = saturating_add metric.total n;
  observations = saturating_add metric.observations 1;
}

unfoldable pub add_token_metric : AggregateMetric → Option ℤ → AggregateMetric
add_token_metric metric none = metric
add_token_metric metric (some (negsuc n)) = metric
add_token_metric metric (some (pos n)) = record {
  total = saturating_add metric.total n;
  observations = saturating_add metric.observations 1;
}

-- both values are set and not negative, and the second is at most the first
abbrev pub paired : Option ℤ → Option ℤ → Option (ℕ × ℕ)
paired (some (pos n)) (some (pos m)) = if leb m n then some (n, m) else none
paired _ _ = none

unfoldable pub add_draft_metric : AggregateDraft → Option ℤ → Option ℤ → AggregateDraft
add_draft_metric metric drafted accepted = elim (paired drafted accepted) [
  | none ↦ metric
  | some (n, m) ↦ record {
    draft_tokens = saturating_add metric.draft_tokens n;
    accepted_tokens = saturating_add metric.accepted_tokens m;
    observations = saturating_add metric.observations 1;
  }
]

-- the `if` on `input` and `cached` in `addAggregate`
unfoldable pub add_cache_reuse : AggregateCacheReuse → Option ℤ → Option ℤ → AggregateCacheReuse
add_cache_reuse metric input cached = elim (paired input cached) [
  | none ↦ metric
  | some (n, m) ↦ record {
    input_tokens = saturating_add metric.input_tokens n;
    cached_tokens = saturating_add metric.cached_tokens m;
    observations = saturating_add metric.observations 1;
  }
]

unfoldable pub add_outcome : AggregateOutcomes → RequestOutcome → AggregateOutcomes
add_outcome o outcome_succeeded = record o { succeeded = saturating_add o.succeeded 1 }
add_outcome o outcome_rejected = record o { rejected = saturating_add o.rejected 1 }
add_outcome o outcome_canceled = record o { canceled = saturating_add o.canceled 1 }
add_outcome o outcome_queue_full = record o { queue_full = saturating_add o.queue_full 1 }
add_outcome o outcome_backend_start_failed = record o {
  backend_start_failed = saturating_add o.backend_start_failed 1;
}
add_outcome o outcome_upstream_error = record o {
  upstream_error = saturating_add o.upstream_error 1;
}
add_outcome o unnamed = record o { other = saturating_add o.other 1 }

module _ {F : Type 0} (floats : Floats F) where
  unfoldable pub saturating_add_float : F → F → F
  saturating_add_float current value =
      if floats.less (floats.minus floats.max_float64 current) value
      then floats.max_float64
      else floats.plus current value

  -- the timed tokens: all but the first if that is free
  abbrev pub timed : ℕ → Bool → ℕ
  timed n first_token_is_free = if first_token_is_free && ltb 0 n then n - 1 else n

  unfoldable pub add_throughput_metric :
      AggregateThroughput F → Option ℤ → Option F → Bool → AggregateThroughput F
  unfolding saturating_add_float
  add_throughput_metric metric (some (pos n)) (some milliseconds) first_token_is_free =
      if floats.refused milliseconds then metric else record {
        timed_tokens = saturating_add metric.timed_tokens (timed n first_token_is_free);
        milliseconds = saturating_add_float metric.milliseconds milliseconds;
        observations = saturating_add metric.observations 1;
      }
  add_throughput_metric metric _ _ first_token_is_free = metric

  unfoldable pub add_aggregate : RequestAggregate F → RequestRecord F → RequestAggregate F
  unfolding add_outcome add_token_metric add_duration_metric add_cache_reuse add_throughput_metric
      add_draft_metric
  add_aggregate a r = record {
    requests = saturating_add a.requests 1;
    outcomes = add_outcome a.outcomes r.outcome;
    tokens = record {
      input = add_token_metric a.tokens.input r.tokens.input;
      output = add_token_metric a.tokens.output r.tokens.output;
      cached = add_token_metric a.tokens.cached r.tokens.cached;
      reasoning = add_token_metric a.tokens.reasoning r.tokens.reasoning;
    };
    timing = record {
      gateway_wait = add_duration_metric a.timing.gateway_wait r.timing.gateway_wait_milliseconds;
      upstream = add_duration_metric a.timing.upstream r.timing.upstream_milliseconds;
      total = add_duration_metric a.timing.total r.timing.total_milliseconds;
      first_output = add_token_metric a.timing.first_output r.timing.first_output_milliseconds;
    };
    backend_timings = record {
      prompt_processing =
          add_throughput_metric a.backend_timings.prompt_processing r.backend_timings.prompt_tokens
            r.backend_timings.prompt_milliseconds false;
      token_generation =
          add_throughput_metric a.backend_timings.token_generation
            r.backend_timings.generated_tokens r.backend_timings.generated_milliseconds true;
      speculative_draft =
          add_draft_metric a.backend_timings.speculative_draft r.backend_timings.draft_tokens
            r.backend_timings.draft_accepted_tokens;
    };
    cache_reuse = add_cache_reuse a.cache_reuse r.tokens.input r.tokens.cached;
  }

  abbrev no_metric : AggregateMetric
  no_metric = record { total = 0; observations = 0 }

  abbrev no_throughput : AggregateThroughput F
  no_throughput = record { timed_tokens = 0; milliseconds = floats.nothing; observations = 0 }

  -- the zero value
  abbrev pub no_usage : RequestAggregate F
  no_usage = record {
    requests = 0;
    outcomes = record {
      succeeded = 0;
      rejected = 0;
      canceled = 0;
      queue_full = 0;
      backend_start_failed = 0;
      upstream_error = 0;
      other = 0;
    };
    tokens = record {
      input = no_metric;
      output = no_metric;
      cached = no_metric;
      reasoning = no_metric;
    };
    timing = record {
      gateway_wait = no_metric;
      upstream = no_metric;
      total = no_metric;
      first_output = no_metric;
    };
    backend_timings = record {
      prompt_processing = no_throughput;
      token_generation = no_throughput;
      speculative_draft = record { draft_tokens = 0; accepted_tokens = 0; observations = 0 };
    };
    cache_reuse = record { input_tokens = 0; cached_tokens = 0; observations = 0 };
  }
