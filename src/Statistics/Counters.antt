-- ===== src/Statistics/Counters.antt =====
-- `StatisticsUsage` and `statisticsCounters`. The ratio of `StatisticsUsage`, which the counters do
-- not carry, is left out.
use paracetamol.Base.{ℕ, zero, suc, ◌-◌, ◌^◌, List, [], ◌∷◌, ltb, if◌then◌else◌}
use paracetamol.Ledger.Usage.{AggregateMetric, AggregateCacheReuse, saturating_add}

pub record StatisticsUsage : Type 0 where
  pub requests : ℕ
  pub succeeded : ℕ
  pub failed : ℕ
  pub canceled : ℕ
  pub input : AggregateMetric
  pub output : AggregateMetric
  pub cached : AggregateMetric
  pub reasoning : AggregateMetric
  pub cache_reuse : AggregateCacheReuse
  pub total_milliseconds : AggregateMetric
  pub first_output_milliseconds : AggregateMetric

-- an array of 19 numbers by their indices, zero beyond
abbrev pub StatisticsCounters : Type 0
StatisticsCounters = ℕ → ℕ

abbrev pub no_counters : StatisticsCounters
no_counters i = 0

abbrev pub element : List ℕ → StatisticsCounters
element [] i = 0
element (n ∷ ns) zero = n
element (n ∷ ns) (suc i) = element ns i

unfoldable pub usage_counters : StatisticsUsage → StatisticsCounters
usage_counters u = element (
    u.requests ∷ u.succeeded ∷ u.failed ∷ u.canceled ∷ u.input.total ∷ u.input.observations
    ∷ u.output.total ∷ u.output.observations ∷ u.cached.total ∷ u.cached.observations
    ∷ u.reasoning.total ∷ u.reasoning.observations ∷ u.total_milliseconds.total
    ∷ u.total_milliseconds.observations ∷ u.first_output_milliseconds.total
    ∷ u.first_output_milliseconds.observations ∷ u.cache_reuse.input_tokens
    ∷ u.cache_reuse.cached_tokens ∷ u.cache_reuse.observations ∷ [])

unfoldable pub usage_of_counters : StatisticsCounters → StatisticsUsage
usage_of_counters c = record {
  requests = c 0;
  succeeded = c 1;
  failed = c 2;
  canceled = c 3;
  input = record { total = c 4; observations = c 5 };
  output = record { total = c 6; observations = c 7 };
  cached = record { total = c 8; observations = c 9 };
  reasoning = record { total = c 10; observations = c 11 };
  total_milliseconds = record { total = c 12; observations = c 13 };
  first_output_milliseconds = record { total = c 14; observations = c 15 };
  cache_reuse = record { input_tokens = c 16; cached_tokens = c 17; observations = c 18 };
}

-- `add`
abbrev pub add_counters : StatisticsCounters → StatisticsCounters → StatisticsCounters
add_counters c other i = saturating_add (c i) (other i)

-- `statisticsInteger`
abbrev pub statistics_integer : ℕ → ℕ
statistics_integer value = if ltb value (2 ^ 63 - 1) then value else 2 ^ 63 - 1
