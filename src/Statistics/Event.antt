-- ===== src/Statistics/Event.antt =====
-- `statisticsEventFromRecord`: what of a request's record enters the statistics.
use paracetamol.Base.{
  ℕ, ◌+◌, ◌≤◌, ◌||◌, Option, none, some, [], ◌≡◌, refl, ◌⊎◌, arith, ltb, if◌then◌else◌, length,
  Bool-cases, inl, inr,
}
use paracetamol.Base.Int.{ℤ, pos, negsuc, ltb_ℤ}
use paracetamol.Text.{Text, contains}
use paracetamol.Ledger.Usage.{
  Floats, RequestRecord, RequestOutcome, outcome_succeeded, outcome_rejected, outcome_canceled,
  outcome_queue_full, outcome_backend_start_failed, outcome_upstream_error, unnamed, add_aggregate,
  no_usage, add_token_metric, saturating_add, AggregateMetric,
}
use paracetamol.Statistics.Counters.{
  StatisticsUsage, StatisticsCounters, usage_counters, usage_of_counters,
}

pub record StatisticsEvent : Type 0 where
  pub day : Text
  pub model : Text
  pub application : Text
  pub counters : StatisticsCounters

unfoldable pub statistics_identity : Text → Text
unfolding contains
statistics_identity value =
    if ltb 512 (length value) || contains 0 value || contains b'\r' value || contains b'\n' value
    then []
    else value

-- a count of a part, unless it exceeds that of the whole
abbrev pub part_of : Option ℤ → Option ℤ → Option ℤ
part_of none whole = none
part_of (some part) none = some part
part_of (some part) (some whole) = if ltb_ℤ whole part then none else some part

-- `Succeeded`, `Failed` and `Canceled` of one request
abbrev pub outcome_counts : RequestOutcome → ℕ × ℕ × ℕ
outcome_counts outcome_succeeded = (1, 0, 0)
outcome_counts outcome_canceled = (0, 0, 1)
outcome_counts _ = (0, 1, 0)

-- nothing is counted of the part, or of the whole, or no more of the part
abbrev pub PartOf : AggregateMetric → AggregateMetric → Type 0
PartOf part whole = (part.observations ≡ 0) ⊎ (whole.observations ≡ 0) ⊎ (part.total ≤ whole.total)

abbrev no_metric : AggregateMetric
no_metric = record { total = 0; observations = 0 }

saturating_monotone : (m n : ℕ) → m ≤ n → saturating_add 0 m ≤ saturating_add 0 n
unfolding saturating_add
saturating_monotone m n h = ground (arith, h)

part_of-PartOf :
    (part whole : Option ℤ)
    → PartOf (add_token_metric no_metric (part_of part whole)) (add_token_metric no_metric whole)
unfolding add_token_metric
part_of-PartOf none whole = inl refl
part_of-PartOf (some part) none = inr (inl refl)
part_of-PartOf (some part) (some (negsuc n)) = inr (inl refl)
part_of-PartOf (some (negsuc m)) (some (pos n)) = elim (Bool-cases (ltb_ℤ (pos n) (negsuc m))) [
  | inl more ↦ rw more (inl refl)
  | inr fewer ↦ rw fewer (inl refl)
]
part_of-PartOf (some (pos m)) (some (pos n)) = elim (Bool-cases (ltb_ℤ (pos n) (pos m))) [
  | inl more ↦ rw more (inl refl)
  | inr fewer ↦ rw fewer (inr (inr (saturating_monotone m n (ground (arith, fewer)))))
]

outcomes_one :
    (o : RequestOutcome) → (outcome_counts o).0 + (outcome_counts o).1 + (outcome_counts o).2 ≡ 1
outcomes_one outcome_succeeded = refl
outcomes_one outcome_rejected = refl
outcomes_one outcome_canceled = refl
outcomes_one outcome_queue_full = refl
outcomes_one outcome_backend_start_failed = refl
outcomes_one outcome_upstream_error = refl
outcomes_one unnamed = refl

module _ {F : Type 0} (floats : Floats F) where
  -- the counts of one record
  unfoldable pub event_usage : RequestRecord F → StatisticsUsage
  unfolding add_aggregate
  event_usage r =
      let a = add_aggregate floats (no_usage floats) (record r {
        tokens = record r.tokens {
          cached = part_of r.tokens.cached r.tokens.input;
          reasoning = part_of r.tokens.reasoning r.tokens.output;
        };
      }) in
      let (succeeded, failed, canceled) = outcome_counts r.outcome in
      record {
        requests = 1;
        succeeded = succeeded;
        failed = failed;
        canceled = canceled;
        input = a.tokens.input;
        output = a.tokens.output;
        cached = a.tokens.cached;
        reasoning = a.tokens.reasoning;
        cache_reuse = a.cache_reuse;
        total_milliseconds = a.timing.total;
        first_output_milliseconds = a.timing.first_output;
      }

  -- `statisticsEventFromRecord`, where `day_of` is the day of a time in text, if it is one, and
  -- `today` the day of `now`
  unfoldable pub statistics_event_from_record :
      (Text → Option Text) → RequestRecord F → Text → StatisticsEvent
  unfolding event_usage usage_counters statistics_identity
  statistics_event_from_record day_of r today = record {
    day = elim (day_of r.finished_at) [ none ↦ today | some day ↦ day ];
    model = statistics_identity r.model;
    application = statistics_identity r.application;
    counters = usage_counters (event_usage r);
  }

  -- An event counts one request, with one outcome. Of the tokens of its input that were cached it
  -- counts no more than of its input, where it counts both, and so of its output that was reasoning.
  event_counts :
      (day_of : Text → Option Text) (r : RequestRecord F) (today : Text)
      → let u = usage_of_counters (statistics_event_from_record day_of r today).counters in
        (u.requests ≡ 1)
        × (u.succeeded + u.failed + u.canceled ≡ 1)
        × PartOf u.cached u.input
        × PartOf u.reasoning u.output
  unfolding statistics_event_from_record event_usage usage_counters usage_of_counters add_aggregate
  event_counts day_of r today = (
    refl,
    outcomes_one r.outcome,
    part_of-PartOf r.tokens.cached r.tokens.input,
    part_of-PartOf r.tokens.reasoning r.tokens.output,
  )
