-- ===== src/Statistics/Tests.antt =====
-- A queue of one place, a request and some rows, and the theorems of the statistics applied to them.
use paracetamol.Base.{
  ℕ, ◌+◌, ◌-◌, ◌^◌, ◌<◌, true, false, none, some, List, [], ◌∷◌, ◌≡◌, refl, arith, inl, inr, ltb,
}
use paracetamol.Base.Int.{pos}
use paracetamol.Text.{Text, codes, equal}
use paracetamol.Ledger.Usage.{Floats, RequestRecord, outcome_succeeded}
use paracetamol.Ledger.Capped.{capped}
use paracetamol.Statistics.Queue.{
  StatisticsQueue, finished, record_event, enqueue, flush, write_batch, settle_batch, finish_writer,
}
use paracetamol.Statistics.Account.{
  Account, accepts, overflows, closes, takes, leaves, reads, commits, finishes,
}
use paracetamol.Statistics.Sound.{Reached, starts, continues, finished_settles}
use paracetamol.Statistics.Snapshot.{
  SnapshotRow, SnapshotTotals, no_totals, read_rows, sum_where, same_key, every_natural,
  all_natural,
}
use paracetamol.Statistics.Sums.{read_rows_sums}

-- one event is taken, one lost; the batch is written, and the database told of the loss
abbrev run : List ℕ
run = 5 ∷ 6 ∷ []

abbrev last : StatisticsQueue ℕ
last = record {
  queue = [];
  closed = true;
  batch = [];
  writer = finished;
  dropped = 1;
  pending = 0;
  failed = false;
  persisted_dropped = 1;
}

abbrev account : Account ℕ
account = record {
  accepted = 5 ∷ [];
  settled = 5 ∷ [];
  written = 1;
  failed_writes = 0;
  overflowed = 1;
  reported = 1;
}

small : 1 < 2 ^ 63
small = omega arith

reached : Reached 1 small 0 last account
unfolding record_event enqueue flush write_batch settle_batch finish_writer
reached =
    continues
      (continues
        (continues
          (continues
            (continues
              (continues
                (continues (continues starts (accepts 5 refl (omega arith)))
                  (overflows 6 refl (omega arith)))
                (takes 5 [] (inl refl) (omega arith) refl))
              (leaves refl (inr refl)))
            (reads refl))
          (commits 1 1 refl (omega arith)))
        closes)
      (finishes 1 refl refl refl (omega arith))

finished_settles_example : (account.settled ≡ account.accepted) × (last.pending ≡ 0)
finished_settles_example = finished_settles 1 small (omega arith) reached (omega arith) refl

abbrev row : Text → ℕ → SnapshotRow
row day n = record { day = day; model = codes "m"; application = codes "a"; numbers = λ i. pos n }

abbrev rows : List SnapshotRow
rows = row (codes "2026-01-01") 3 ∷ row (codes "2026-01-02") 4 ∷ []

read_rows_sums_example :
    (t : SnapshotTotals) × (read_rows no_totals rows ≡ some t)
    × (t.daily (codes "2026-01-01") 0
        ≡ capped (sum_where (λ row. equal (codes "2026-01-01") row.day) 0 rows))
    × (t.models (codes "m", codes "a") 0
        ≡ capped (
            sum_where (λ row. same_key (codes "m", codes "a") (row.model, row.application)) 0 rows))
    × (t.overall 0 ≡ capped (sum_where (λ row. true) 0 rows))
read_rows_sums_example =
    read_rows_sums rows (codes "2026-01-01") (codes "m") (codes "a") 0
      (unfold every_natural all_natural in refl)

abbrev whole : Floats ℕ
whole = record {
  nothing = 0;
  max_float64 = 1000000;
  refused = λ n. false;
  less = λ a b. ltb a b;
  minus = λ a b. a - b;
  plus = λ a b. a + b;
}

abbrev request : RequestRecord ℕ
request = record {
  id = codes "r1";
  session_id = [];
  model = codes "m";
  application = codes "a";
  peer = [];
  user_agent = [];
  stream = true;
  outcome = outcome_succeeded;
  http_status = pos 200;
  started_at = [];
  finished_at = codes "2026-01-01T00:00:00Z";
  timing = record {
    gateway_wait_milliseconds = pos 1;
    upstream_milliseconds = pos 2;
    total_milliseconds = pos 3;
    first_output_milliseconds = none;
  };
  tokens = record {
    input = some (pos 10);
    output = some (pos 4);
    cached = some (pos 12);
    reasoning = some (pos 2);
  };
  backend_timings = record {
    prompt_tokens = none;
    prompt_milliseconds = none;
    generated_tokens = none;
    generated_milliseconds = none;
    draft_tokens = none;
    draft_accepted_tokens = none;
    draft_verification_steps = none;
  };
}
