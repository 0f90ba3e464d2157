-- ===== src/Statistics/Queue.antt =====
-- The queue of `Statistics`: `Record`, `Close` and the rounds of `writeLoop`, with what `writeBatch`
-- does to the counts. What the database answers is an argument.
use paracetamol.Base.{
  ℕ, ◌+◌, ◌-◌, ◌%◌, ◌^◌, Bool, true, false, List, [], ◌∷◌, ◌++◌, if◌then◌else◌, ltb, length,
}

-- `len(batch) < 128`
abbrev pub batch_limit : ℕ
batch_limit = 128

-- an atomic.Uint64
abbrev pub uint64 : ℕ → ℕ
uint64 n = n % 2 ^ 64

-- `a - b` of two of them
abbrev pub difference : ℕ → ℕ → ℕ
difference a b = uint64 (a + (2 ^ 64 - b))

-- Where `writeLoop` is: at its first `select`, in the loop that fills a batch, behind it, in
-- `writeBatch` with the count of dropped requests that was read, or returned.
pub data Writer : Type 0 where
  waiting filling leaving finished : Writer
  writing : ℕ → Writer

pub record StatisticsQueue (E : Type 0) : Type 0 where
  pub queue : List E
  pub closed : Bool
  pub batch : List E
  pub writer : Writer
  pub dropped : ℕ
  pub pending : ℕ
  pub failed : Bool
  pub persisted_dropped : ℕ

-- What `writeBatch` comes to: an error, nothing to do, or a commit, behind which the database holds
-- so many dropped requests.
pub data Written : Type 0 where
  write_failed nothing_to_write : Written
  committed : ℕ → Written

module _ {E : Type 0} where
  -- `newStatistics` behind a successful `open`, which sets `dropped` and `persistedDropped`
  abbrev pub new_statistics : ℕ → StatisticsQueue E
  new_statistics retained = record {
    queue = [];
    closed = false;
    batch = [];
    writer = waiting;
    dropped = retained;
    pending = 0;
    failed = false;
    persisted_dropped = retained;
  }

  -- the `select` of `Record` into a channel of `capacity` elements
  unfoldable pub enqueue : ℕ → StatisticsQueue E → E → StatisticsQueue E
  enqueue capacity s event =
      if ltb (length s.queue) capacity
      then record s { queue = s.queue ++ event ∷ [] }
      else record s {
        pending = uint64 (s.pending + (2 ^ 64 - 1));
        dropped = uint64 (s.dropped + 1);
      }

  -- `Record` of an event
  unfoldable pub record_event : ℕ → StatisticsQueue E → E → StatisticsQueue E
  unfolding enqueue
  record_event capacity s event =
      if s.closed then s else enqueue capacity (record s { pending = uint64 (s.pending + 1) }) event

  -- what `Close` does to the queue
  abbrev pub close : StatisticsQueue E → StatisticsQueue E
  close s = record s { closed = true }

  -- an event that `writeLoop` receives
  abbrev pub take_event : StatisticsQueue E → E → List E → StatisticsQueue E
  take_event s event rest = record s {
    batch = s.batch ++ event ∷ [];
    queue = rest;
    writer = filling;
  }

  -- what `writeBatch` does to the counts at its end, given the count `dropped` that it has read
  unfoldable pub write_batch : StatisticsQueue E → ℕ → Written → StatisticsQueue E
  write_batch s dropped write_failed = s
  write_batch s dropped nothing_to_write = s
  write_batch s dropped (committed retained) = record s {
    dropped = uint64 (s.dropped + difference retained dropped);
    persisted_dropped = retained;
  }

  -- the rest of a round of `writeLoop` behind `writeBatch`
  unfoldable pub settle_batch : StatisticsQueue E → Written → StatisticsQueue E
  settle_batch s write_failed = record s {
    dropped = uint64 (s.dropped + length s.batch);
    failed = true;
    pending = difference s.pending (length s.batch);
    batch = [];
    writer = waiting;
  }
  settle_batch s _ = record s {
    pending = difference s.pending (length s.batch);
    batch = [];
    writer = waiting;
  }

  -- a round of `writeLoop` from where `writeBatch` has read `dropped`
  unfoldable pub flush : StatisticsQueue E → ℕ → Written → StatisticsQueue E
  unfolding write_batch settle_batch
  flush s dropped result = settle_batch (write_batch s dropped result) result

  -- `finish`
  unfoldable pub finish_writer : StatisticsQueue E → Written → StatisticsQueue E
  unfolding write_batch
  finish_writer s write_failed = record s { failed = true; writer = finished }
  finish_writer s result = record (write_batch s s.dropped result) { writer = finished }
