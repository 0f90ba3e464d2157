-- ===== src/Statistics/Stage.antt =====
-- The invariant of the counts of `Statistics`.
use paracetamol.Base.{
  ℕ, ◌+◌, ◌^◌, ◌≤◌, ◌<◌, Bool, true, false, List, [], ◌++◌, ◌≡◌, refl, arith, length, subst,
}
use paracetamol.Statistics.Queue.{
  StatisticsQueue, Writer, waiting, filling, leaving, writing, finished, batch_limit, uint64,
  difference,
}
use paracetamol.Statistics.Wrapping.{more_lost}
use paracetamol.Statistics.Account.{Account}

-- What holds at a place of `writeLoop`: a batch is in hand only within a round, what was read of the
-- dropped requests is some of those to be told, and the queue is empty at the end.
unfoldable pub Stage : {E : Type 0} → Writer → List E → List E → Bool → ℕ → ℕ → Type 0
Stage waiting batch queue closed dropped persisted = batch ≡ []
Stage filling batch queue closed dropped persisted = length batch ≤ batch_limit
Stage leaving batch queue closed dropped persisted = length batch ≤ batch_limit
Stage (writing read) batch queue closed dropped persisted =
    (read < 2 ^ 64) × (difference dropped read ≤ difference dropped persisted)
Stage finished batch queue closed dropped persisted = (batch ≡ []) × (queue ≡ []) × (closed ≡ true)

pub Stage-accepted :
    {E : Type 0} (w : Writer) (batch queue queue' : List E) (closed : Bool) (d p : ℕ)
    → closed ≡ false
    → Stage w batch queue closed d p
    → Stage w batch queue' closed d p
unfolding Stage
Stage-accepted waiting batch queue queue' closed d p e h = h
Stage-accepted filling batch queue queue' closed d p e h = h
Stage-accepted leaving batch queue queue' closed d p e h = h
Stage-accepted (writing read) batch queue queue' closed d p e h = h
Stage-accepted finished batch queue queue' closed d p e (b, q, c) = absurd (ground (arith, e, c))

pub Stage-overflowed :
    {E : Type 0} (w : Writer) (batch queue : List E) (closed : Bool) (d p : ℕ)
    → d < 2 ^ 64
    → p < 2 ^ 64
    → difference d p + 1 < 2 ^ 64
    → Stage w batch queue closed d p
    → Stage w batch queue closed (uint64 (d + 1)) p
unfolding Stage
Stage-overflowed waiting batch queue closed d p hd hp few h = h
Stage-overflowed filling batch queue closed d p hd hp few h = h
Stage-overflowed leaving batch queue closed d p hd hp few h = h
Stage-overflowed (writing read) batch queue closed d p hd hp few (small, below) =
    (small, omega (arith, more_lost d p 1 hd hp few, more_lost d read 1 hd small (omega arith)))
Stage-overflowed finished batch queue closed d p hd hp few h = h

pub Stage-closed :
    {E : Type 0} (w : Writer) (batch queue : List E) (closed : Bool) (d p : ℕ)
    → Stage w batch queue closed d p
    → Stage w batch queue true d p
unfolding Stage
Stage-closed waiting batch queue closed d p h = h
Stage-closed filling batch queue closed d p h = h
Stage-closed leaving batch queue closed d p h = h
Stage-closed (writing read) batch queue closed d p h = h
Stage-closed finished batch queue closed d p (b, q, c) = (b, q, refl)

pub idle :
    {E : Type 0} (s : StatisticsQueue E)
    → s.writer ≡ waiting
    → Stage s.writer s.batch s.queue s.closed s.dropped s.persisted_dropped
    → s.batch ≡ []
unfolding Stage
idle s at h = subst (λ w. Stage w s.batch s.queue s.closed s.dropped s.persisted_dropped) at h

-- The counts agree with the account.
pub record IsSound {E : Type 0} (capacity : ℕ) (s : StatisticsQueue E) (a : Account E)
    : Type 0 where
  pub pending : s.pending ≡ length s.batch + length s.queue
  pub queue_bounded : length s.queue ≤ capacity
  pub batch_bounded : length s.batch ≤ batch_limit
  pub in_order : a.settled ++ (s.batch ++ s.queue) ≡ a.accepted
  pub counted : a.written + a.failed_writes ≡ length a.settled
  pub losses :
      a.reported + difference s.dropped s.persisted_dropped ≡ a.overflowed + a.failed_writes
  pub dropped_small : s.dropped < 2 ^ 64
  pub persisted_small : s.persisted_dropped < 2 ^ 64
  pub stage : Stage s.writer s.batch s.queue s.closed s.dropped s.persisted_dropped
