-- ===== src/Statistics/Account.antt =====
-- The steps of `Statistics` and of those who call it, with an account of what becomes of each event.
use paracetamol.Base.{
  ℕ, suc, ◌+◌, ◌^◌, ◌≤◌, ◌<◌, true, false, List, [], ◌∷◌, ◌++◌, ◌≡◌, ◌⊎◌, length,
}
use paracetamol.Statistics.Queue.{
  StatisticsQueue, waiting, filling, leaving, writing, write_failed, nothing_to_write, committed,
  record_event, close, take_event, flush, finish_writer, batch_limit, difference,
}

-- What has become of the events: those that the queue took, those of the batches that ended, how
-- many of these were written and how many not, how many the queue did not take, and how many losses
-- the database was told of.
pub record Account (E : Type 0) : Type 0 where
  pub accepted : List E
  pub settled : List E
  pub written : ℕ
  pub failed_writes : ℕ
  pub overflowed : ℕ
  pub reported : ℕ

abbrev pub no_account : {E : Type 0} → Account E
no_account = record {
  accepted = [];
  settled = [];
  written = 0;
  failed_writes = 0;
  overflowed = 0;
  reported = 0;
}

module _ {E : Type 0} (capacity : ℕ) where
  -- A step of the callers of `Record` and `Close`, or of `writeLoop`. A batch that is empty is the
  -- only one for which there may be nothing to write.
  pub data Step : StatisticsQueue E → Account E → StatisticsQueue E → Account E → Type 0 where
    accepts :
        {s : StatisticsQueue E} {a : Account E} (event : E)
        → s.closed ≡ false
        → length s.queue < capacity
        → Step s a
            (record_event capacity s event)
            (record a { accepted = a.accepted ++ event ∷ [] })
    overflows :
        {s : StatisticsQueue E} {a : Account E} (event : E)
        → s.closed ≡ false
        → capacity ≤ length s.queue
        → Step s a (record_event capacity s event) (record a { overflowed = suc a.overflowed })
    ignores :
        {s : StatisticsQueue E} {a : Account E} (event : E)
        → s.closed ≡ true
        → Step s a (record_event capacity s event) a
    closes : {s : StatisticsQueue E} {a : Account E} → Step s a (close s) a
    ticks :
        {s : StatisticsQueue E} {a : Account E}
        → s.writer ≡ waiting
        → Step s a (record s { writer = filling }) a
    takes :
        {s : StatisticsQueue E} {a : Account E} (event : E) (rest : List E)
        → (s.writer ≡ waiting) ⊎ (s.writer ≡ filling)
        → length s.batch < batch_limit
        → s.queue ≡ event ∷ rest
        → Step s a (take_event s event rest) a
    leaves :
        {s : StatisticsQueue E} {a : Account E}
        → s.writer ≡ filling
        → (batch_limit ≤ length s.batch) ⊎ (s.queue ≡ [])
        → Step s a (record s { writer = leaving }) a
    reads :
        {s : StatisticsQueue E} {a : Account E}
        → s.writer ≡ leaving
        → Step s a (record s { writer = writing s.dropped }) a
    commits :
        {s : StatisticsQueue E} {a : Account E} (dropped retained : ℕ)
        → s.writer ≡ writing dropped
        → retained < 2 ^ 63
        → Step s a (flush s dropped (committed retained)) (record a {
          settled = a.settled ++ s.batch;
          written = a.written + length s.batch;
          reported = a.reported + difference dropped s.persisted_dropped;
        })
    skips :
        {s : StatisticsQueue E} {a : Account E} (dropped : ℕ)
        → s.writer ≡ leaving
        → s.batch ≡ []
        → Step s a (flush s dropped nothing_to_write) a
    fails :
        {s : StatisticsQueue E} {a : Account E} (dropped : ℕ)
        → (s.writer ≡ leaving) ⊎ (s.writer ≡ writing dropped)
        → Step s a (flush s dropped write_failed) (record a {
          settled = a.settled ++ s.batch;
          failed_writes = a.failed_writes + length s.batch;
        })
    finishes :
        {s : StatisticsQueue E} {a : Account E} (retained : ℕ)
        → s.writer ≡ waiting
        → s.closed ≡ true
        → s.queue ≡ []
        → retained < 2 ^ 63
        → Step s a
            (finish_writer s (committed retained))
            (record a { reported = a.reported + difference s.dropped s.persisted_dropped })
    fails_last :
        {s : StatisticsQueue E} {a : Account E}
        → s.writer ≡ waiting
        → s.closed ≡ true
        → s.queue ≡ []
        → Step s a (finish_writer s write_failed) a
