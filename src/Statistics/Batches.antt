-- ===== src/Statistics/Batches.antt =====
-- The counts of `Statistics` through the steps of an event and of a batch.
use paracetamol.Base.{
  ℕ, suc, ◌+◌, ◌-◌, ◌^◌, ◌≤◌, ◌<◌, Bool, true, false, List, [], ◌∷◌, ◌++◌, ◌≡◌, refl, arith,
  if◌then◌else◌, length, length-append, ap, sym, subst, ◌∙◌,
}
use paracetamol.Statistics.Queue.{
  StatisticsQueue, Writer, waiting, filling, writing, write_failed, committed, take_event, flush,
  write_batch, settle_batch, finish_writer, batch_limit, uint64, difference,
}
use paracetamol.Statistics.Wrapping.{
  add_one, add_back, take_away, more_lost, after_commit, told, same_difference,
}
use paracetamol.Statistics.Account.{Account}
use mathlib.Core.List.{append_assoc}
use paracetamol.Statistics.Stage.{Stage, IsSound, Stage-accepted, Stage-overflowed}

pub if_true {ℓ} : {A : Type ℓ} (b : Bool) (x y : A) → b ≡ true → (if b then x else y) ≡ x
if_true b x y e = ap (λ c. if c then x else y) e

pub if_false {ℓ} : {A : Type ℓ} (b : Bool) (x y : A) → b ≡ false → (if b then x else y) ≡ y
if_false b x y e = ap (λ c. if c then x else y) e

module _ {E : Type 0} (capacity : ℕ) (small : capacity < 2 ^ 63) where
  pub accepted-IsSound :
      (s : StatisticsQueue E) (a : Account E) (event : E)
      → s.closed ≡ false
      → length s.queue < capacity
      → IsSound capacity s a
      → IsSound capacity
          (record s { pending = uint64 (s.pending + 1); queue = s.queue ++ event ∷ [] })
          (record a { accepted = a.accepted ++ event ∷ [] })
  accepted-IsSound s a event still_open room h =
      let longer = length-append s.queue (event ∷ []) in
      record {
        pending =
            add_one s.pending (omega (arith, h.pending, h.queue_bounded, h.batch_bounded, small))
            ∙ omega (arith, h.pending, longer);
        queue_bounded = omega (arith, longer);
        batch_bounded = h.batch_bounded;
        in_order =
            ap (λ l. a.settled ++ l) (sym (append_assoc s.batch s.queue (event ∷ [])))
            ∙ sym (append_assoc a.settled (s.batch ++ s.queue) (event ∷ []))
            ∙ ap (λ l. l ++ event ∷ []) h.in_order;
        counted = h.counted;
        losses = h.losses;
        dropped_small = h.dropped_small;
        persisted_small = h.persisted_small;
        stage = Stage-accepted s.writer s.batch s.queue _ s.closed _ _ still_open h.stage;
      }

  pub overflowed-IsSound :
      (s : StatisticsQueue E) (a : Account E)
      → suc (a.overflowed + a.failed_writes) < 2 ^ 64
      → IsSound capacity s a
      → IsSound capacity
          (record s {
            pending = uint64 (uint64 (s.pending + 1) + (2 ^ 64 - 1));
            dropped = uint64 (s.dropped + 1);
          })
          (record a { overflowed = suc a.overflowed })
  overflowed-IsSound s a few h =
      let d = s.dropped in
      let p = s.persisted_dropped in
      let room : difference d p + 1 < 2 ^ 64 = omega (arith, h.losses, few) in
      record {
        pending =
            add_back s.pending (omega (arith, h.pending, h.queue_bounded, h.batch_bounded, small))
            ∙ h.pending;
        queue_bounded = h.queue_bounded;
        batch_bounded = h.batch_bounded;
        in_order = h.in_order;
        counted = h.counted;
        losses = omega (arith, h.losses, more_lost d p 1 h.dropped_small h.persisted_small room);
        dropped_small = omega arith;
        persisted_small = h.persisted_small;
        stage =
            Stage-overflowed s.writer s.batch s.queue s.closed d p h.dropped_small h.persisted_small
              room h.stage;
      }

  -- a batch ends, with the counts that `write_batch` leaves
  pub settled-IsSound :
      (s : StatisticsQueue E) (a a' : Account E) (d p : ℕ) (failed : Bool)
      → a'.settled ≡ a.settled ++ s.batch
      → a'.accepted ≡ a.accepted
      → a'.written + a'.failed_writes ≡ a.written + a.failed_writes + length s.batch
      → a'.reported + difference d p ≡ a'.overflowed + a'.failed_writes
      → d < 2 ^ 64
      → p < 2 ^ 64
      → IsSound capacity s a
      → IsSound capacity
          (record {
            queue = s.queue;
            closed = s.closed;
            batch = [];
            writer = waiting;
            dropped = d;
            pending = difference s.pending (length s.batch);
            failed = failed;
            persisted_dropped = p;
          })
          a'
  unfolding Stage
  settled-IsSound s a a' d p failed settled accepted counted losses hd hp h =
      let longer = length-append a.settled s.batch in
      record {
        pending =
            take_away s.pending (length s.batch) (length s.queue) h.pending
              (omega (arith, h.pending, h.queue_bounded, h.batch_bounded, small))
            ∙ omega arith;
        queue_bounded = h.queue_bounded;
        batch_bounded = omega arith;
        in_order =
            ap (λ l. l ++ s.queue) settled
            ∙ append_assoc a.settled s.batch s.queue
            ∙ h.in_order
            ∙ sym accepted;
        counted = counted ∙ omega (arith, h.counted, longer) ∙ ap length (sym settled);
        losses = losses;
        dropped_small = hd;
        persisted_small = hp;
        stage = refl;
      }

  -- events move from the queue to the batch, and the writer to another place
  pub moved-IsSound :
      (s : StatisticsQueue E) (a : Account E) (batch queue : List E) (closed failed : Bool)
      (w : Writer)
      → batch ++ queue ≡ s.batch ++ s.queue
      → length batch ≤ batch_limit
      → length queue ≤ length s.queue
      → Stage w batch queue closed s.dropped s.persisted_dropped
      → IsSound capacity s a
      → IsSound capacity
          (record s { batch = batch; queue = queue; closed = closed; failed = failed; writer = w })
          a
  moved-IsSound s a batch queue closed failed w same few shorter stage h = record {
    pending =
        h.pending
        ∙ omega (arith, ap length same, length-append batch queue, length-append s.batch s.queue);
    queue_bounded = omega (arith, h.queue_bounded);
    batch_bounded = few;
    in_order = ap (λ l. a.settled ++ l) same ∙ h.in_order;
    counted = h.counted;
    losses = h.losses;
    dropped_small = h.dropped_small;
    persisted_small = h.persisted_small;
    stage = stage;
  }

  pub taken-IsSound :
      (s : StatisticsQueue E) (a : Account E) (event : E) (rest : List E)
      → length s.batch < batch_limit
      → s.queue ≡ event ∷ rest
      → IsSound capacity s a
      → IsSound capacity (take_event s event rest) a
  unfolding Stage
  taken-IsSound s a event rest room e h =
      let longer = length-append s.batch (event ∷ []) in
      moved-IsSound s a (s.batch ++ event ∷ []) rest s.closed s.failed filling
        (append_assoc s.batch (event ∷ []) rest ∙ ap (λ q. s.batch ++ q) (sym e))
        (omega (arith, longer)) (omega (arith, ap length e)) (omega (arith, longer)) h

  pub committed-IsSound :
      (s : StatisticsQueue E) (a : Account E) (d r : ℕ)
      → s.writer ≡ writing d
      → r < 2 ^ 63
      → IsSound capacity s a
      → IsSound capacity (flush s d (committed r)) (record a {
        settled = a.settled ++ s.batch;
        written = a.written + length s.batch;
        reported = a.reported + difference d s.persisted_dropped;
      })
  unfolding flush write_batch settle_batch Stage
  committed-IsSound s a d r at b h =
      let p = s.persisted_dropped in
      let (low, below) = subst (λ w. Stage w s.batch s.queue s.closed s.dropped p) at h.stage in
      settled-IsSound s a _ (uint64 (s.dropped + difference r d)) r s.failed refl refl (omega arith)
        (omega (
          arith,
          h.losses,
          after_commit s.dropped d r h.dropped_small low (omega arith),
          told s.dropped d p h.dropped_small low h.persisted_small below,
        ))
        (omega arith) (omega arith) h

  pub failed-IsSound :
      (s : StatisticsQueue E) (a : Account E) (d : ℕ)
      → a.overflowed + (a.failed_writes + length s.batch) < 2 ^ 64
      → IsSound capacity s a
      → IsSound capacity (flush s d write_failed) (record a {
        settled = a.settled ++ s.batch;
        failed_writes = a.failed_writes + length s.batch;
      })
  unfolding flush write_batch settle_batch
  failed-IsSound s a d few h =
      let p = s.persisted_dropped in
      let more =
        more_lost s.dropped p (length s.batch) h.dropped_small h.persisted_small
          (omega (arith, h.losses, few)) in
      settled-IsSound s a _ (uint64 (s.dropped + length s.batch)) p true refl refl (omega arith)
        (omega (arith, h.losses, more)) (omega arith) h.persisted_small h

  pub finished-IsSound :
      (s : StatisticsQueue E) (a : Account E) (r : ℕ)
      → s.batch ≡ []
      → s.queue ≡ []
      → s.closed ≡ true
      → r < 2 ^ 63
      → IsSound capacity s a
      → IsSound capacity
          (finish_writer s (committed r))
          (record a { reported = a.reported + difference s.dropped s.persisted_dropped })
  unfolding finish_writer write_batch Stage
  finished-IsSound s a r empty no_more shut b h =
      let d = s.dropped in
      let left : difference (uint64 (d + difference r d)) r ≡ 0 =
        after_commit d d r h.dropped_small h.dropped_small (omega arith)
        ∙ same_difference d h.dropped_small in
      record {
        pending = h.pending;
        queue_bounded = h.queue_bounded;
        batch_bounded = h.batch_bounded;
        in_order = h.in_order;
        counted = h.counted;
        losses = omega (arith, h.losses, left);
        dropped_small = omega arith;
        persisted_small = omega arith;
        stage = (empty, no_more, shut);
      }
