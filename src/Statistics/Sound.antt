-- ===== src/Statistics/Sound.antt =====
-- The counts of `Statistics` against the account of its events.
use paracetamol.Base.{
  ℕ, suc, ◌+◌, ◌-◌, ◌^◌, ◌≤◌, ◌<◌, true, [], ◌∷◌, ◌++◌, ◌≡◌, refl, arith, ltb, lt→ltb, length, ap,
  sym, subst, ◌∙◌,
}
use paracetamol.Statistics.Queue.{
  StatisticsQueue, filling, leaving, writing, finished, record_event, enqueue, flush, write_batch,
  settle_batch, finish_writer, new_statistics, uint64,
}
use paracetamol.Statistics.Wrapping.{same_difference}
use paracetamol.Statistics.Account.{
  Account, no_account, Step, accepts, overflows, ignores, closes, ticks, takes, leaves, reads,
  commits, skips, fails, finishes, fails_last,
}
use mathlib.Core.List.{append-nil}
use paracetamol.Statistics.Stage.{Stage, IsSound, Stage-closed, idle}
use paracetamol.Statistics.Batches.{
  if_true, if_false, accepted-IsSound, overflowed-IsSound, settled-IsSound, moved-IsSound,
  taken-IsSound, committed-IsSound, failed-IsSound, finished-IsSound,
}

module _ {E : Type 0} (capacity : ℕ) (small : capacity < 2 ^ 63) where
  step-IsSound :
      {s s' : StatisticsQueue E} {a a' : Account E}
      → Step capacity s a s' a'
      → a'.overflowed + a'.failed_writes < 2 ^ 64
      → IsSound capacity s a
      → IsSound capacity s' a'
  unfolding record_event enqueue flush write_batch settle_batch finish_writer Stage
  step-IsSound (accepts {s = s} {a = a} event still_open room) few h =
      let counted = uint64 (s.pending + 1) in
      let taken = record s { pending = counted; queue = s.queue ++ event ∷ [] } in
      let full = record s {
        pending = uint64 (counted + (2 ^ 64 - 1));
        dropped = uint64 (s.dropped + 1);
      } in
      subst (λ x. IsSound capacity x (record a { accepted = a.accepted ++ event ∷ [] }))
        (sym (
          if_false s.closed s _ still_open
          ∙ if_true (ltb (length s.queue) capacity) taken full
              (lt→ltb (length s.queue) capacity room)))
        (accepted-IsSound capacity small s a event still_open room h)
  step-IsSound (overflows {s = s} {a = a} event still_open room) few h =
      let counted = uint64 (s.pending + 1) in
      let taken = record s { pending = counted; queue = s.queue ++ event ∷ [] } in
      let full = record s {
        pending = uint64 (counted + (2 ^ 64 - 1));
        dropped = uint64 (s.dropped + 1);
      } in
      subst (λ x. IsSound capacity x (record a { overflowed = suc a.overflowed }))
        (sym (
          if_false s.closed s _ still_open
          ∙ if_false (ltb (length s.queue) capacity) taken full (ground (arith, room))))
        (overflowed-IsSound capacity small s a (omega (arith, few)) h)
  step-IsSound (ignores {s = s} {a = a} event e) few h =
      subst (λ x. IsSound capacity x a) (sym (if_true s.closed s _ e)) h
  step-IsSound (closes {s = s} {a = a}) few h =
      moved-IsSound capacity small s a s.batch s.queue true s.failed s.writer refl h.batch_bounded
        (omega arith) (Stage-closed s.writer s.batch s.queue s.closed _ _ h.stage) h
  step-IsSound (ticks {s = s} {a = a} at) few h =
      moved-IsSound capacity small s a s.batch s.queue s.closed s.failed filling refl
        h.batch_bounded (omega arith) h.batch_bounded h
  step-IsSound (takes {s = s} {a = a} event rest at room e) few h =
      taken-IsSound capacity small s a event rest room e h
  step-IsSound (leaves {s = s} {a = a} at e) few h =
      moved-IsSound capacity small s a s.batch s.queue s.closed s.failed leaving refl
        h.batch_bounded (omega arith) h.batch_bounded h
  step-IsSound (reads {s = s} {a = a} at) few h =
      moved-IsSound capacity small s a s.batch s.queue s.closed s.failed (writing s.dropped) refl
        h.batch_bounded (omega arith)
        (h.dropped_small, omega (arith, same_difference s.dropped h.dropped_small)) h
  step-IsSound (commits {s = s} {a = a} d r at b) few h =
      committed-IsSound capacity small s a d r at b h
  step-IsSound (skips {s = s} {a = a} d at e) few h =
      settled-IsSound capacity small s a a s.dropped s.persisted_dropped s.failed
        (sym (append-nil a.settled) ∙ ap (λ l. a.settled ++ l) (sym e)) refl
        (omega (arith, ap length e)) h.losses h.dropped_small h.persisted_small h
  step-IsSound (fails {s = s} {a = a} d at) few h = failed-IsSound capacity small s a d few h
  step-IsSound (finishes {s = s} {a = a} r at c e b) few h =
      finished-IsSound capacity small s a r (idle s at h.stage) e c b h
  step-IsSound (fails_last {s = s} {a = a} at c e) few h =
      moved-IsSound capacity small s a s.batch s.queue s.closed true finished refl h.batch_bounded
        (omega arith) (idle s at h.stage, e, c) h

  -- what is reached from a start at which the database holds `retained` dropped requests
  pub data Reached (retained : ℕ) : StatisticsQueue E → Account E → Type 0 where
    starts : Reached retained (new_statistics retained) no_account
    continues :
        {s s' : StatisticsQueue E} {a a' : Account E}
        → Reached retained s a
        → Step capacity s a s' a'
        → Reached retained s' a'

  lost_grows :
      {s s' : StatisticsQueue E} {a a' : Account E}
      → Step capacity s a s' a'
      → a.overflowed + a.failed_writes ≤ a'.overflowed + a'.failed_writes
  lost_grows (accepts event o r) = omega arith
  lost_grows (overflows event o r) = omega arith
  lost_grows (ignores event e) = omega arith
  lost_grows closes = omega arith
  lost_grows (ticks at) = omega arith
  lost_grows (takes event rest at room e) = omega arith
  lost_grows (leaves at e) = omega arith
  lost_grows (reads at) = omega arith
  lost_grows (commits d r at b) = omega arith
  lost_grows (skips d at e) = omega arith
  lost_grows (fails d at) = omega arith
  lost_grows (finishes r at c e b) = omega arith
  lost_grows (fails_last at c e) = omega arith

  pub Reached-IsSound :
      {retained : ℕ} {s : StatisticsQueue E} {a : Account E}
      → retained < 2 ^ 63
      → Reached retained s a
      → a.overflowed + a.failed_writes < 2 ^ 64
      → IsSound capacity s a
  unfolding Stage
  Reached-IsSound {retained = r} b starts few =
      let zero_left = same_difference r (omega arith) in
      record {
        pending = omega arith;
        queue_bounded = omega arith;
        batch_bounded = omega arith;
        in_order = refl;
        counted = omega arith;
        losses = omega (arith, zero_left);
        dropped_small = omega arith;
        persisted_small = omega arith;
        stage = refl;
      }
  Reached-IsSound b (continues before step) few =
      step-IsSound step few (Reached-IsSound b before (omega (arith, few, lost_grows step)))

  -- When `writeLoop` returns, every event that the queue took is written or lost with its batch, in
  -- the order in which they were taken, and none is pending.
  pub finished_settles :
      {retained : ℕ} {s : StatisticsQueue E} {a : Account E}
      → retained < 2 ^ 63
      → Reached retained s a
      → a.overflowed + a.failed_writes < 2 ^ 64
      → s.writer ≡ finished
      → (a.settled ≡ a.accepted) × (s.pending ≡ 0)
  unfolding Stage
  finished_settles {s = s} {a = a} b reached few at =
      let h = Reached-IsSound b reached few in
      let (batch, queue, shut) =
        subst (λ w. Stage w s.batch s.queue s.closed s.dropped s.persisted_dropped) at h.stage in
      (
        sym (append-nil a.settled)
            ∙ ap (λ l. a.settled ++ l) (sym (ap (λ l. l ++ s.queue) batch ∙ queue))
            ∙ h.in_order,
        h.pending ∙ omega (arith, ap length batch, ap length queue),
      )
