-- ===== src/Lifecycle/Available.antt =====
-- `requireAvailable`, `removeOwned` and `waitReady` as steps of the lifecycle.
use paracetamol.Base.{
  ℕ, zero, suc, Bool, true, false, not, Option, List, [], ◌∷◌, ◌≡◌, refl, inl, inr, arith, ◌∙◌,
}
use paracetamol.Text.{Text, codes, equal}
use paracetamol.Scheduler.State.{Allocation}
use paracetamol.Podman.Machine.{
  probe, unexpected_labels, already_exists, name_occupied, managed_container_exists, exited_early,
  not_ready, Machine, Host, Action, fail, ◌>>=◌, ◌>>◌, fail_if,
}
use paracetamol.Podman.Client.{
  Formats, exists, container_labels, managed_container_names, remove_container,
}
use paracetamol.Podman.Holds.{returns, raises, After, bind-After, fail_if-After}
use paracetamol.Lifecycle.Container.{
  application_text, container_name, is_owned, is_up, target_seen, reclaim, require_available,
  remove_if_owned, remove_owned, reclaim_present, remove_present, next_round, require_present,
  wait_ready,
}
use paracetamol.Lifecycle.Careful.{is_free, is_ready, Kept}
use paracetamol.Lifecycle.Calls.{
  Keeps, call-After, guard-After, Present, exists_container, names_Keeps, Labelled, labels_After,
  Removed, remove_After,
}

module _ (host : Host) (formats : Formats) (n : ℕ) (f : Option Allocation) where
  target_seen-Keeps :
      (names : List Text) (seen : Bool) (m : Machine)
      → Kept formats n f m
      → Keeps host formats n f (target_seen names seen) m
  unfolding target_seen
  target_seen-Keeps [] seen m h = returns h
  target_seen-Keeps (name ∷ names) seen m h =
      guard-After host formats n f (not (equal name container_name)) managed_container_exists
        (target_seen names true) m (λ p. h) (λ p. target_seen-Keeps names true m h)

  absent_free :
      (b : Bool) (m : Machine)
      → not b ≡ true
      → Present host formats n f b m
      → is_free m.calls ≡ true
  unfolding Present
  absent_free true m e h = absurd (ground (arith, e))
  absent_free false m e (h, inl p) = absurd (ground (arith, p))
  absent_free false m e (h, inr p) = p

  present_Kept : (b : Bool) (m : Machine) → Present host formats n f b m → Kept formats n f m
  unfolding Present
  present_Kept b m h = h.0

  reclaim-After :
      (allowed : Bool) (labels : Text → Text) (m : Machine)
      → Labelled host formats n f labels m
      → After
          (Removed host formats n f)
          (λ e. Kept formats n f)
          (reclaim host formats allowed labels)
          m
  unfolding reclaim Labelled
  reclaim-After allowed labels m (h, e) =
      guard-After host formats n f (not (is_owned labels)) unexpected_labels
        (fail_if (not allowed) already_exists >> remove_container host container_name) m (λ p. h)
        (λ owned.
          guard-After host formats n f (not allowed) already_exists
            (remove_container host container_name) m (λ p. h)
            (λ p. remove_After host formats n f m (e ∙ ground (arith, owned)) h))

  remove_if_owned-After :
      (labels : Text → Text) (m : Machine)
      → Labelled host formats n f labels m
      → After
          (Removed host formats n f)
          (λ e. Kept formats n f)
          (remove_if_owned host formats labels)
          m
  unfolding remove_if_owned Labelled
  remove_if_owned-After labels m (h, e) =
      guard-After host formats n f (not (is_owned labels)) unexpected_labels
        (remove_container host container_name) m (λ p. h)
        (λ owned. remove_After host formats n f m (e ∙ ground (arith, owned)) h)

  remove_present-After :
      (b : Bool) (m : Machine)
      → Present host formats n f b m
      → After (Removed host formats n f) (λ e. Kept formats n f) (remove_present host formats b) m
  unfolding remove_present Removed
  remove_present-After false m p = returns (present_Kept false m p, absent_free false m refl p)
  remove_present-After true m p =
      bind-After {Q = Labelled host formats n f} (container_labels host formats container_name)
        (remove_if_owned host formats) m (labels_After host formats n f m (present_Kept true m p))
        remove_if_owned-After

  pub remove_owned-After :
      (m : Machine)
      → Kept formats n f m
      → After (Removed host formats n f) (λ e. Kept formats n f) (remove_owned host formats) m
  unfolding remove_owned
  remove_owned-After m h =
      bind-After {Q = Present host formats n f} (exists host (codes "container") container_name)
        (remove_present host formats) m (exists_container host formats n f m h) remove_present-After

  reclaim_present-After :
      (allowed seen b : Bool) (m : Machine)
      → Present host formats n f b m
      → After
          (Removed host formats n f)
          (λ e. Kept formats n f)
          (reclaim_present host formats allowed seen b)
          m
  unfolding reclaim_present Removed
  reclaim_present-After allowed seen false m p =
      returns (present_Kept false m p, absent_free false m refl p)
  reclaim_present-After allowed seen true m p =
      guard-After host formats n f (not seen) name_occupied
        (container_labels host formats container_name >>= reclaim host formats allowed) m
        (λ q. present_Kept true m p)
        (λ q.
          bind-After {Q = Labelled host formats n f} (container_labels host formats container_name)
            (reclaim host formats allowed) m
            (labels_After host formats n f m (present_Kept true m p)) (reclaim-After allowed))

  pub require_available-After :
      (allowed : Bool) (m : Machine)
      → Kept formats n f m
      → After
          (Removed host formats n f)
          (λ e. Kept formats n f)
          (require_available host formats allowed)
          m
  unfolding require_available
  require_available-After allowed m h =
      let look = λ (seen : Bool).
        exists host (codes "container") container_name
        >>= reclaim_present host formats allowed seen in
      bind-After {Q = λ names. Kept formats n f} (managed_container_names host application_text)
        (λ names. target_seen names false >>= look) m
        (names_Keeps host formats n f application_text m h)
        (λ names m1 h1.
          bind-After {Q = λ seen. Kept formats n f} (target_seen names false) look m1
            (target_seen-Keeps names false m1 h1)
            (λ seen m2 h2.
              bind-After {Q = Present host formats n f}
                (exists host (codes "container") container_name)
                (reclaim_present host formats allowed seen) m2
                (exists_container host formats n f m2 h2) (reclaim_present-After allowed seen)))

  unfoldable pub Ready : Unit {0} → Machine → Type 0
  Ready done m = Kept formats n f m × (is_ready m.calls ≡ true)

  require_present-Keeps :
      (m : Machine) → Kept formats n f m → Keeps host formats n f (require_present host formats) m
  unfolding require_present
  require_present-Keeps m h =
      bind-After {Q = Present host formats n f} (exists host (codes "container") container_name)
        (λ present. fail_if (not present) exited_early) m (exists_container host formats n f m h)
        (λ b m' p.
          fail_if-After (not b) exited_early m' (λ q. present_Kept b m' p)
            (λ q. present_Kept b m' p))

  next_round-After :
      (rest : Action (Unit {0})) (up : Bool) (m : Machine)
      → Kept formats n f m
      → (up ≡ true → is_ready m.calls ≡ true)
      → ((m' : Machine) → Kept formats n f m' → After Ready (λ e. Kept formats n f) rest m')
      → After Ready (λ e. Kept formats n f) (next_round host formats rest up) m
  unfolding Ready
  next_round-After rest true m h up k = returns (h, up refl)
  next_round-After rest false m h up k =
      bind-After {Q = λ done. Kept formats n f} (require_present host formats) (λ done. rest) m
        (require_present-Keeps m h) (λ done. k)

  pub wait_ready-After :
      (ticks : ℕ) (m : Machine)
      → Kept formats n f m
      → After Ready (λ e. Kept formats n f) (wait_ready host formats ticks) m
  unfolding wait_ready is_ready
  wait_ready-After zero m h =
      call-After host formats n f probe
        (λ reply. next_round host formats (fail not_ready) (is_up reply)) m refl h
        (λ reply h'.
          next_round-After (fail not_ready) (is_up reply) _ h' (λ up. up) (λ m' k. raises k))
  wait_ready-After (suc ticks) m h =
      call-After host formats n f probe
        (λ reply. next_round host formats (wait_ready host formats ticks) (is_up reply)) m refl h
        (λ reply h'.
          next_round-After (wait_ready host formats ticks) (is_up reply) _ h' (λ up. up)
            (wait_ready-After ticks))
