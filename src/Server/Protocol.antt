-- ===== src/Server/Protocol.antt =====
-- The order in which a chat request uses the ledger, the scheduler and the statistics.
use paracetamol.Base.{
  Bool, true, false, not, ◌&&◌, ◌||◌, List, [], ◌∷◌, ◌++◌, ◌≡◌, refl, if◌then◌else◌, ap, ◌∙◌,
}
use paracetamol.Text.{Text, codes, equal}
use paracetamol.Ledger.Usage.{RequestRecord}
use paracetamol.Server.Exchange.{
  Effect, tracks, untracks, adds, persists, responds, acquires, fails, releases, aborts, proxies,
}

-- Where a request is. `accounted` is behind its one record: whether it holds a lease, whether its
-- record was given to the statistics, and whether the handler has panicked. `misused` is behind
-- everything that the protocol has no place for.
pub data Phase : Type 0 where
  absent receiving answered waiting leased upstream serving closed misused : Phase
  accounted : Bool → Bool → Bool → Phase

module _ {F : Type 0} (id : Text) where
  abbrev mine : RequestRecord F → Phase → Phase
  mine r phase = if equal r.id id then phase else misused

  abbrev tracked : RequestRecord F → Text → Text → Phase → Phase
  tracked r name expected phase = if equal name expected then mine r phase else misused

  abbrev step_accounted : Bool → Bool → Bool → Effect F → Phase
  step_accounted held stored aborted (persists r) =
      if stored || aborted then misused else mine r (accounted held true false)
  step_accounted held stored aborted aborts =
      if held && not aborted then accounted held stored true else misused
  step_accounted held stored aborted releases =
      if held then accounted false stored aborted else misused
  step_accounted held stored aborted (untracks name) =
      if not held && equal name id then closed else misused
  step_accounted held stored aborted _ = misused

  -- A request is first tracked as received. It can be answered with an error, and wait for a lease
  -- and get one; only then it is tracked at the backend, which serves it once, may be reported as
  -- failed and answered for. Then one record is added, at most one is given to the statistics, and the
  -- handler may panic if it holds a lease. It is untracked at the very end, without a lease.
  unfoldable pub step : Phase → Effect F → Phase
  unfolding equal
  step absent (tracks r name) = tracked r name (codes "receiving") receiving
  step receiving (tracks r name) = tracked r name (codes "waiting") waiting
  step receiving (responds status code) = answered
  step waiting (responds status code) = answered
  step waiting (acquires a) = leased
  step leased (tracks r name) = tracked r name (codes "upstream") upstream
  step upstream (proxies body) = serving
  step serving fails = serving
  step serving (responds status code) = serving
  step receiving (adds r) = mine r (accounted false false false)
  step answered (adds r) = mine r (accounted false false false)
  step waiting (adds r) = mine r (accounted false false false)
  step serving (adds r) = mine r (accounted true false false)
  step (accounted held stored aborted) effect = step_accounted held stored aborted effect
  step _ _ = misused

  unfoldable pub follow : Phase → List (Effect F) → Phase
  unfolding step
  follow phase [] = phase
  follow phase (effect ∷ effects) = follow (step phase effect) effects

  pub follow-append :
      (phase : Phase) (xs ys : List (Effect F))
      → follow phase (xs ++ ys) ≡ follow (follow phase xs) ys
  unfolding follow
  follow-append phase [] ys = refl
  follow-append phase (x ∷ xs) ys = follow-append (step phase x) xs ys

  pub follow_then :
      (phase : Phase) (xs ys : List (Effect F)) {between last : Phase}
      → follow phase xs ≡ between
      → follow between ys ≡ last
      → follow phase (xs ++ ys) ≡ last
  follow_then phase xs ys e k = follow-append phase xs ys ∙ (ap (λ p. follow p ys) e ∙ k)
