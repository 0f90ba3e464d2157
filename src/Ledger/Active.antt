-- ===== src/Ledger/Active.antt =====
-- The active requests of internal/gateway/request_reports.go under any sequence of the ledger's
-- operations.
use paracetamol.Base.{
  ◌≤◌, false, List, [], ◌∷◌, ◌≡◌, refl, arith, leb, length, Bool-cases, Option-cases, inl, inr,
}
use paracetamol.Text.{Text, equal}
use paracetamol.Ledger.Usage.{Floats, RequestRecord}
use paracetamol.Ledger.Store.{
  RequestLedger, lookup, insert, no_requests, add, track, untrack, active_request_limit,
}
use paracetamol.Ledger.Maps.{length-remove_key, length-remove_found, lookup-insert_other}

pub data Op (F : Type 0) : Type 0 where
  adds : RequestRecord F → Op F
  tracks : RequestRecord F → Text → Op F
  untracks : Text → Op F

module _ {F : Type 0} (floats : Floats F) where
  unfoldable pub perform : RequestLedger F → Op F → RequestLedger F
  unfolding add track untrack
  perform l (adds r) = add floats l r
  perform l (tracks r phase) = track floats l r phase
  perform l (untracks id) = untrack floats l id

  -- the ledger behind operations, the last of which stands first
  unfoldable pub behind : List (Op F) → RequestLedger F
  unfolding perform
  behind [] = no_requests floats
  behind (op ∷ before) = perform (behind before) op

  track-few :
      (l : RequestLedger F) (r : RequestRecord F) (phase : Text)
      → length l.active ≤ active_request_limit
      → length (track floats l r phase).active ≤ active_request_limit
  unfolding track insert
  track-few l r phase few = elim (Option-cases (lookup r.id l.active)) [
    | inr (old, found) ↦
        rw (found, track) (omega (arith, length-remove_found r.id l.active (rw found refl)))
    | inl absent ↦ rw (absent, track) (ground (arith, few, length-remove_key r.id l.active))
  ]

  -- At most 128 requests are active behind any operations.
  pub active_bounded : (ops : List (Op F)) → length (behind ops).active ≤ active_request_limit
  unfolding behind perform add untrack
  active_bounded [] = omega arith
  active_bounded (adds r ∷ before) =
      omega (arith, active_bounded before, length-remove_key r.id (behind before).active)
  active_bounded (tracks r phase ∷ before) =
      track-few (behind before) r phase (active_bounded before)
  active_bounded (untracks id ∷ before) =
      omega (arith, active_bounded before, length-remove_key id (behind before).active)

  -- `Track` changes nothing but what is kept of the request itself: no other active request is
  -- dropped or changed, also when the limit is reached, and no record and no usage.
  track_others :
      (l : RequestLedger F) (r : RequestRecord F) (phase id : Text)
      → equal r.id id ≡ false
      → (lookup id (track floats l r phase).active ≡ lookup id l.active)
        × ((track floats l r phase).entries ≡ l.entries)
        × ((track floats l r phase).overall ≡ l.overall)
        × ((track floats l r phase).sessions ≡ l.sessions)
        × ((track floats l r phase).models ≡ l.models)
  unfolding track
  track_others l r phase id other = elim (Option-cases (lookup r.id l.active)) [
    | inr (old, found) ↦
        rw (found, track) (lookup-insert_other id r.id _ l.active other, refl, refl, refl, refl)
    | inl absent ↦ elim (Bool-cases (leb active_request_limit (length l.active))) [
      | inl full ↦ rw (absent, track) (rw full (refl, refl, refl, refl, refl))
      | inr room ↦
          rw (absent, track)
            (rw room (lookup-insert_other id r.id _ l.active other, refl, refl, refl, refl))
    ]
  ]
