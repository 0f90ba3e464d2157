-- ===== src/Server/Together.antt =====
-- A chat request beside others: the ledger that all requests share, and the request's own lease.
use paracetamol.Base.{
  Bool, true, false, not, none, List, [], ◌∷◌, ◌++◌, ◌≡◌, ◌⊎◌, refl, arith, Bool-cases,
  Option-cases, inl, inr, sym, ◌∙◌, leb, length,
}
use paracetamol.Text.{Text, codes, equal}
use paracetamol.Ledger.Maps.{
  equal_refl, equal→≡, lookup-remove_same, lookup-remove_absent, lookup-insert_other,
}
use paracetamol.Ledger.Usage.{Floats}
use paracetamol.Ledger.Store.{RequestLedger, lookup, add, track, untrack, active_request_limit}
use paracetamol.Ledger.Active.{Op, adds, tracks, untracks, perform}
use paracetamol.Server.Exchange.{Exchange, Requests, Effect}
use paracetamol.Server.Chat.{initial_record, chat_body, chat}

module _ {F : Type 0} where
  -- what the effects do to the ledger
  abbrev pub ledger_op : Effect F → List (Op F)
  ledger_op (Effect.tracks r phase) = tracks r phase ∷ []
  ledger_op (Effect.untracks id) = untracks id ∷ []
  ledger_op (Effect.adds r) = adds r ∷ []
  ledger_op _ = []

  unfoldable pub ledger_ops : List (Effect F) → List (Op F)
  ledger_ops [] = []
  ledger_ops (x ∷ xs) = ledger_op x ++ ledger_ops xs

  -- An interleaving of the operations of one request with those of the others, which track other
  -- identifiers.
  abbrev pub is_other : Text → Op F → Bool
  is_other id (tracks r phase) = not (equal r.id id)
  is_other id (adds r) = true
  is_other id (untracks other) = true

  pub data Interleaved (id : Text) : List (Op F) → List (Op F) → Type 0 where
    all_done : Interleaved id [] []
    own :
        {op : Op F} {mine all : List (Op F)}
        → Interleaved id mine all
        → Interleaved id (op ∷ mine) (op ∷ all)
    beside :
        {op : Op F} {mine all : List (Op F)}
        → is_other id op ≡ true
        → Interleaved id mine all
        → Interleaved id mine (op ∷ all)

  abbrev is_last : Text → Op F → Bool
  is_last id (tracks r phase) = false
  is_last id (adds r) = false
  is_last id (untracks other) = equal id other

  -- the last operation untracks the request
  unfoldable ends : Text → List (Op F) → Bool
  ends id [] = false
  ends id (op ∷ []) = is_last id op
  ends id (op ∷ next ∷ ops) = ends id (next ∷ ops)

  ends-append :
      (id : Text) (ops later : List (Op F)) → ends id later ≡ true → ends id (ops ++ later) ≡ true
  unfolding ends
  ends-append id [] later h = h
  ends-append id (op ∷ []) [] h = absurd (ground (arith, h))
  ends-append id (op ∷ []) (next ∷ later) h = h
  ends-append id (op ∷ next ∷ ops) later h = ends-append id (next ∷ ops) later h

  ends_untracked :
      (id : Text) (xs : List (Effect F))
      → ends id (ledger_ops (xs ++ Effect.untracks id ∷ [])) ≡ true
  unfolding ends ledger_ops
  ends_untracked id [] = equal_refl id
  ends_untracked id (x ∷ xs) =
      ends-append id (ledger_op x) (ledger_ops (xs ++ Effect.untracks id ∷ []))
        (ends_untracked id xs)

  chat-ends :
      (requests : Requests) (e : Exchange F) → ends e.id (ledger_ops (chat requests e)) ≡ true
  unfolding chat
  chat-ends requests e =
      ends_untracked e.id
        (Effect.tracks (initial_record e) (codes "receiving") ∷ chat_body requests e)

  module _ (floats : Floats F) where
    -- the ledger behind operations in the order in which they are done
    unfoldable pub perform_all : RequestLedger F → List (Op F) → RequestLedger F
    unfolding perform
    perform_all ledger [] = ledger
    perform_all ledger (op ∷ ops) = perform_all (perform floats ledger op) ops

    -- what another request does leaves an absent request absent
    other-absent :
        (id : Text) (op : Op F) (l : RequestLedger F)
        → is_other id op ≡ true
        → lookup id l.active ≡ none
        → lookup id (perform floats l op).active ≡ none
    unfolding perform add untrack track
    other-absent id (adds r) l h e = lookup-remove_absent id r.id l.active e
    other-absent id (untracks x) l h e = lookup-remove_absent id x l.active e
    other-absent id (tracks r phase) l h e = elim (Option-cases (lookup r.id l.active)) [
      | inr (old, found) ↦
          rw (found, track) (lookup-insert_other id r.id _ l.active (ground (arith, h)) ∙ e)
      | inl absent ↦ elim (Bool-cases (leb active_request_limit (length l.active))) [
        | inl full ↦ rw (absent, track) (rw full e)
        | inr room ↦
            rw (absent, track)
              (rw room (lookup-insert_other id r.id _ l.active (ground (arith, h)) ∙ e))
      ]
    ]

    Due : Text → List (Op F) → RequestLedger F → Type 0
    Due id mine l = (ends id mine ≡ true) ⊎ ((mine ≡ []) × (lookup id l.active ≡ none))

    own-Due :
        (id : Text) (op : Op F) (mine : List (Op F)) (l : RequestLedger F)
        → ends id (op ∷ mine) ≡ true
        → Due id mine (perform floats l op)
    unfolding Due ends perform untrack
    own-Due id op (next ∷ ops) l h = inl h
    own-Due id (tracks r phase) [] l h = absurd (ground (arith, h))
    own-Due id (adds r) [] l h = absurd (ground (arith, h))
    own-Due id (untracks x) [] l h =
        inr (refl, rw (sym (equal→≡ id x h)) (lookup-remove_same id l.active))

    beside-Due :
        (id : Text) (op : Op F) (mine : List (Op F)) (l : RequestLedger F)
        → is_other id op ≡ true
        → Due id mine l
        → Due id mine (perform floats l op)
    unfolding Due
    beside-Due id op mine l o (inl e) = inl e
    beside-Due id op mine l o (inr (e, p)) = inr (e, other-absent id op l o p)

    forgotten :
        (id : Text) {mine all : List (Op F)} (l : RequestLedger F)
        → Interleaved id mine all
        → Due id mine l
        → lookup id (perform_all l all).active ≡ none
    unfolding Due perform_all ends
    forgotten id l all_done (inl e) = absurd (ground (arith, e))
    forgotten id l all_done (inr (e, p)) = p
    forgotten id l (own {op} {mine} t) (inl e) =
        forgotten id (perform floats l op) t (own-Due id op mine l e)
    forgotten id l (own t) (inr (e, p)) = absurd (cc e)
    forgotten id l (beside {op} {mine} o t) h =
        forgotten id (perform floats l op) t (beside-Due id op mine l o h)

    -- However the operations of a chat request on the ledger are interleaved with those of other
    -- requests, and whatever the ledger was, the request is not among the active ones at the end.
    pub chat_forgotten :
        (requests : Requests) (e : Exchange F) (l : RequestLedger F) {all : List (Op F)}
        → Interleaved e.id (ledger_ops (chat requests e)) all
        → lookup e.id (perform_all l all).active ≡ none
    unfolding Due
    chat_forgotten requests e l t = forgotten e.id l t (inl (chat-ends requests e))
