-- ===== src/Ledger/Store.antt =====
-- `requestLedger` of internal/gateway: the ring of completed records, the active requests, and the
-- usage by model and by session. The mutex makes each operation one step. A map is an association
-- list, newest key first, with each key once.
use paracetamol.Base.{
  ℕ, zero, suc, ◌-◌, ◌+◌, ◌^◌, ◌%◌, Bool, Option, none, some, List, [], ◌∷◌, ltb, leb, ◌==◌,
  if◌then◌else◌, length,
}
use paracetamol.Base.Int.{ℤ, pos, negsuc}
use paracetamol.Text.{Text, codes, equal, is_empty}
use paracetamol.Ledger.Usage.{
  Floats, RequestAggregate, RequestRecord, add_aggregate, no_usage, max_uint64,
}

abbrev pub recent_request_limit : ℕ
recent_request_limit = 64

abbrev pub recent_session_limit : ℕ
recent_session_limit = 64

abbrev pub active_request_limit : ℕ
active_request_limit = 128

pub record ModelAggregate (F : Type 0) : Type 0 where
  pub model : Text
  pub application : Text
  pub usage : RequestAggregate F

pub record SessionAggregate (F : Type 0) : Type 0 where
  pub id : Text
  pub first_request_at : Text
  pub last_request_at : Text
  pub usage : RequestAggregate F

pub record SessionLedgerEntry (F : Type 0) : Type 0 where
  pub summary : SessionAggregate F
  pub last_sequence : ℕ

pub record RequestLedgerEntry (F : Type 0) : Type 0 where
  pub sequence : ℕ
  pub record_at : RequestRecord F

pub record ActiveRequestReport : Type 0 where
  pub id : Text
  pub model : Text
  pub application : Text
  pub stream : Option Bool
  pub started_at : Text

pub record ActiveRequestEntry : Type 0 where
  pub phase : Text
  pub report : ActiveRequestReport

abbrev pub Assoc : Type 0 → Type 0
Assoc A = List (Text × A)

unfoldable pub lookup : {A : Type 0} → Text → Assoc A → Option A
lookup key [] = none
lookup key ((k, v) ∷ rest) = if equal k key then some v else lookup key rest

unfoldable pub remove_key : {A : Type 0} → Text → Assoc A → Assoc A
remove_key key [] = []
remove_key key ((k, v) ∷ rest) =
    let less = remove_key key rest in if equal k key then less else (k, v) ∷ less

unfoldable pub insert : {A : Type 0} → Text → A → Assoc A → Assoc A
unfolding remove_key
insert key v entries = (key, v) ∷ remove_key key entries

-- a slot of the ring that is still the zero value is `none`
pub record RequestLedger (F : Type 0) : Type 0 where
  pub sequence : ℕ
  pub entries : ℕ → Option (RequestLedgerEntry F)
  pub active : Assoc ActiveRequestEntry
  pub overall : RequestAggregate F
  pub models : Assoc (ModelAggregate F)
  pub sessions : Assoc (SessionLedgerEntry F)

-- `(sequence - 1) % RecentRequestLimit` on `uint64`
abbrev pub slot : ℕ → ℕ
slot sequence = ((sequence + max_uint64) % 2 ^ 64) % recent_request_limit

-- the session with the least `lastSequence`, and that number
unfoldable pub oldest : {F : Type 0} → Assoc (SessionLedgerEntry F) → Text × ℕ → Text × ℕ
oldest [] best = best
oldest ((k, s) ∷ rest) (id, least) =
    let next = oldest rest (k, s.last_sequence) in
    let same = oldest rest (id, least) in if ltb s.last_sequence least then next else same

-- makes room for a session that is new
unfoldable pub evict :
    {F : Type 0}
    → Option (SessionLedgerEntry F)
    → Assoc (SessionLedgerEntry F)
    → Assoc (SessionLedgerEntry F)
unfolding oldest remove_key
evict (some s) sessions = sessions
evict none sessions =
    if length sessions == recent_session_limit
    then remove_key (oldest sessions ([], max_uint64)).0 sessions
    else sessions

-- `a`, cut down to `b` if it is larger
abbrev pub least : ℕ → ℕ → ℕ
least a b = if ltb b a then b else a

module _ {F : Type 0} (floats : Floats F) where
  abbrev pub no_requests : RequestLedger F
  no_requests = record {
    sequence = 0;
    entries = λ i. none;
    active = [];
    overall = no_usage floats;
    models = [];
    sessions = [];
  }

  -- the value that an absent key has in `ledger.models`
  abbrev pub usage_of_model : Option (ModelAggregate F) → RequestAggregate F
  usage_of_model none = no_usage floats
  usage_of_model (some m) = m.usage

  unfoldable pub add_model : Assoc (ModelAggregate F) → RequestRecord F → Assoc (ModelAggregate F)
  unfolding lookup insert add_aggregate
  add_model models r =
      if is_empty r.model
      then models
      else insert r.model
          (record {
            model = r.model;
            application = r.application;
            usage = add_aggregate floats (usage_of_model (lookup r.model models)) r;
          })
          models

  -- the summary of the session before the record: a new one if there is none
  abbrev pub summary_of : RequestRecord F → Option (SessionLedgerEntry F) → SessionAggregate F
  summary_of r none = record {
    id = r.session_id;
    first_request_at = r.started_at;
    last_request_at = [];
    usage = no_usage floats;
  }
  summary_of r (some s) = s.summary

  unfoldable pub add_session :
      Assoc (SessionLedgerEntry F) → ℕ → RequestRecord F → Assoc (SessionLedgerEntry F)
  unfolding lookup evict insert add_aggregate
  add_session sessions sequence r =
      let found = lookup r.session_id sessions in
      let before = summary_of r found in
      if is_empty r.session_id
      then sessions
      else insert r.session_id
          (record {
            summary = record {
              id = before.id;
              first_request_at = before.first_request_at;
              last_request_at = r.finished_at;
              usage = add_aggregate floats before.usage r;
            };
            last_sequence = sequence;
          })
          (evict found sessions)

  -- `Add`, with `addUsage`
  unfoldable pub add : RequestLedger F → RequestRecord F → RequestLedger F
  unfolding add_aggregate add_model add_session remove_key
  add ledger r =
      let sequence = (ledger.sequence + 1) % 2 ^ 64 in
      record {
        sequence = sequence;
        entries = λ i.
            if i == slot sequence
            then some (record { sequence = sequence; record_at = r })
            else ledger.entries i;
        active = remove_key r.id ledger.active;
        overall = add_aggregate floats ledger.overall r;
        models = add_model ledger.models r;
        sessions = add_session ledger.sessions sequence r;
      }

  -- the loop of `recentLocked`, from `sequence` downwards
  unfoldable pub collect : (ℕ → Option (RequestLedgerEntry F)) → ℕ → ℕ → List (RequestRecord F)
  collect entries sequence zero = []
  collect entries sequence (suc n) =
      let rest = collect entries (sequence - 1) n in
      elim (entries (slot sequence)) [
        | none ↦ rest
        | some e ↦ if e.sequence == sequence then e.record_at ∷ rest else rest
      ]

  -- `Recent`; `none` is the panic of `make` when `int(ledger.sequence)` is negative
  unfoldable pub recent : RequestLedger F → ℤ → Option (List (RequestRecord F))
  unfolding collect
  recent ledger (negsuc n) = some []
  recent ledger (pos limit) =
      let available = least ledger.sequence recent_request_limit in
      if limit == 0
      then some []
      else if leb (2 ^ 63) ledger.sequence
      then none
      else some (
          collect ledger.entries ledger.sequence
            (least (least limit recent_request_limit) available))

  -- `Track`
  unfoldable pub track : RequestLedger F → RequestRecord F → Text → RequestLedger F
  unfolding lookup insert
  track ledger r phase =
      let entry : ActiveRequestEntry = record {
        phase = phase;
        report = record {
          id = r.id;
          model = r.model;
          application = r.application;
          stream = if equal phase (codes "receiving") then none else some r.stream;
          started_at = r.started_at;
        };
      } in
      elim (lookup r.id ledger.active) [
        | none ↦
            if leb active_request_limit (length ledger.active)
            then ledger
            else record ledger { active = insert r.id entry ledger.active }
        | some old ↦ record ledger { active = insert r.id entry ledger.active }
      ]

  -- `Untrack`
  unfoldable pub untrack : RequestLedger F → Text → RequestLedger F
  unfolding remove_key
  untrack ledger id = record ledger { active = remove_key id ledger.active }
