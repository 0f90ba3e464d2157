-- ===== src/Ledger/Lookup.antt =====
-- `Lookup` of internal/gateway/request_reports.go. The copies that it makes of slices share nothing,
-- and are the values themselves here.
use paracetamol.Base.{
  ℕ, zero, suc, ◌+◌, ◌%◌, ◌^◌, ◌≤◌, ◌<◌, true, false, not, ◌&&◌, Option, none, some, ◌≡◌, refl,
  Option-cases, arith, ◌==◌, if◌then◌else◌, Bool-cases, inl, inr, ap, sym, ◌∙◌, ==_refl, ==_iff,
}
use paracetamol.Text.{Text, equal}
use paracetamol.Ledger.Usage.{Floats, RequestRecord}
use paracetamol.Ledger.Store.{
  RequestLedger, RequestLedgerEntry, ActiveRequestReport, lookup, add, slot, recent_request_limit,
}
use paracetamol.Ledger.Maps.{equal_refl}

pub data RequestReport (F : Type 0) : Type 0 where
  completed : RequestRecord F → RequestReport F
  active : Text → ActiveRequestReport → RequestReport F

-- `entry.sequence != 0 && entry.record.ID == id`
abbrev pub matches : {F : Type 0} → Text → Option (RequestLedgerEntry F) → Option (RequestRecord F)
matches id none = none
matches id (some e) =
    if not (e.sequence == 0) && equal e.record_at.id id then some e.record_at else none

-- the loop over the entries, from `index` on
unfoldable pub scan_entries :
    {F : Type 0} → Text → (ℕ → Option (RequestLedgerEntry F)) → ℕ → ℕ → Option (RequestRecord F)
scan_entries id entries index zero = none
scan_entries id entries index (suc n) =
    let rest = scan_entries id entries (index + 1) n in
    elim (matches id (entries index)) [ none ↦ rest | some r ↦ some r ]

unfoldable pub lookup_report : {F : Type 0} → RequestLedger F → Text → Option (RequestReport F)
unfolding scan_entries lookup
lookup_report l id = elim (scan_entries id l.entries 0 recent_request_limit) [
  | some r ↦ some (completed r)
  | none ↦ elim (lookup id l.active) [ none ↦ none | some e ↦ some (active e.phase e.report) ]
]

module _ {F : Type 0} where
  -- a record with the identifier is found
  abbrev pub FoundRecord : Text → Option (RequestRecord F) → Type 0
  FoundRecord id o = (r : RequestRecord F) × (o ≡ some r) × (equal r.id id ≡ true)

  matches-FoundRecord :
      (id : Text) (e : Option (RequestLedgerEntry F)) (r : RequestRecord F)
      → matches id e ≡ some r
      → equal r.id id ≡ true
  matches-FoundRecord id none r h = cc
  matches-FoundRecord id (some e) r h =
      elim (Bool-cases (not (e.sequence == 0) && equal e.record_at.id id)) [
        | inl fits ↦
            let same : e.record_at ≡ r = ground (arith, h, fits) in
            ap (λ (x : RequestRecord F). equal x.id id) (sym same) ∙ ground (arith, fits)
        | inr unfit ↦ absurd (ground (arith, h, unfit))
      ]

  scan_entries-FoundRecord :
      (id : Text) (entries : ℕ → Option (RequestLedgerEntry F)) (index n k : ℕ)
      {r : RequestRecord F}
      → index ≤ k
      → k < index + n
      → matches id (entries k) ≡ some r
      → FoundRecord id (scan_entries id entries index n)
  unfolding scan_entries
  scan_entries-FoundRecord id entries index zero k l u h = absurd (omega arith)
  scan_entries-FoundRecord id entries index (suc n) k l u h =
      elim (Option-cases (matches id (entries index))) [
        | inr (q, here) ↦
            (q, rw (here, scan_entries) refl, matches-FoundRecord id (entries index) q here)
        | inl missing ↦ elim (Bool-cases (index == k)) [
          | inl same ↦
              let e = ap (λ i. matches id (entries i)) ((==_iff index k).0 same) in
              absurd (ground (arith, e, h, missing))
          | inr apart ↦
              let (q, found, fits) =
                scan_entries-FoundRecord id entries (index + 1) n k (ground (arith, apart, l))
                  (omega arith) h in
              (q, rw (missing, scan_entries) found, fits)
        ]
      ]

  matches-add :
      (floats : Floats F) (l : RequestLedger F) (r : RequestRecord F)
      → l.sequence < 2 ^ 63
      → matches r.id ((add floats l r).entries (slot ((l.sequence + 1) % 2 ^ 64))) ≡ some r
  unfolding add
  matches-add floats l r w =
      let s = (l.sequence + 1) % 2 ^ 64 in
      let positive : (s == 0) ≡ false = ground arith in
      rw (==_refl (slot s)) (rw positive (rw (equal_refl r.id) refl))

  -- While fewer than 2^63 records have been added, `Lookup` of the identifier of a record that was
  -- just added reports a completed request with that identifier.
  pub lookup_report-completed :
      (floats : Floats F) (l : RequestLedger F) (r : RequestRecord F)
      → l.sequence < 2 ^ 63
      → (q : RequestRecord F) × (lookup_report (add floats l r) r.id ≡ some (completed q))
        × (equal q.id r.id ≡ true)
  unfolding lookup_report
  lookup_report-completed floats l r w =
      let k = slot ((l.sequence + 1) % 2 ^ 64) in
      let low : k < 0 + recent_request_limit = omega arith in
      let (q, found, fits) =
        scan_entries-FoundRecord r.id (add floats l r).entries 0 recent_request_limit k
          (omega arith) low (matches-add floats l r w) in
      (q, rw (found, lookup_report) refl, fits)
