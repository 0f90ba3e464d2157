-- ===== src/Server/Report.antt =====
-- `requestReport` of internal/gateway/request_reports.go.
use paracetamol.Base.{
  ℕ, ◌<◌, ◌^◌, Bool, true, false, not, ◌||◌, Option, none, some, [], ◌∷◌, ◌++◌, ◌≡◌, refl,
  if◌then◌else◌, length, ap, ◌∙◌, ==_refl,
}
use paracetamol.Text.{Text, codes, equal, has_prefix, drop}
use paracetamol.Ledger.Store.{RequestLedger}
use paracetamol.Ledger.Lookup.{RequestReport, lookup_report}
use paracetamol.Server.ReportId.{
  request_id, valid_request_report_id, instance_part, all_lower_hex, request_id-valid,
}

abbrev pub request_report_path : Text
request_report_path = codes "/paracetamol/v1/requests/"

-- `strings.TrimPrefix`
unfoldable pub without_prefix : Text → Text → Text
unfolding has_prefix
without_prefix text prefix = if has_prefix text prefix then drop (length prefix) text else text

without_own_prefix :
    (prefix text : Text)
    → (has_prefix (prefix ++ text) prefix ≡ true) × (drop (length prefix) (prefix ++ text) ≡ text)
unfolding has_prefix
without_own_prefix [] text = (refl, refl)
without_own_prefix (c ∷ prefix) text =
    let (a, b) = without_own_prefix prefix text in (rw (==_refl c) a, b)

without_prefix_made : (prefix text : Text) → without_prefix (prefix ++ text) prefix ≡ text
unfolding without_prefix
without_prefix_made prefix text = let (a, b) = without_own_prefix prefix text in rw a b

-- the error `invalid_request_report`, the error `request_not_retained`, or a report
pub data ReportResponse (F : Type 0) : Type 0 where
  invalid_report not_retained : ReportResponse F
  reported : RequestReport F → ReportResponse F

module _ {F : Type 0} where
  abbrev pub response_of : Option (RequestReport F) → ReportResponse F
  response_of none = not_retained
  response_of (some report) = reported report

  -- `requestReport`, given the identifier and whether there is a query, or a question mark; and given
  -- the path
  unfoldable pub report_for : Text → RequestLedger F → Text → Bool → ReportResponse F
  unfolding valid_request_report_id instance_part equal lookup_report
  report_for instance_id ledger id has_query =
      if has_query || not (valid_request_report_id id)
      then invalid_report
      else if not (equal (instance_part id) instance_id)
      then not_retained
      else response_of (lookup_report ledger id)

  unfoldable pub request_report : Text → RequestLedger F → Text → Bool → ReportResponse F
  unfolding without_prefix report_for
  request_report instance_id ledger path has_query =
      report_for instance_id ledger (without_prefix path request_report_path) has_query

  not_switch : (b : Bool) (x y : ReportResponse F) → (if not b then y else x) ≡ (if b then x else y)
  not_switch true x y = refl
  not_switch false x y = refl

  -- Asked without a query for a request that an instance has named, the same instance answers what
  -- its ledger has of the request, and another one that it does not retain it. The names of the
  -- instances have 32 hexadecimal digits, and the number of the request is not 0.
  pub request_report_made :
      (maker answerer : Text) (ledger : RequestLedger F) (number : ℕ)
      → length maker ≡ 32
      → all_lower_hex maker ≡ true
      → 0 < number
      → number < 2 ^ 64
      → request_report answerer ledger (request_report_path ++ request_id maker number) false ≡ (
          if equal maker answerer
          then response_of (lookup_report ledger (request_id maker number))
          else not_retained)
  unfolding request_report report_for
  request_report_made maker answerer ledger number l h p b =
      let id = request_id maker number in
      let (valid, named) = request_id-valid maker number l h p b in
      ap (λ t. report_for answerer ledger t false) (without_prefix_made request_report_path id)
      ∙ rw valid (
          rw named (
            not_switch (equal maker answerer) (response_of (lookup_report ledger id)) not_retained))
