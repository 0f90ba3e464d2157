-- ===== src/Statistics/Snapshot.antt =====
-- `readSnapshot`: the sums over the rows that the database selects.
use paracetamol.Base.{
  ℕ, zero, suc, ◌+◌, Bool, true, false, ◌&&◌, Option, none, some, List, [], ◌∷◌, if◌then◌else◌,
}
use paracetamol.Base.Int.{ℤ, pos, negsuc, pos_part}
use paracetamol.Text.{Text, equal}
use paracetamol.Statistics.Counters.{StatisticsCounters, no_counters, add_counters}

pub record SnapshotRow : Type 0 where
  pub day : Text
  pub model : Text
  pub application : Text
  pub numbers : ℕ → ℤ

-- the maps and the sum of the loop, a missing key of which has no counts
pub record SnapshotTotals : Type 0 where
  pub daily : Text → StatisticsCounters
  pub models : Text × Text → StatisticsCounters
  pub overall : StatisticsCounters

abbrev pub no_totals : SnapshotTotals
no_totals = record {
  daily = λ day. no_counters;
  models = λ key. no_counters;
  overall = no_counters;
}

-- `number < 0` for none of the first `n` numbers
unfoldable pub all_natural : (ℕ → ℤ) → ℕ → Bool
all_natural numbers zero = true
all_natural numbers (suc n) =
    let rest = all_natural numbers n in elim (numbers n) [ pos v ↦ rest | negsuc v ↦ false ]

abbrev pub row_counters : SnapshotRow → StatisticsCounters
row_counters row i = pos_part (row.numbers i)

abbrev pub same_key : Text × Text → Text × Text → Bool
same_key (model, application) (model', application') =
    equal model model' && equal application application'

-- an assignment to a key of a map
abbrev pub put {ℓ} :
    {K : Type ℓ}
    → (K → K → Bool)
    → K
    → StatisticsCounters
    → (K → StatisticsCounters)
    → K
    → StatisticsCounters
put same key counters m k = if same k key then counters else m k

-- the rest of a round of the loop for a row
unfoldable pub add_row : SnapshotTotals → SnapshotRow → SnapshotTotals
unfolding equal
add_row t row =
    let c = row_counters row in
    let key : Text × Text = (row.model, row.application) in
    record {
      daily = put equal row.day (add_counters (t.daily row.day) c) t.daily;
      models = put same_key key (add_counters (t.models key) c) t.models;
      overall = add_counters t.overall c;
    }

-- the loop, which a negative number ends with an error
unfoldable pub read_rows : SnapshotTotals → List SnapshotRow → Option SnapshotTotals
unfolding all_natural add_row
read_rows t [] = some t
read_rows t (row ∷ rows) =
    let rest = read_rows (add_row t row) rows in if all_natural row.numbers 19 then rest else none

-- the sum of a column over the rows that a test selects
abbrev pub sum_where : (SnapshotRow → Bool) → ℕ → List SnapshotRow → ℕ
sum_where p i [] = 0
sum_where p i (row ∷ rows) =
    let rest = sum_where p i rows in if p row then pos_part (row.numbers i) + rest else rest

-- no number is negative
unfoldable pub every_natural : List SnapshotRow → Bool
every_natural [] = true
every_natural (row ∷ rows) = all_natural row.numbers 19 && every_natural rows
