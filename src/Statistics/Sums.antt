-- ===== src/Statistics/Sums.antt =====
-- What `readSnapshot` sums over the rows.
use paracetamol.Base.{
  ℕ, ◌+◌, Bool, true, false, Option, none, some, List, [], ◌∷◌, ◌≡◌, refl, arith, if◌then◌else◌,
  Bool-cases, inl, inr, ap, sym, subst, ◌∙◌,
}
use paracetamol.Text.{Text, equal}
use paracetamol.Ledger.Capped.{capped, saturating_add-capped}
use paracetamol.Ledger.Maps.{equal→≡}
use paracetamol.Ledger.Usage.{saturating_add}
use paracetamol.Statistics.Counters.{StatisticsCounters, add_counters}
use paracetamol.Statistics.Snapshot.{
  SnapshotRow, SnapshotTotals, no_totals, all_natural, row_counters, same_key, put, add_row,
  read_rows, sum_where, every_natural,
}

-- what the totals are when the columns that each of them adds sum up so
record Sums (t : SnapshotTotals) (daily : Text → ℕ → ℕ) (models : Text × Text → ℕ → ℕ)
    (overall : ℕ → ℕ) : Type 0 where
  pub daily_sums : (day : Text) (i : ℕ) → t.daily day i ≡ capped (daily day i)
  pub model_sums : (key : Text × Text) (i : ℕ) → t.models key i ≡ capped (models key i)
  pub overall_sums : (i : ℕ) → t.overall i ≡ capped (overall i)

put-capped {ℓ} :
    {K : Type ℓ} (same : K → K → Bool) (sound : (k l : K) → same k l ≡ true → k ≡ l)
    (m : K → StatisticsCounters) (n : K → ℕ → ℕ) (key : K) (c : StatisticsCounters)
    → ((k : K) (i : ℕ) → m k i ≡ capped (n k i))
    → (k : K) (i : ℕ)
    → put same key (add_counters (m key) c) m k i
      ≡ capped (if same k key then c i + n k i else n k i)
put-capped same sound m n key c h k i = elim (Bool-cases (same k key)) [
  | inl here ↦ rw here (
      ap (λ v. saturating_add v (c i)) (h key i)
      ∙ saturating_add-capped (n key i) (c i)
      ∙ ap (λ l. capped (c i + n l i)) (sym (sound k key here)))
  | inr other ↦ rw other (h k i)
]

same_key_sound : (k l : Text × Text) → same_key k l ≡ true → k ≡ l
same_key_sound (m, a) (m', a') h =
    ap (λ x. (x, a)) (equal→≡ m m' (ground (arith, h)))
    ∙ ap (λ x. (m', x)) (equal→≡ a a' (ground (arith, h)))

add_row-Sums :
    (t : SnapshotTotals) (row : SnapshotRow) (daily : Text → ℕ → ℕ) (models : Text × Text → ℕ → ℕ)
    (overall : ℕ → ℕ)
    → Sums t daily models overall
    → let c = row_counters row in
      Sums
        (add_row t row)
        (λ day i. if equal day row.day then c i + daily day i else daily day i)
        (λ key i.
          if same_key key (row.model, row.application) then c i + models key i else models key i)
        (λ i. c i + overall i)
unfolding add_row
add_row-Sums t row daily models overall h =
    let c = row_counters row in
    record {
      daily_sums = put-capped equal equal→≡ t.daily daily row.day c h.daily_sums;
      model_sums =
          put-capped same_key same_key_sound t.models models (row.model, row.application) c
            h.model_sums;
      overall_sums = λ i.
          ap (λ v. saturating_add v (c i)) (h.overall_sums i)
          ∙ saturating_add-capped (overall i) (c i);
    }

zero_capped : (n : ℕ) → capped n ≡ capped (0 + n)
zero_capped n = ground arith

capped_zero : (n : ℕ) → capped (n + 0) ≡ capped n
capped_zero n = ground arith

added :
    (b : Bool) (c rest n : ℕ) → rest + (if b then c + n else n) ≡ (if b then c + rest else rest) + n
added true c rest n = omega arith
added false c rest n = omega arith

read_rows-Sums :
    (rows : List SnapshotRow) (t t' : SnapshotTotals) (daily : Text → ℕ → ℕ)
    (models : Text × Text → ℕ → ℕ) (overall : ℕ → ℕ)
    → read_rows t rows ≡ some t'
    → Sums t daily models overall
    → Sums t'
        (λ day i. sum_where (λ row. equal day row.day) i rows + daily day i)
        (λ key i.
          sum_where (λ row. same_key key (row.model, row.application)) i rows + models key i)
        (λ i. sum_where (λ row. true) i rows + overall i)
unfolding read_rows
read_rows-Sums [] t t' daily models overall e h =
    let same : t ≡ t' = ap (λ (o : Option SnapshotTotals). elim o [ none ↦ t | some x ↦ x ]) e in
    let kept = subst (λ x. Sums x daily models overall) same h in
    record {
      daily_sums = λ day i. kept.daily_sums day i ∙ zero_capped (daily day i);
      model_sums = λ key i. kept.model_sums key i ∙ zero_capped (models key i);
      overall_sums = λ i. kept.overall_sums i ∙ zero_capped (overall i);
    }
read_rows-Sums (row ∷ rows) t t' daily models overall e h =
    elim (Bool-cases (all_natural row.numbers 19)) [
      | inl natural ↦
          let ih =
            read_rows-Sums rows (add_row t row) t' _ _ _ (rw natural at e)
              (add_row-Sums t row daily models overall h) in
          record {
            daily_sums = λ day i.
                ih.daily_sums day i
                ∙ ap capped (
                    added (equal day row.day) (row_counters row i)
                      (sum_where (λ r. equal day r.day) i rows) (daily day i));
            model_sums = λ key i.
                ih.model_sums key i
                ∙ ap capped (
                    added (same_key key (row.model, row.application)) (row_counters row i)
                      (sum_where (λ r. same_key key (r.model, r.application)) i rows)
                      (models key i));
            overall_sums = λ i.
                ih.overall_sums i
                ∙ ap capped
                    (added true (row_counters row i) (sum_where (λ r. true) i rows) (overall i));
          }
      | inr negative ↦ absurd (ground (arith, (rw negative at e)))
    ]

read_rows-some :
    (rows : List SnapshotRow) (t : SnapshotTotals)
    → every_natural rows ≡ true
    → (t' : SnapshotTotals) × (read_rows t rows ≡ some t')
unfolding read_rows every_natural
read_rows-some [] t h = (t, refl)
read_rows-some (row ∷ rows) t h =
    let natural : all_natural row.numbers 19 ≡ true = ground (arith, h) in
    let (t', e) = read_rows-some rows (add_row t row) (ground (arith, h)) in (t', rw natural e)

-- Where no number of the rows is negative, they are all read, and the counters of each day, of each
-- pair of a model and an application, and of all of them are, in every column, the sums over the
-- rows of that day, of that pair and over all, up to 2^64 - 1.
pub read_rows_sums :
    (rows : List SnapshotRow) (day model application : Text) (i : ℕ)
    → every_natural rows ≡ true
    → (t : SnapshotTotals) × (read_rows no_totals rows ≡ some t)
      × (t.daily day i ≡ capped (sum_where (λ row. equal day row.day) i rows))
      × (t.models (model, application) i
          ≡ capped (
              sum_where (λ row. same_key (model, application) (row.model, row.application)) i rows))
      × (t.overall i ≡ capped (sum_where (λ row. true) i rows))
read_rows_sums rows day model application i natural =
    let (t, e) = read_rows-some rows no_totals natural in
    let h =
      read_rows-Sums rows no_totals t (λ day i. 0) (λ key i. 0) (λ i. 0) e
        (record {
          daily_sums = λ day i. refl;
          model_sums = λ key i. refl;
          overall_sums = λ i. refl;
        }) in
    (
      t,
      e,
      h.daily_sums day i ∙ capped_zero _,
      h.model_sums (model, application) i ∙ capped_zero _,
      h.overall_sums i ∙ capped_zero _,
    )
