-- ===== src/Ledger/Models.antt =====
-- The usage by model of `addUsage` against the records of that model.
use paracetamol.Base.{false, List, [], ◌∷◌, ◌≡◌, refl, filter, Bool-cases, inl, inr, subst}
use paracetamol.Text.{Text, equal, is_empty}
use paracetamol.Ledger.Usage.{Floats, RequestRecord, RequestAggregate, add_aggregate}
use paracetamol.Ledger.Store.{Assoc, ModelAggregate, lookup, usage_of_model, add_model, add}
use paracetamol.Ledger.Maps.{equal→≡, lookup-insert_same, lookup-insert_other}
use paracetamol.Ledger.Recent.{after}
use paracetamol.Ledger.Totals.{Totals, add_aggregate-Totals, no_usage-Totals}

module _ {F : Type 0} (floats : Floats F) where
  abbrev pub usage_of : Text → Assoc (ModelAggregate F) → RequestAggregate F
  usage_of m models = usage_of_model floats (lookup m models)

  -- the records of a model
  abbrev pub by_model : Text → List (RequestRecord F) → List (RequestRecord F)
  by_model m rs = filter (λ r. equal r.model m) rs

  add_model-same :
      (models : Assoc (ModelAggregate F)) (r : RequestRecord F)
      → is_empty r.model ≡ false
      → usage_of r.model (add_model floats models r)
        ≡ add_aggregate floats (usage_of r.model models) r
  unfolding add_model
  add_model-same models r n = rw n (rw (lookup-insert_same r.model _ models) refl)

  add_model-at :
      (models : Assoc (ModelAggregate F)) (r : RequestRecord F) {m : Text}
      → r.model ≡ m
      → is_empty m ≡ false
      → usage_of m (add_model floats models r) ≡ add_aggregate floats (usage_of m models) r
  add_model-at models r e =
      subst
        (λ k.
          is_empty k ≡ false
          → usage_of k (add_model floats models r) ≡ add_aggregate floats (usage_of k models) r)
        e (add_model-same models r)

  add_model-other :
      (models : Assoc (ModelAggregate F)) (r : RequestRecord F) (m : Text)
      → equal r.model m ≡ false
      → usage_of m (add_model floats models r) ≡ usage_of m models
  unfolding add_model
  add_model-other models r m other = elim (Bool-cases (is_empty r.model)) [
    | inl empty ↦ rw empty refl
    | inr named ↦ rw named (rw (lookup-insert_other m r.model _ models other) refl)
  ]

  -- Whatever records have been added, the usage kept for a model, which has a name, counts exactly
  -- the records of that model and each outcome of them, and has the sum and the number of their
  -- observations of each token count and duration, of the draft tokens, of the cache reuse and of
  -- the tokens timed for prompts and for generation, each cut down to the largest `uint64`. A timed
  -- generation counts without its first token, and the times are added in the order of the records.
  pub model-Totals :
      (history : List (RequestRecord F)) (m : Text)
      → is_empty m ≡ false
      → Totals floats (usage_of m (after floats history).models) (by_model m history)
  unfolding after add lookup
  model-Totals [] m n = no_usage-Totals floats
  model-Totals (r ∷ older) m n =
      let ih = model-Totals older m n in
      let models = (after floats older).models in
      elim (Bool-cases (equal r.model m)) [
        | inl same ↦
            let counted = add_model-at models r (equal→≡ r.model m same) n in
            rw same (rw counted (add_aggregate-Totals floats r (by_model m older) ih))
        | inr other ↦ rw other (rw (add_model-other models r m other) ih)
      ]
