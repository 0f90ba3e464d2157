-- ===== src/Registry/Sound.antt =====
-- The registry that is built against the verdicts on the candidates.
use paracetamol.Base.{
  ℕ, ◌+◌, Option, none, some, List, [], ◌∷◌, ◌++◌, ◌≡◌, refl, arith, if◌then◌else◌, Bool-cases, inl,
  inr, sym, ap, subst, ◌∙◌,
}
use paracetamol.Base.Result.{Result, ok, err, ◌>>=◌, Result-cases}
use paracetamol.Text.{Text, equal}
use paracetamol.Ledger.Maps.{equal→≡}
use paracetamol.Registry.Build.{
  Verdict, skipped, unavailable, serves, broken, judge, appended, append_model, apply_verdict,
  build_from,
}
use paracetamol.Registry.State.{
  Candidate, ServedModel, Diagnostic, RegistryError, Catalog, Building,
}
use paracetamol.Registry.Find.{
  find_model, IsDistinct, find_model-append_other, find_model-append_new, append-IsDistinct,
}
use mathlib.Core.List.{append_assoc, append-nil}

module _ {P : Type 0} where
  abbrev pub served_by : Verdict P → List (ServedModel P)
  served_by (serves m) = m ∷ []
  served_by skipped = []
  served_by (unavailable d) = []
  served_by (broken e) = []

  abbrev pub diagnosed_by : Verdict P → List Diagnostic
  diagnosed_by (unavailable d) = d ∷ []
  diagnosed_by skipped = []
  diagnosed_by (serves m) = []
  diagnosed_by (broken e) = []

  -- how many of the models an application has
  unfoldable pub count_models : Text → List (ServedModel P) → ℕ
  unfolding equal
  count_models application [] = 0
  count_models application (m ∷ rest) =
      let others = count_models application rest in
      if equal m.application application then others + 1 else others

  -- The identifiers differ, the map has what the list has, and the numbers count the list.
  unfoldable pub Fits : Building P → Type 0
  Fits b =
      IsDistinct b.registry.models
      × ((id : Text) → b.registry.by_id id ≡ find_model id b.registry.models)
      × ((application : Text)
          → b.ready_by_application application ≡ count_models application b.registry.models)

  count_models-append :
      (application : Text) (ms : List (ServedModel P)) (m : ServedModel P)
      → count_models application (ms ++ m ∷ []) ≡ (
          if equal m.application application
          then count_models application ms + 1
          else count_models application ms)
  unfolding count_models
  count_models-append application [] m = refl
  count_models-append application (x ∷ ms) m = ground (arith, count_models-append application ms m)

  -- a model that is new is appended
  appended-Fits :
      (b : Building P) (m : ServedModel P)
      → Fits b
      → find_model m.id b.registry.models ≡ none
      → Fits (appended b m)
  unfolding appended Fits
  appended-Fits b m (d, i, c) e = (
    append-IsDistinct b.registry.models m d e,
    (λ id. elim (Bool-cases (equal m.id id)) [
      | inl same ↦ rw same (
          sym (
            find_model-append_new id b.registry.models m same
              (ap (λ t. find_model t b.registry.models) (sym (equal→≡ m.id id same)) ∙ e)))
      | inr other ↦ rw other (i id ∙ sym (find_model-append_other id b.registry.models m other))
    ]),
    λ application.
        ap (λ n. if equal m.application application then n + 1 else n) (c application)
        ∙ sym (count_models-append application b.registry.models m),
  )

  -- what a verdict that is no error adds
  unfoldable pub Extends : Building P → List (ServedModel P) → List Diagnostic → Building P → Type 0
  Extends b ms ds b' =
      Fits b'
      × (b'.registry.models ≡ b.registry.models ++ ms)
      × (b'.diagnostics ≡ b.diagnostics ++ ds)

  value_or : Building P → Result RegistryError (Building P) → Building P
  value_or b (ok b') = b'
  value_or b (err e) = b

  append_model-Extends :
      (b : Building P) (m : ServedModel P) (found : Option (ServedModel P)) (b' : Building P)
      → Fits b
      → find_model m.id b.registry.models ≡ found
      → append_model b m found ≡ ok b'
      → Extends b (m ∷ []) [] b'
  unfolding append_model Extends appended value_or
  append_model-Extends b m (some x) b' f e h = absurd (cc h)
  append_model-Extends b m none b' f e h =
      subst (Extends b (m ∷ []) []) (ap (value_or b) h)
        (appended-Fits b m f e, refl, sym (append-nil b.diagnostics))

  apply_verdict-Extends :
      (b : Building P) (v : Verdict P) (b' : Building P)
      → Fits b
      → apply_verdict b v ≡ ok b'
      → Extends b (served_by v) (diagnosed_by v) b'
  unfolding apply_verdict Extends value_or Fits
  apply_verdict-Extends b skipped b' f h =
      subst (Extends b [] []) (ap (value_or b) h)
        (f, sym (append-nil b.registry.models), sym (append-nil b.diagnostics))
  apply_verdict-Extends b (unavailable d) b' f h =
      subst (Extends b [] (d ∷ [])) (ap (value_or b) h)
        (f, sym (append-nil b.registry.models), refl)
  apply_verdict-Extends b (serves m) b' f h = from_index f
    where
      from_index : Fits b → Extends b (m ∷ []) [] b'
      from_index (d, i, c) = append_model-Extends b m (b.registry.by_id m.id) b' f (sym (i m.id)) h
  apply_verdict-Extends b (broken e) b' f h = absurd (cc h)

  module _ (catalog : Catalog P) where
    -- The models that the candidates give, in their order, and the diagnostics: what is left where the
    -- verdict on each candidate is looked at alone.
    unfoldable pub served : List Text → List Candidate → List (ServedModel P)
    unfolding judge
    served selected [] = []
    served selected (c ∷ rest) = served_by (judge catalog selected c) ++ served selected rest

    unfoldable pub diagnosed : List Text → List Candidate → List Diagnostic
    unfolding judge
    diagnosed selected [] = []
    diagnosed selected (c ∷ rest) =
        diagnosed_by (judge catalog selected c) ++ diagnosed selected rest

    pub build_from-Extends :
        (selected : List Text) (b : Building P) (cs : List Candidate) (b' : Building P)
        → Fits b
        → build_from catalog selected b cs ≡ ok b'
        → Extends b (served selected cs) (diagnosed selected cs) b'
    unfolding build_from Extends served diagnosed value_or
    build_from-Extends selected b [] b' f h =
        subst (Extends b [] []) (ap (value_or b) h)
          (f, sym (append-nil b.registry.models), sym (append-nil b.diagnostics))
    build_from-Extends selected b (c ∷ rest) b' f h =
        elim (Result-cases (apply_verdict b (judge catalog selected c))) [
          | inr (e, p) ↦
              absurd (cc (ap (λ r. r >>= λ x. build_from catalog selected x rest) (sym p) ∙ h))
          | inl (next, p) ↦
              let (f', ms, ds) = apply_verdict-Extends b (judge catalog selected c) next f p in
              let (f'', ms', ds') =
                build_from-Extends selected next rest b' f'
                  (ap (λ r. r >>= λ x. build_from catalog selected x rest) (sym p) ∙ h) in
              (
                f'',
                ms' ∙ (ap (λ l. l ++ served selected rest) ms ∙ append_assoc b.registry.models _ _),
                ds' ∙ (ap (λ l. l ++ diagnosed selected rest) ds ∙ append_assoc b.diagnostics _ _),
              )
        ]
