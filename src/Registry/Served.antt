-- ===== src/Registry/Served.antt =====
-- What `BuildRegistry` returns when it succeeds.
use paracetamol.Base.{
  ℕ, ◌<◌, true, Option, none, some, List, [], ◌∷◌, ◌≡◌, refl, arith, Bool-cases, inl, inr, sym, ap,
  subst, ◌∙◌,
}
use paracetamol.Base.Result.{Result, ok, err, ◌>>=◌}
use paracetamol.Text.{Text, equal}
use paracetamol.Ledger.Maps.{equal→≡}
use paracetamol.Registry.Build.{
  build_from, nothing_built, sort_models, select_applications, some_selected, load_models,
  sorted_registry, build, require_ready, build_registry,
}
use paracetamol.Registry.State.{
  Candidate, ServedModel, Diagnostic, RegistryError, backend_llama_cpp, Catalog, Registry, Building,
}
use paracetamol.Registry.Find.{find_model, IsDistinct, find_model-sort}
use paracetamol.Registry.Sound.{count_models, Fits, Extends, served, diagnosed, build_from-Extends}

bind_cases :
    {E A B : Type 0} (r : Result E A) (next : A → Result E B) (b : B)
    → (r >>= next) ≡ ok b
    → (a : A) × (r ≡ ok a) × (next a ≡ ok b)
bind_cases (ok a) next b h = (a, refl, h)
bind_cases (err e) next b h = absurd (cc h)

abbrev pub only_application : List Text
only_application = backend_llama_cpp ∷ []

-- there is one application to select
ok_path : {A : Type 0} {a b : A} → ◌≡◌ {A = Result RegistryError A} (ok a) (ok b) → a ≡ b
ok_path {a = a} h = ap (λ r. elim r [ ok x ↦ x | err e ↦ a ]) h

select_only :
    (applications : List Text) (chosen selected : List Text)
    → select_applications [] applications ≡ ok chosen
    → some_selected chosen ≡ ok selected
    → (applications ≡ only_application) × (selected ≡ only_application)
unfolding select_applications
select_only [] chosen selected h k = absurd (cc (ap some_selected (ok_path h) ∙ k))
select_only (x ∷ []) chosen selected h k = elim (Bool-cases (equal x backend_llama_cpp)) [
  | inr other ↦ absurd (ground (arith, other, h))
  | inl same ↦
      let x_path : x ≡ backend_llama_cpp = equal→≡ x backend_llama_cpp same in
      let chosen_path : x ∷ [] ≡ chosen = ok_path (rw same at h) in
      (
        ap (λ t. t ∷ []) x_path,
        sym (ok_path (ap some_selected chosen_path ∙ k)) ∙ ap (λ t. t ∷ []) x_path,
      )
]
select_only (x ∷ y ∷ rest) chosen selected h k = elim (Bool-cases (equal x backend_llama_cpp)) [
  | inr other ↦ absurd (ground (arith, other, h))
  | inl first ↦ elim (Bool-cases (equal y backend_llama_cpp)) [
    | inr other ↦ absurd (ground (arith, first, other, h))
    | inl second ↦
        let twice : equal x y ≡ true = ap (equal x) (equal→≡ y backend_llama_cpp second) ∙ first in
        absurd (ground (arith, first, second, twice, h))
  ]
]

count_ready :
    (ready : Text → ℕ) (x : Text) (rest done : List Text)
    → require_ready ready (x ∷ rest) ≡ ok done
    → 0 < ready x
unfolding require_ready
count_ready ready x rest done h = ground (arith, h)

module _ {P : Type 0} (catalog : Catalog P) where
  -- what a build comes to, from the text models of the catalog
  unfoldable pub Serves :
      List Candidate
      → List (ServedModel P)
      → List Diagnostic
      → (Text → Option (ServedModel P))
      → Type 0
  Serves cs models diagnostics by_id =
      (catalog.models ≡ some cs)
      × (models ≡ sort_models (served catalog only_application cs))
      × IsDistinct (served catalog only_application cs)
      × (diagnostics ≡ diagnosed catalog only_application cs)
      × ((id : Text) → by_id id ≡ find_model id models)

  loaded :
      (models : Option (List Candidate)) (cs : List Candidate)
      → load_models models ≡ ok cs
      → models ≡ some cs
  loaded none cs h = absurd (cc h)
  loaded (some models) cs h = ap some (ok_path h)

  start-Fits : Fits (nothing_built {P = P})
  unfolding Fits IsDistinct find_model count_models
  start-Fits = (tt, (λ id. refl), λ application. refl)

  unfoldable Built : Building P → Type 0
  Built b =
      (cs : List Candidate) × Serves cs b.registry.models b.diagnostics b.registry.by_id
      × (b.ready_by_application backend_llama_cpp
          ≡ count_models backend_llama_cpp (served catalog only_application cs))

  sorted-Built :
      (cs : List Candidate) (b : Building P)
      → catalog.models ≡ some cs
      → Extends nothing_built
          (served catalog only_application cs)
          (diagnosed catalog only_application cs)
          b
      → Built (sorted_registry b)
  unfolding Built Serves Extends Fits
  sorted-Built cs b e ((d, i, c), ms, ds) =
      let distinct : IsDistinct (served catalog only_application cs) = subst IsDistinct ms d in
      (
        cs,
        (
          e,
          ap sort_models ms,
          distinct,
          ds,
          λ id. i id ∙ sym (find_model-sort id b.registry.models d),
        ),
        c backend_llama_cpp ∙ ap (count_models backend_llama_cpp) ms,
      )

  build-Built :
      (applications : List Text) (b : Building P)
      → build catalog applications ≡ ok b
      → (applications ≡ only_application) × Built b
  unfolding build
  build-Built applications b h =
      let (chosen, chosen_ok, h1) = bind_cases (select_applications [] applications) _ b h in
      let (selected, selected_ok, h2) = bind_cases (some_selected chosen) _ b h1 in
      let (models, models_ok, h3) = bind_cases (load_models catalog.models) _ b h2 in
      let (built, built_ok, h4) =
        bind_cases (build_from catalog selected nothing_built models) _ b h3 in
      let (only, same) = select_only applications chosen selected chosen_ok selected_ok in
      (
        only,
        subst Built (ok_path h4) (
            sorted-Built models built (loaded catalog.models models models_ok) (
              build_from-Extends catalog only_application nothing_built models built start-Fits
                (subst (λ l. build_from catalog l nothing_built models ≡ ok built) same built_ok))),
      )

  -- If `BuildRegistry` succeeds, llama.cpp alone was selected, and the models are those that the
  -- catalog's text models give one by one, sorted: no identifier occurs twice, the diagnostics are
  -- those of the others, there is a model, and a lookup finds what the list of the models has.
  pub build_registry_lem :
      (applications : List Text) (registry : Registry P) (diagnostics : List Diagnostic)
      → build_registry catalog applications ≡ ok (registry, diagnostics)
      → (applications ≡ only_application)
        × ((cs : List Candidate) × Serves cs registry.models diagnostics registry.by_id
            × (0 < count_models backend_llama_cpp (served catalog only_application cs)))
  unfolding build_registry Built
  build_registry_lem applications registry diagnostics h =
      let (b, b_ok, h1) = bind_cases (build catalog applications) _ (registry, diagnostics) h in
      let (checked, checked_ok, h2) =
        bind_cases (require_ready b.ready_by_application applications) _ (registry, diagnostics)
          h1 in
      let (only, built) = build-Built applications b b_ok in
      let (cs, s, c) = built in
      let ready : 0 < b.ready_by_application backend_llama_cpp =
        count_ready b.ready_by_application backend_llama_cpp [] checked
          (subst (λ l. require_ready b.ready_by_application l ≡ ok checked) only checked_ok) in
      (
        only,
        (
          cs,
          subst (λ t. Serves cs t.0.models t.1 t.0.by_id) (ok_path h2) s,
          omega (arith, ready, c),
        ),
      )
