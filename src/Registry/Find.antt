-- ===== src/Registry/Find.antt =====
-- Finding a model by its identifier in a list of models.
use paracetamol.Base.{
  true, false, Option, none, some, List, [], ◌∷◌, ◌++◌, ◌≡◌, refl, arith, if◌then◌else◌, Bool-cases,
  inl, inr, sym, ap, ◌∙◌,
}
use paracetamol.Text.{Text, equal}
use paracetamol.Ledger.Maps.{equal_refl, equal→≡}
use paracetamol.Podman.Client.{less_text}
use paracetamol.Registry.Build.{insert_model, sort_models}
use paracetamol.Registry.State.{ServedModel}

apart_back : (a b : Text) → equal a b ≡ false → equal b a ≡ false
apart_back a b h = elim (Bool-cases (equal b a)) [
  | inl same ↦ absurd (cc (sym (equal_refl b) ∙ (ap (λ t. equal t b) (equal→≡ b a same) ∙ h)))
  | inr other ↦ other
]

module _ {P : Type 0} where
  -- the first model that has the identifier
  unfoldable pub find_model : Text → List (ServedModel P) → Option (ServedModel P)
  unfolding equal
  find_model id [] = none
  find_model id (m ∷ rest) = if equal m.id id then some m else find_model id rest

  -- no two models have one identifier
  unfoldable pub IsDistinct : List (ServedModel P) → Type 0
  unfolding find_model
  IsDistinct [] = Unit {0}
  IsDistinct (m ∷ rest) = (find_model m.id rest ≡ none) × IsDistinct rest

  pub find_model-append_other :
      (id : Text) (ms : List (ServedModel P)) (m : ServedModel P)
      → equal m.id id ≡ false
      → find_model id (ms ++ m ∷ []) ≡ find_model id ms
  unfolding find_model
  find_model-append_other id [] m h = ground (arith, h)
  find_model-append_other id (x ∷ ms) m h = ground (arith, find_model-append_other id ms m h)

  pub find_model-append_new :
      (id : Text) (ms : List (ServedModel P)) (m : ServedModel P)
      → equal m.id id ≡ true
      → find_model id ms ≡ none
      → find_model id (ms ++ m ∷ []) ≡ some m
  unfolding find_model
  find_model-append_new id [] m h e = ground (arith, h)
  find_model-append_new id (x ∷ ms) m h e = elim (Bool-cases (equal x.id id)) [
    | inl same ↦ absurd (ground (arith, same, e))
    | inr other ↦ rw other (find_model-append_new id ms m h (ground (arith, other, e)))
  ]

  pub append-IsDistinct :
      (ms : List (ServedModel P)) (m : ServedModel P)
      → IsDistinct ms
      → find_model m.id ms ≡ none
      → IsDistinct (ms ++ m ∷ [])
  unfolding IsDistinct find_model
  append-IsDistinct [] m d e = (refl, tt)
  append-IsDistinct (x ∷ ms) m (a, d) e = (
    find_model-append_other x.id ms m (apart_back x.id m.id (ground (arith, e))) ∙ a,
    append-IsDistinct ms m d (ground (arith, e)),
  )

  find_model-insert :
      (id : Text) (m : ServedModel P) (ms : List (ServedModel P))
      → find_model m.id ms ≡ none
      → find_model id (insert_model m ms) ≡ (if equal m.id id then some m else find_model id ms)
  unfolding find_model insert_model
  find_model-insert id m [] e = refl
  find_model-insert id m (x ∷ ms) e =
      let apart : equal x.id m.id ≡ false = ground (arith, e) in
      let ih = find_model-insert id m ms (ground (arith, apart, e)) in
      elim (Bool-cases (less_text m.id x.id)) [
        | inl less ↦ rw less refl
        | inr more ↦ rw more (elim (Bool-cases (equal m.id id)) [
          | inl mine ↦
              let other : equal x.id id ≡ false =
                ap (equal x.id) (sym (equal→≡ m.id id mine)) ∙ apart in
              rw other (ih ∙ rw mine refl)
          | inr other ↦
              rw other (ap (λ o. if equal x.id id then some x else o) (ih ∙ rw other refl))
        ])
      ]

  pub find_model-sort :
      (id : Text) (ms : List (ServedModel P))
      → IsDistinct ms
      → find_model id (sort_models ms) ≡ find_model id ms
  unfolding IsDistinct find_model sort_models
  find_model-sort id [] d = refl
  find_model-sort id (m ∷ ms) (e, d) =
      find_model-insert id m (sort_models ms) (find_model-sort m.id ms d ∙ e)
      ∙ ap (λ o. if equal m.id id then some m else o) (find_model-sort id ms d)
