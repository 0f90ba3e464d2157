-- ===== src/Residency/Reports.antt =====
-- The probe against what the router reports of one model.
use paracetamol.Base.{
  Bool, true, false, ◌&&◌, Option, none, some, List, [], ◌∷◌, ◌≡◌, refl, arith, if◌then◌else◌,
  Bool-cases, inl, inr, sym, ap, ◌∙◌,
}
use paracetamol.Text.{Text, equal}
use paracetamol.Ledger.Maps.{equal→≡}
use paracetamol.Registry.State.{ServedModel, Registry, backend_llama_cpp}
use paracetamol.Registry.Find.{find_model}
use paracetamol.Residency.Probe.{
  Residency, RouterModel, unknown_residency, status_unavailable, reported_twice, not_reported,
  ModelDiagnostic, residency_of, is_llama, unknown_llama_residency, merge_listed, note_missing,
  probe_llama_residency,
}

-- the reports of one model
unfoldable pub reports : Text → List RouterModel → List RouterModel
unfolding equal
reports id [] = []
reports id (l ∷ ls) = let others = reports id ls in if equal l.id id then l ∷ others else others

-- a conjunction that does not hold
aside : (b c : Bool) → c ≡ false → (b && c) ≡ false
aside true c h = h
aside false c h = refl

abbrev pub all_llama : {P : Type 0} → List (ServedModel P) → Bool
all_llama [] = true
all_llama (m ∷ ms) = equal m.backend backend_llama_cpp && all_llama ms

unknown_start :
    {P : Type 0} (d : ModelDiagnostic) (id : Text) (ms : List (ServedModel P))
    → all_llama ms ≡ true
    → unknown_llama_residency d ms id
      ≡ (if is_llama (find_model id ms) then some (unknown_residency d) else none)
unfolding unknown_llama_residency find_model
unknown_start d id [] h = refl
unknown_start d id (m ∷ ms) h = elim (Bool-cases (equal m.id id)) [
  | inl same ↦ rw same (ground (arith, h))
  | inr other ↦ rw other (
      rw (aside (equal m.backend backend_llama_cpp) false refl)
        (unknown_start d id ms (ground (arith, h))))
]

module _ (lower bounded : Text → Text) where
  -- what the reports of one model say of it
  unfoldable pub reported_residency : List RouterModel → Residency
  unfolding residency_of
  reported_residency [] = unknown_residency not_reported
  reported_residency (l ∷ []) = residency_of lower bounded l
  reported_residency (l ∷ next ∷ ls) = unknown_residency reported_twice

  -- the same with what was seen before
  then_reported : Bool → Residency → List RouterModel → Bool × Residency
  then_reported seen entry [] = (seen, entry)
  then_reported seen entry (l ∷ ls) =
      then_reported true
        (if seen then unknown_residency reported_twice else residency_of lower bounded l) ls

  then_twice :
      (ls : List RouterModel)
      → then_reported true (unknown_residency reported_twice) ls
        ≡ (true, unknown_residency reported_twice)
  unfolding then_reported
  then_twice [] = refl
  then_twice (l ∷ ls) = then_twice ls

  from_start :
      (d : ModelDiagnostic) (ls : List RouterModel)
      → let r = then_reported false (unknown_residency d) ls in
        note_missing r.0 (some r.1) ≡ some (reported_residency ls)
  unfolding then_reported reported_residency
  from_start d [] = refl
  from_start d (l ∷ []) = refl
  from_start d (l ∷ next ∷ ls) = ap (λ r. note_missing r.0 (some r.1)) (then_twice ls)

  module _ {P : Type 0} (registry : Registry P) where
    -- the maps and `seen` behind one item of the list
    abbrev maps_with :
        (Text → Option Residency) → (Text → Bool) → RouterModel → Text → Option Residency
    maps_with maps seen l id =
        if is_llama (registry.by_id l.id) && equal l.id id
        then some
            (if seen l.id then unknown_residency reported_twice else residency_of lower bounded l)
        else maps id

    abbrev seen_with : (Text → Bool) → RouterModel → Text → Bool
    seen_with seen l id = if is_llama (registry.by_id l.id) && equal l.id id then true else seen id

    merge_known :
        (id : Text) (ls : List RouterModel) (maps : Text → Option Residency) (seen : Text → Bool)
        (s : Bool) (e : Residency)
        → is_llama (registry.by_id id) ≡ true
        → seen id ≡ s
        → maps id ≡ some e
        → let r = merge_listed lower bounded registry maps seen ls in
          let t = then_reported s e (reports id ls) in (r.0 id ≡ some t.1) × (r.1 id ≡ t.0)
    unfolding merge_listed then_reported reports
    merge_known id [] maps seen s e k p q = (q, p)
    merge_known id (l ∷ ls) maps seen s e k p q = elim (Bool-cases (equal l.id id)) [
      | inl same ↦
          let path : l.id ≡ id = equal→≡ l.id id same in
          let known : is_llama (registry.by_id l.id) ≡ true =
            ap (λ t. is_llama (registry.by_id t)) path ∙ k in
          rw same (
            merge_known id ls (maps_with maps seen l) (seen_with seen l) true
              (if s then unknown_residency reported_twice else residency_of lower bounded l) k
              (rw (known, same) refl)
              (rw (known, same)
                (ap
                  (λ b.
                    some (
                      if b then unknown_residency reported_twice else residency_of lower bounded l))
                  (ap seen path ∙ p))))
      | inr other ↦ rw other (
          merge_known id ls (maps_with maps seen l) (seen_with seen l) s e k
            (rw (aside (is_llama (registry.by_id l.id)) (equal l.id id) other) p)
            (rw (aside (is_llama (registry.by_id l.id)) (equal l.id id) other) q))
    ]

    merge_unknown :
        (id : Text) (ls : List RouterModel) (maps : Text → Option Residency) (seen : Text → Bool)
        → is_llama (registry.by_id id) ≡ false
        → maps id ≡ none
        → (merge_listed lower bounded registry maps seen ls).0 id ≡ none
    unfolding merge_listed
    merge_unknown id [] maps seen k p = p
    merge_unknown id (l ∷ ls) maps seen k p = elim (Bool-cases (equal l.id id)) [
      | inl same ↦
          let known : is_llama (registry.by_id l.id) ≡ false =
            ap (λ t. is_llama (registry.by_id t)) (equal→≡ l.id id same) ∙ k in
          merge_unknown id ls (maps_with maps seen l) (seen_with seen l) k (rw known p)
      | inr other ↦
          merge_unknown id ls (maps_with maps seen l) (seen_with seen l) k
            (rw (aside (is_llama (registry.by_id l.id)) (equal l.id id) other) p)
    ]

    -- what an answer of the router says of one model
    abbrev pub answered_residency : Option (List RouterModel) → Text → Residency
    answered_residency none id = unknown_residency status_unavailable
    answered_residency (some listed) id = reported_residency (reports id listed)

    -- In a registry whose models are all of llama.cpp, and where a lookup finds what the list has, the
    -- probe has an entry exactly for the models of the registry: unknown, if the router gave no usable
    -- answer, has not reported the model or has reported it more than once; else what its one report
    -- says. What is reported of other models plays no part.
    pub probe_llama_residency_lem :
        (answer : Option (List RouterModel)) (id : Text)
        → ((x : Text) → registry.by_id x ≡ find_model x registry.models)
        → all_llama registry.models ≡ true
        → probe_llama_residency lower bounded registry answer id
          ≡ (if is_llama (registry.by_id id) then some (answered_residency answer id) else none)
    unfolding probe_llama_residency
    probe_llama_residency_lem none id h a =
        rw (h id) (unknown_start status_unavailable id registry.models a)
    probe_llama_residency_lem (some listed) id h a =
        let maps = unknown_llama_residency status_unavailable registry.models in
        let begin =
          unknown_start status_unavailable id registry.models a
          ∙ ap (λ o. if is_llama o then some (unknown_residency status_unavailable) else none)
              (sym (h id)) in
        elim (Bool-cases (is_llama (registry.by_id id))) [
          | inl known ↦
              let (m, s) =
                merge_known id listed maps (λ x. false) false (unknown_residency status_unavailable)
                  known refl (begin ∙ rw known refl) in
              rw (known, m, s) (from_start status_unavailable (reports id listed))
          | inr other ↦
              rw (other, merge_unknown id listed maps (λ x. false) other (begin ∙ rw other refl))
                refl
        ]
