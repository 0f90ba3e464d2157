-- ===== src/Completion/Sound.antt =====
-- What the collector reports of a choice against all the reasons that were named for it.
use paracetamol.Base.{
  ℕ, Bool, true, false, not, ◌&&◌, ◌||◌, Option, none, some, List, [], ◌∷◌, ◌≡◌, refl, arith, leb,
  ◌==◌, if◌then◌else◌, Bool-cases, inl, inr, ap, sym, subst, ==_iff, ==_refl, ◌∙◌,
}
use paracetamol.Base.Int.{pos, negsuc}
use paracetamol.Completion.Collector.{
  Reason, equal_reason, CompletionChoice, CompletionCollector, new_collector, mark_partial, Item,
  choice, not_an_object, no_index, ReasonField, named, no_reason, not_a_string, settle, set_choice,
  observe_choice, observe_item, observe_items, max_observed_completion_choices, metadata, available,
  has_reasons, verdict, ChoiceFinishReason, reasons_from,
}

-- the reason that an item names for the choice `n`, in front of those before it
unfoldable pub note_item : ℕ → Item → List Reason → List Reason
note_item n (choice (pos m) (named r)) before =
    if not (leb max_observed_completion_choices m) && m == n then r ∷ before else before
note_item n _ before = before

unfoldable pub note_items : ℕ → List Item → List Reason → List Reason
unfolding note_item
note_items n [] before = before
note_items n (i ∷ is) before = note_items n is (note_item n i before)

unfoldable pub all_equal : Reason → List Reason → Bool
all_equal r [] = true
all_equal r (s ∷ rest) = equal_reason r s && all_equal r rest

-- the reason on which they agree
abbrev pub agreed : List Reason → Option Reason
agreed [] = none
agreed (r ∷ rest) = if all_equal r rest then some r else none

abbrev pub contradicts : List Reason → Bool
contradicts [] = false
contradicts (r ∷ rest) = not (all_equal r rest)

pub record Reflects (named_so_far : List Reason) (state : CompletionChoice) : Type 0 where
  pub reason : state.reason ≡ agreed named_so_far
  pub conflict : state.conflict ≡ contradicts named_so_far

equal_reason→≡ : (r s : Reason) → equal_reason r s ≡ true → r ≡ s
equal_reason→≡ r s h = ground arith

equal_reason_refl : (r : Reason) → equal_reason r r ≡ true
equal_reason_refl r = ground arith

equal_reason_sym : (r s : Reason) → equal_reason r s ≡ equal_reason s r
equal_reason_sym r s = ground arith

-- whoever agrees with all has them agree
all_equal-cons :
    (r b : Reason) (rest : List Reason)
    → all_equal b rest ≡ false
    → (equal_reason r b && all_equal r rest) ≡ false
all_equal-cons r b rest differ = elim (Bool-cases (equal_reason r b)) [
  | inl e ↦ rw e (rw (equal_reason→≡ r b e) differ)
  | inr e ↦ rw e refl
]

all_equal-same :
    (b r : Reason) (rest : List Reason)
    → equal_reason b r ≡ true
    → all_equal b rest ≡ true
    → (equal_reason r b && all_equal r rest) ≡ true
all_equal-same b r rest e same =
    rw (equal_reason_sym r b)
      (rw e (ap (λ x. all_equal x rest) (sym (equal_reason→≡ b r e)) ∙ same))

settle-Reflects :
    (l : List Reason) (state : CompletionChoice) (r : Reason)
    → Reflects l state
    → Reflects (r ∷ l) (settle state r).0
unfolding settle all_equal
settle-Reflects [] state r h =
    let a = h.reason in
    let c = h.conflict in record { reason = ground arith; conflict = ground arith }
settle-Reflects (b ∷ rest) state r h =
    let a = h.reason in
    let c = h.conflict in
    elim (Bool-cases (all_equal b rest)) [
      | inr differ ↦
          let no = all_equal-cons r b rest differ in
          record { reason = ground arith; conflict = ground arith }
      | inl same ↦ elim (Bool-cases (equal_reason b r)) [
        | inl e ↦
            let yes = all_equal-same b r rest e same in
            record { reason = ground arith; conflict = ground arith }
        | inr e ↦
            let no = equal_reason_sym r b in
            record { reason = ground arith; conflict = ground arith }
      ]
    ]

choices-marked :
    (b : Bool) (c : CompletionCollector) (n : ℕ)
    → (if b then mark_partial c else c).choices n ≡ c.choices n
choices-marked true c n = refl
choices-marked false c n = refl

observe_choice-same :
    (c : CompletionCollector) (m : ℕ) (field : ReasonField) (l : List Reason)
    → leb max_observed_completion_choices m ≡ false
    → Reflects l (c.choices m)
    → Reflects (note_item m (choice (pos m) field) l) ((observe_choice c m field).choices m)
unfolding observe_choice set_choice note_item
observe_choice-same c m no_reason l low h =
    rw (==_refl m) (record { reason = h.reason; conflict = h.conflict })
observe_choice-same c m not_a_string l low h =
    rw (==_refl m) (record { reason = h.reason; conflict = h.conflict })
observe_choice-same c m (named r) l low h = rw low (
    rw (==_refl m) (
      settle-Reflects l (record (c.choices m) { seen = true }) r
        (record { reason = h.reason; conflict = h.conflict })))

observe_choice-other :
    (c : CompletionCollector) (n m : ℕ) (field : ReasonField) (l : List Reason)
    → (m == n) ≡ false
    → Reflects l (c.choices n)
    → Reflects (note_item n (choice (pos m) field) l) ((observe_choice c m field).choices n)
unfolding observe_choice set_choice note_item
observe_choice-other c n m no_reason l apart h =
    let back : (n == m) ≡ false = ground (arith, apart) in rw back h
observe_choice-other c n m not_a_string l apart h =
    let back : (n == m) ≡ false = ground (arith, apart) in rw back h
observe_choice-other c n m (named r) l apart h =
    let back : (n == m) ≡ false = ground (arith, apart) in
    let quiet : (not (leb max_observed_completion_choices m) && m == n) ≡ false =
      ground (arith, apart) in
    rw quiet (rw back (rw (choices-marked _ c n) h))

note_item-high :
    (n m : ℕ) (field : ReasonField) (l : List Reason)
    → leb max_observed_completion_choices m ≡ true
    → note_item n (choice (pos m) field) l ≡ l
unfolding note_item
note_item-high n m no_reason l high = refl
note_item-high n m not_a_string l high = refl
note_item-high n m (named r) l high = rw high refl

observe_item-Reflects :
    (c : CompletionCollector) (n : ℕ) (i : Item) (l : List Reason)
    → Reflects l (c.choices n)
    → Reflects (note_item n i l) ((observe_item c i).choices n)
unfolding observe_item note_item
observe_item-Reflects c n not_an_object l h = h
observe_item-Reflects c n no_index l h = h
observe_item-Reflects c n (choice (negsuc m) field) l h = h
observe_item-Reflects c n (choice (pos m) field) l h =
    elim (Bool-cases (leb max_observed_completion_choices m)) [
      | inl high ↦ rw (note_item-high n m field l high) (rw (high, observe_item) h)
      | inr low ↦
          rw (low, observe_item)
            (elim (Bool-cases (m == n)) [
              | inl same ↦
                  subst
                    (λ k.
                      Reflects l (c.choices k)
                      → Reflects (note_item k (choice (pos m) field) l)
                          ((observe_choice c m field).choices k))
                    ((==_iff m n).0 same) (observe_choice-same c m field l low) h
              | inr apart ↦ observe_choice-other c n m field l apart h
            ])
    ]

observe_items-Reflects :
    (c : CompletionCollector) (n : ℕ) (is : List Item) (l : List Reason)
    → Reflects l (c.choices n)
    → Reflects (note_items n is l) ((observe_items c is).choices n)
unfolding observe_items note_items
observe_items-Reflects c n [] l h = h
observe_items-Reflects c n (i ∷ is) l h =
    observe_items-Reflects (observe_item c i) n is (note_item n i l)
      (observe_item-Reflects c n i l h)

-- Whatever items have been observed, a choice has a reason exactly if all the reasons that they name
-- for it are one and the same, which is that reason, and is marked as contradictory exactly if two
-- of them differ.
pub collected-Reflects :
    (is : List Item) (n : ℕ)
    → Reflects (note_items n is []) ((observe_items new_collector is).choices n)
collected-Reflects is n =
    observe_items-Reflects new_collector n is [] (record { reason = refl; conflict = refl })

verdict-available :
    (partial stream ended : Bool) (reasons : List ChoiceFinishReason) (unfinished : Bool)
    → verdict (partial || (stream && not ended)) (reasons, unfinished) ≡ available
    → (has_reasons reasons ≡ true)
      × (partial ≡ false)
      × ((not stream || ended) ≡ true)
      × (unfinished ≡ false)
unfolding verdict
verdict-available partial stream ended reasons unfinished h =
    (ground arith, ground arith, ground arith, ground arith)

-- Metadata that says available has a reason, nothing was partial, a stream was ended, and no choice
-- is seen without a reason.
metadata-available :
    (c : CompletionCollector) (stream : Bool)
    → (metadata c stream).observation ≡ available
    → (has_reasons (metadata c stream).finish_reasons ≡ true)
      × (c.partial ≡ false)
      × ((not stream || c.stream_ended) ≡ true)
      × ((reasons_from c.choices 0 max_observed_completion_choices).1 ≡ false)
unfolding metadata
metadata-available c stream h =
    let found = reasons_from c.choices 0 max_observed_completion_choices in
    verdict-available c.partial stream c.stream_ended found.0 found.1 h
