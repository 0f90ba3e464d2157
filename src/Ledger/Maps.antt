-- ===== src/Ledger/Maps.antt =====
-- The association lists of the ledger as maps.
use paracetamol.Base.{
  suc, ◌≤◌, true, false, none, some, [], ◌∷◌, ◌≡◌, refl, arith, ◌==◌, ap, length, Bool-cases, inl,
  inr, ==_refl, ==_iff, ◌∙◌, is_some, All,
}
use paracetamol.Text.{Text, equal}
use paracetamol.Ledger.Store.{Assoc, lookup, remove_key, insert}

pub equal_refl : (s : Text) → equal s s ≡ true
unfolding equal
equal_refl [] = refl
equal_refl (x ∷ xs) = rw (==_refl x) (equal_refl xs)

pub equal→≡ : (s t : Text) → equal s t ≡ true → s ≡ t
unfolding equal
equal→≡ [] [] h = refl
equal→≡ [] (y ∷ ys) h = cc
equal→≡ (x ∷ xs) [] h = cc
equal→≡ (x ∷ xs) (y ∷ ys) h = elim (Bool-cases (x == y)) [
  | inl e ↦ rw ((==_iff x y).0 e) (rw (equal→≡ xs ys (ground (arith, h, e))) refl)
  | inr e ↦ absurd (ground (arith, h, e))
]

module _ {A : Type 0} where
  pub lookup-remove_same : (k : Text) (m : Assoc A) → lookup k (remove_key k m) ≡ none
  unfolding lookup remove_key
  lookup-remove_same k [] = refl
  lookup-remove_same k ((l, v) ∷ rest) = ground (arith, lookup-remove_same k rest)

  pub lookup-remove_other :
      (k l : Text) (m : Assoc A) → equal l k ≡ false → lookup k (remove_key l m) ≡ lookup k m
  unfolding lookup remove_key
  lookup-remove_other k l [] h = refl
  lookup-remove_other k l ((j, v) ∷ rest) h =
      let ih = lookup-remove_other k l rest h in
      elim (Bool-cases (equal j l)) [
        | inl same ↦
            let apart : equal j k ≡ false = ap (λ (x : Text). equal x k) (equal→≡ j l same) ∙ h in
            rw same (rw apart ih)
        | inr other ↦ ground (arith, ih)
      ]

  pub lookup-insert_same : (k : Text) (v : A) (m : Assoc A) → lookup k (insert k v m) ≡ some v
  unfolding lookup insert
  lookup-insert_same k v m = rw (equal_refl k) refl

  pub lookup-insert_other :
      (k l : Text) (v : A) (m : Assoc A) → equal l k ≡ false → lookup k (insert l v m) ≡ lookup k m
  unfolding lookup insert
  lookup-insert_other k l v m h = rw h (lookup-remove_other k l m h)

  pub length-remove_key : (k : Text) (m : Assoc A) → length (remove_key k m) ≤ length m
  unfolding remove_key
  length-remove_key k [] = omega arith
  length-remove_key k ((l, v) ∷ rest) = ground (arith, length-remove_key k rest)

  -- a key that is there is taken away
  pub length-remove_found :
      (k : Text) (m : Assoc A)
      → is_some (lookup k m) ≡ true
      → suc (length (remove_key k m)) ≤ length m
  unfolding lookup remove_key
  length-remove_found k [] h = cc
  length-remove_found k ((l, v) ∷ rest) h =
      ground (arith, length-remove_key k rest, length-remove_found k rest)

  -- no key stands twice
  abbrev pub IsMap : Assoc A → Type 0
  IsMap m = elim m [ [] ↦ Unit | (k, v) ∷ (rest → holds) ↦ (lookup k rest ≡ none) × holds ]

  pub lookup-remove_absent :
      (k l : Text) (m : Assoc A) → lookup k m ≡ none → lookup k (remove_key l m) ≡ none
  lookup-remove_absent k l m h = elim (Bool-cases (equal l k)) [
    | inl same ↦ rw (equal→≡ l k same) (lookup-remove_same k m)
    | inr other ↦ lookup-remove_other k l m other ∙ h
  ]

  pub remove_key-IsMap : (l : Text) (m : Assoc A) → IsMap m → IsMap (remove_key l m)
  unfolding remove_key
  remove_key-IsMap l [] h = tt
  remove_key-IsMap l ((k, v) ∷ rest) h =
      let ih = remove_key-IsMap l rest h.1 in
      elim (Bool-cases (equal k l)) [
        | inl same ↦ rw same ih
        | inr other ↦ rw other (lookup-remove_absent k l rest h.0, ih)
      ]

  pub insert-IsMap : (k : Text) (v : A) (m : Assoc A) → IsMap m → IsMap (insert k v m)
  unfolding insert
  insert-IsMap k v m h = (lookup-remove_same k m, remove_key-IsMap k m h)

  -- what holds of every entry holds of those that stay
  pub All-remove_key {κ} :
      (P : Text × A → Type κ) (k : Text) (m : Assoc A) → All P m → All P (remove_key k m)
  unfolding remove_key
  All-remove_key P k [] h = tt
  All-remove_key P k ((l, v) ∷ rest) h =
      let ih = All-remove_key P k rest h.1 in
      elim (Bool-cases (equal l k)) [ inl same ↦ rw same ih | inr other ↦ rw other (h.0, ih) ]
