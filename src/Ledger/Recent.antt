-- ===== src/Ledger/Recent.antt =====
-- `Recent` against the history of all records: the ring holds the last 64.
use paracetamol.Base.{
  ℕ, zero, suc, take, ◌-◌, ◌+◌, ◌^◌, ◌%◌, ◌≤◌, ◌<◌, false, Option, some, List, [], ◌∷◌, ◌≡◌, refl,
  ◌≢◌, arith, leb, ◌==◌, length, inl, inr, ==_refl, ap, sym, ◌∙◌, ◌⊎◌,
}
use paracetamol.Base.Int.{pos}
use paracetamol.Ledger.Usage.{Floats, RequestRecord}
use paracetamol.Ledger.Store.{
  RequestLedger, RequestLedgerEntry, slot, no_requests, add, collect, recent, least,
  recent_request_limit,
}

take-all {ℓ} : {A : Type ℓ} (xs : List A) (n : ℕ) → length xs ≤ n → take n xs ≡ xs
take-all [] zero h = refl
take-all [] (suc n) h = refl
take-all (x ∷ xs) zero h = absurd (omega arith)
take-all (x ∷ xs) (suc n) h = rw (take-all xs n (omega arith)) refl

take-bound {ℓ} :
    {A : Type ℓ} (xs : List A) (k m : ℕ)
    → (k ≡ m) ⊎ ((k ≡ length xs) × (length xs ≤ m))
    → take k xs ≡ take m xs
take-bound xs k m (inl e) = ap (λ n. take n xs) e
take-bound xs k m (inr (e, l)) = take-all xs k (omega arith) ∙ sym (take-all xs m l)

slot-apart : (n m : ℕ) → 1 ≤ n → n < m → m < n + 64 → m < 2 ^ 63 → slot n ≢ slot m
slot-apart n m h l u b e = omega arith

module _ {F : Type 0} (floats : Floats F) where
  -- the ledger behind the records of a history, which has the newest first
  unfoldable pub after : List (RequestRecord F) → RequestLedger F
  unfolding add
  after [] = no_requests floats
  after (r ∷ older) = add floats (after older) r

  pub sequence-after :
      (history : List (RequestRecord F))
      → length history < 2 ^ 63
      → (after history).sequence ≡ length history
  unfolding after add
  sequence-after [] h = refl
  sequence-after (r ∷ older) h = omega (arith, sequence-after older (omega arith))

  -- the slots of `n`, `n - 1` and so on, `b` of them, hold the records
  abbrev Holds : (ℕ → Option (RequestLedgerEntry F)) → List (RequestRecord F) → ℕ → Type 0
  Holds entries history zero = Unit
  Holds entries [] (suc b) = Unit
  Holds entries (r ∷ older) (suc b) =
      (entries (slot (suc (length older)))
        ≡ some (record { sequence = suc (length older); record_at = r }))
      × Holds entries older b

  Holds-set :
      (entries new : ℕ → Option (RequestLedgerEntry F)) (m : ℕ) (history : List (RequestRecord F))
      (b : ℕ)
      → ((i : ℕ) → i ≢ slot m → new i ≡ entries i)
      → length history < m
      → m + b ≤ length history + 64
      → m < 2 ^ 63
      → Holds entries history b
      → Holds new history b
  Holds-set entries new m history zero same l u w h = tt
  Holds-set entries new m [] (suc b) same l u w h = tt
  Holds-set entries new m (r ∷ older) (suc b) same l u w h =
      let apart = slot-apart (suc (length older)) m (omega arith) l (omega arith) w in
      let kept = same (slot (suc (length older))) apart in
      (kept ∙ h.0, Holds-set entries new m older b same (omega arith) (omega arith) w h.1)

  -- the slots that an addition leaves alone
  entries-add :
      (r : RequestRecord F) (older : List (RequestRecord F))
      → length older < 2 ^ 63
      → (i : ℕ) → i ≢ slot (suc (length older))
      → (after (r ∷ older)).entries i ≡ (after older).entries i
  unfolding after add
  entries-add r older w i other =
      let s : ((after older).sequence + 1) % 2 ^ 64 ≡ suc (length older) =
        omega (arith, sequence-after older w) in
      rw s (ground (arith, other))

  entry-add :
      (r : RequestRecord F) (older : List (RequestRecord F))
      → length older < 2 ^ 63
      → (after (r ∷ older)).entries (slot (suc (length older)))
        ≡ some (record { sequence = suc (length older); record_at = r })
  unfolding after add
  entry-add r older w =
      let s : ((after older).sequence + 1) % 2 ^ 64 ≡ suc (length older) =
        omega (arith, sequence-after older w) in
      rw s (rw (==_refl (slot (suc (length older)))) refl)

  after-Holds :
      (history : List (RequestRecord F)) (b : ℕ)
      → length history < 2 ^ 63
      → b ≤ 64
      → Holds (after history).entries history b
  after-Holds history zero w l = tt
  after-Holds [] (suc b) w l = tt
  after-Holds (r ∷ older) (suc b) w l =
      let n = suc (length older) in
      let before = after-Holds older b (omega arith) (omega arith) in
      let same = entries-add r older (omega arith) in
      (
        entry-add r older (omega arith),
        Holds-set (after older).entries (after (r ∷ older)).entries n older b same (omega arith)
            (omega arith) w before,
      )

  collect-take :
      (entries : ℕ → Option (RequestLedgerEntry F)) (history : List (RequestRecord F)) (b : ℕ)
      → b ≤ length history
      → Holds entries history b
      → collect floats entries (length history) b ≡ take b history
  unfolding collect
  collect-take entries history zero l h = refl
  collect-take entries [] (suc b) l h = absurd (omega arith)
  collect-take entries (r ∷ older) (suc b) l h =
      let rest = collect-take entries older b (omega arith) h.1 in
      let previous : suc (length older) - 1 ≡ length older = omega arith in
      rw (h.0, collect) (rw (==_refl (suc (length older))) (rw previous (ap (λ x. r ∷ x) rest)))

  -- While fewer than 2^63 records have been added, `Recent` returns the last ones, newest first: as
  -- many as the limit says, at most 64, and none for a limit of 0.
  pub recent-after :
      (history : List (RequestRecord F)) (limit : ℕ)
      → length history < 2 ^ 63
      → recent floats (after history) (pos limit)
        ≡ some (take (least limit recent_request_limit) history)
  unfolding recent
  recent-after history zero w = refl
  recent-after history (suc limit) w =
      let m = least (suc limit) recent_request_limit in
      let k = least m (least (length history) recent_request_limit) in
      let small : leb (2 ^ 63) (length history) ≡ false = ground arith in
      let low : k ≤ length history = ground arith in
      let few : k ≤ 64 = ground arith in
      let collected =
        collect-take (after history).entries history k low (after-Holds history k w few) in
      let bound : (k ≡ m) ⊎ ((k ≡ length history) × (length history ≤ m)) = ground arith in
      let positive : (suc limit == 0) ≡ false = ground arith in
      rw positive (
        rw (sequence-after history w)
          (rw small (ap some (collected ∙ take-bound history k m bound))))
