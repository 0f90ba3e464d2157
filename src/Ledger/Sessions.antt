-- ===== src/Ledger/Sessions.antt =====
-- The sessions of `addUsage`: at most 64 are kept, and a new one takes the place of the one used
-- least recently. Also the bound of `Track`.
use paracetamol.Base.{
  ℕ, suc, ◌+◌, ◌≤◌, ◌<◌, ◌^◌, Option, none, some, List, [], ◌∷◌, ◌≡◌, refl, ◌⊎◌, arith, ltb, ◌==◌,
  length, Bool-cases, Option-cases, inl, inr, ap, All, ltb→lt, ==_iff, ◌%◌,
}
use paracetamol.Text.{Text, equal, is_empty}
use paracetamol.Ledger.Usage.{Floats, RequestRecord, max_uint64}
use paracetamol.Ledger.Store.{
  Assoc, SessionLedgerEntry, lookup, insert, remove_key, oldest, evict, add_session, add,
  recent_session_limit,
}
use paracetamol.Ledger.Maps.{
  equal_refl, equal→≡, IsMap, remove_key-IsMap, All-remove_key, length-remove_key,
  length-remove_found, lookup-remove_same,
}
use paracetamol.Ledger.Recent.{after, sequence-after}

module _ {F : Type 0} where
  -- every session in the map was used at `least` or later
  abbrev AllFrom : ℕ → Assoc (SessionLedgerEntry F) → Type 0
  AllFrom least m = All (λ e. least ≤ e.1.last_sequence) m

  -- the scan finds a key of the map, with the least number in it, or keeps what it has
  oldest-AllFrom :
      (m : Assoc (SessionLedgerEntry F)) (best : Text × ℕ) {out : Text × ℕ}
      → oldest m best ≡ out
      → (out.1 ≤ best.1) × AllFrom out.1 m
  unfolding oldest
  oldest-AllFrom [] best e = (rw e (omega arith), tt)
  oldest-AllFrom ((k, s) ∷ rest) (id, least) e = elim (Bool-cases (ltb s.last_sequence least)) [
    | inl lower ↦
        let ih = oldest-AllFrom rest (k, s.last_sequence) (rw (lower, oldest) at e) in
        (omega (arith, ltb→lt s.last_sequence least lower, ih.0), (ih.0, ih.1))
    | inr higher ↦
        let ih = oldest-AllFrom rest (id, least) (rw (higher, oldest) at e) in
        let order : least ≤ s.last_sequence = ground (arith, higher) in
        (ih.0, (omega (arith, ih.0, order), ih.1))
  ]

  here :
      (k : Text) (s : SessionLedgerEntry F) (rest : Assoc (SessionLedgerEntry F))
      → lookup k ((k, s) ∷ rest) ≡ some s
  unfolding lookup
  here k s rest = rw (equal_refl k) refl

  -- the entry of the map that the pair names
  abbrev Found : Assoc (SessionLedgerEntry F) → Text × ℕ → Type 0
  Found m (id, least) =
      (s : SessionLedgerEntry F) × (lookup id m ≡ some s) × (s.last_sequence ≡ least)

  Found-cons :
      (k : Text) (s : SessionLedgerEntry F) (rest : Assoc (SessionLedgerEntry F)) (best : Text × ℕ)
      → lookup k rest ≡ none
      → Found rest best
      → Found ((k, s) ∷ rest) best
  unfolding lookup
  Found-cons k s rest (id, least) absent (t, here, at) = elim (Bool-cases (equal k id)) [
    | inl same ↦
        let none_here = ap (λ (x : Text). lookup x rest) (equal→≡ k id same) in
        absurd (ground (arith, none_here, here, absent))
    | inr other ↦ (t, (rw other here), at)
  ]

  oldest-Found :
      (m : Assoc (SessionLedgerEntry F)) (best : Text × ℕ)
      → IsMap m
      → (oldest m best ≡ best) ⊎ Found m (oldest m best)
  unfolding oldest
  oldest-Found [] best d = inl refl
  oldest-Found ((k, s) ∷ rest) (id, least) d = elim (Bool-cases (ltb s.last_sequence least)) [
    | inl lower ↦ rw lower (elim (oldest-Found rest (k, s.last_sequence) d.1) [
      | inl same ↦ rw same (inr (s, here k s rest, refl))
      | inr found ↦ inr (Found-cons k s rest (oldest rest (k, s.last_sequence)) d.0 found)
    ])
    | inr higher ↦ rw higher (elim (oldest-Found rest (id, least) d.1) [
      | inl same ↦ inl same
      | inr found ↦ inr (Found-cons k s rest (oldest rest (id, least)) d.0 found)
    ])
  ]

  -- what the sessions of a ledger satisfy behind `n` additions
  pub record IsKept (n : ℕ) (m : Assoc (SessionLedgerEntry F)) : Type 0 where
    pub few : length m ≤ recent_session_limit
    pub once : IsMap m
    pub used : All (λ e. e.1.last_sequence ≤ n) m

  never_full :
      (m : Assoc (SessionLedgerEntry F)) {n : ℕ}
      → length m ≡ recent_session_limit
      → n < max_uint64
      → AllFrom max_uint64 m
      → All (λ e. e.1.last_sequence ≤ n) m
      → ⊥
  never_full [] full small late early = ground arith
  never_full ((k, s) ∷ rest) full small late early = omega (arith, late.0, early.0)

  -- what a full map loses for a new session
  abbrev pub Oldest : Assoc (SessionLedgerEntry F) → Type 0
  Oldest m =
      (id : Text) × (s : SessionLedgerEntry F) × (lookup id m ≡ some s)
      × AllFrom s.last_sequence m
      × (evict none m ≡ remove_key id m)

  -- A full map makes room for a new session by the removal of one that is there and was used least
  -- recently.
  evict-Found :
      (m : Assoc (SessionLedgerEntry F)) (n : ℕ)
      → length m ≡ recent_session_limit
      → n < max_uint64
      → IsKept n m
      → Oldest m
  unfolding evict
  evict-Found m n full small good =
      let best = oldest m ([], max_uint64) in
      let all = oldest-AllFrom m ([], max_uint64) refl in
      elim (oldest-Found m ([], max_uint64) good.once) [
        | inl nobody ↦ absurd (never_full m full small (rw nobody at all.1) good.used)
        | inr (s, found, at) ↦ (best.0, s, found, rw at all.1, rw full refl)
      ]

  evict-IsKept :
      (found : Option (SessionLedgerEntry F)) (m : Assoc (SessionLedgerEntry F)) (n : ℕ)
      → IsKept n m
      → IsKept n (evict found m)
  unfolding evict
  evict-IsKept (some s) m n good = good
  evict-IsKept none m n good = elim (Bool-cases (length m == recent_session_limit)) [
    | inr room ↦ rw room good
    | inl full ↦
        let id = (oldest m ([], max_uint64)).0 in
        rw full (record {
          few = omega (arith, length-remove_key id m, good.few);
          once = remove_key-IsMap id m good.once;
          used = All-remove_key (λ e. e.1.last_sequence ≤ n) id m good.used;
        })
  ]

  -- whichever session it is, there is room for it then
  evict-room :
      (id : Text) (m : Assoc (SessionLedgerEntry F)) (n : ℕ)
      → n < max_uint64
      → IsKept n m
      → length (remove_key id (evict (lookup id m) m)) < recent_session_limit
  unfolding evict remove_key
  evict-room id m n small good = elim (Option-cases (lookup id m)) [
    | inr (s, found) ↦
        rw found (unfold evict in omega (arith, good.few, length-remove_found id m (rw found refl)))
    | inl absent ↦ rw absent (elim (Bool-cases (length m == recent_session_limit)) [
      | inl full ↦
          let (k, s, found, from, same) =
            evict-Found m n ((==_iff (length m) 64).0 full) small good in
          rw same (
            omega (
              arith,
              good.few,
              length-remove_key id (remove_key k m),
              length-remove_found k m (rw found refl),
            ))
      | inr room ↦ rw (room, evict) (ground (arith, room, good.few, length-remove_key id m))
    ])
  ]

  used-suc :
      (n : ℕ) (m : Assoc (SessionLedgerEntry F))
      → All (λ e. e.1.last_sequence ≤ n) m
      → All (λ e. e.1.last_sequence ≤ suc n) m
  used-suc n [] h = tt
  used-suc n (e ∷ rest) h = (omega (arith, h.0), used-suc n rest h.1)

module _ {F : Type 0} (floats : Floats F) where
  add_session-IsKept :
      (m : Assoc (SessionLedgerEntry F)) (r : RequestRecord F) (n : ℕ)
      → n < max_uint64
      → IsKept n m
      → IsKept (suc n) (add_session floats m (suc n) r)
  unfolding add_session insert
  add_session-IsKept m r n small good = elim (Bool-cases (is_empty r.session_id)) [
    | inl empty ↦
        rw empty (record { few = good.few; once = good.once; used = used-suc n m good.used })
    | inr named ↦
        let id = r.session_id in
        let kept = evict-IsKept (lookup id m) m n good in
        let rest = evict (lookup id m) m in
        rw named (record {
          few = evict-room id m n small good;
          once = (lookup-remove_same id rest, remove_key-IsMap id rest kept.once);
          used = (
            omega arith,
            used-suc n (remove_key id rest)
                (All-remove_key (λ e. e.1.last_sequence ≤ n) id rest kept.used),
          );
        })
  ]

  -- While fewer than 2^63 records have been added, at most 64 sessions are kept, none twice, and the
  -- sequence number of each is at most the number of records.
  pub sessions-IsKept :
      (history : List (RequestRecord F))
      → length history < 2 ^ 63
      → IsKept (length history) (after floats history).sessions
  unfolding after add
  sessions-IsKept [] w = record { few = omega arith; once = tt; used = tt }
  sessions-IsKept (r ∷ older) w =
      let s : ((after floats older).sequence + 1) % 2 ^ 64 ≡ suc (length older) =
        omega (arith, sequence-after floats older (omega arith)) in
      rw s (
        add_session-IsKept (after floats older).sessions r (length older) (omega arith)
          (sessions-IsKept older (omega arith)))

  -- Once 64 sessions are kept, a new one takes the place of a session that is there and was used
  -- least recently.
  evict-Oldest :
      (history : List (RequestRecord F))
      → length history < 2 ^ 63
      → length (after floats history).sessions ≡ recent_session_limit
      → Oldest (after floats history).sessions
  evict-Oldest history w full =
      evict-Found (after floats history).sessions (length history) full (omega arith)
        (sessions-IsKept history w)
