-- ===== src/Podman/Holds.antt =====
-- Postconditions of computations that call the outside: one for the value and one for the error.
use paracetamol.Base.{Bool, true, false, ◌≡◌, refl, if◌then◌else◌}
use paracetamol.Base.Result.{Result, ok, err}
use paracetamol.Podman.Machine.{ControlError, Machine, Action, ◌>>=◌, fail_if}

pub data Holds {A : Type 0} (Q : A → Machine → Type 0) (R : ControlError → Machine → Type 0)
    : Result ControlError A → Machine → Type 0 where
  returns : {a : A} {m : Machine} → Q a m → Holds Q R (ok a) m
  raises : {e : ControlError} {m : Machine} → R e m → Holds Q R (err e) m

-- `action` run from `m`
abbrev pub After :
    {A : Type 0}
    → (A → Machine → Type 0)
    → (ControlError → Machine → Type 0)
    → Action A
    → Machine
    → Type 0
After Q R action m = Holds Q R (action m).0 (action m).1

module _ {A B : Type 0} where
  bind_result :
      {Q : A → Machine → Type 0} {Q' : B → Machine → Type 0} {R : ControlError → Machine → Type 0}
      (r : Result ControlError A) (m : Machine) (next : A → Action B)
      → Holds Q R r m
      → ((a : A) (m' : Machine) → Q a m' → After Q' R (next a) m')
      → After Q' R (λ m'. elim r [ ok a ↦ next a m' | err e ↦ (err e, m') ]) m
  bind_result (ok a) m next (returns q) k = k a m q
  bind_result (err e) m next (raises q) k = raises q

  pub bind-After :
      {Q : A → Machine → Type 0} {Q' : B → Machine → Type 0} {R : ControlError → Machine → Type 0}
      (action : Action A) (next : A → Action B) (m : Machine)
      → After Q R action m
      → ((a : A) (m' : Machine) → Q a m' → After Q' R (next a) m')
      → After Q' R (action >>= next) m
  bind-After action next m h k = bind_result (action m).0 (action m).1 next h k

module _ {A : Type 0} {Q : A → Machine → Type 0} {R : ControlError → Machine → Type 0} where
  pub if-After :
      (b : Bool) (x y : Action A) (m : Machine)
      → (b ≡ true → After Q R x m)
      → (b ≡ false → After Q R y m)
      → After Q R (if b then x else y) m
  if-After true x y m h k = h refl
  if-After false x y m h k = k refl

pub fail_if-After :
    {Q : Unit {0} → Machine → Type 0} {R : ControlError → Machine → Type 0} (test : Bool)
    (e : ControlError) (m : Machine)
    → (test ≡ true → R e m)
    → (test ≡ false → Q tt m)
    → After Q R (fail_if test e) m
fail_if-After true e m h k = raises (h refl)
fail_if-After false e m h k = returns (k refl)

module _ {A : Type 0} where
  pub weaken :
      {Q Q' : A → Machine → Type 0} {R R' : ControlError → Machine → Type 0}
      (r : Result ControlError A) (m : Machine)
      → ((a : A) → Q a m → Q' a m)
      → ((e : ControlError) → R e m → R' e m)
      → Holds Q R r m
      → Holds Q' R' r m
  weaken (ok a) m f g (returns q) = returns (f a q)
  weaken (err e) m f g (raises q) = raises (g e q)
