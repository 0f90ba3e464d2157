-- ===== src/Statistics/Wrapping.antt =====
-- Sums and differences of the atomic counts, which wrap at 2^64.
use paracetamol.Base.{ℕ, ◌+◌, ◌-◌, ◌^◌, ◌≤◌, ◌<◌, ◌≡◌, arith}
use paracetamol.Statistics.Queue.{uint64, difference}

pub add_one : (p : ℕ) → p + 1 < 2 ^ 64 → uint64 (p + 1) ≡ p + 1
add_one p h = omega arith

pub add_back : (p : ℕ) → p < 2 ^ 64 → uint64 (uint64 (p + 1) + (2 ^ 64 - 1)) ≡ p
add_back p h = omega arith

pub take_away : (p b q : ℕ) → p ≡ b + q → p < 2 ^ 64 → difference p b ≡ q
take_away p b q e h = omega arith

pub more_lost :
    (d p n : ℕ)
    → d < 2 ^ 64
    → p < 2 ^ 64
    → difference d p + n < 2 ^ 64
    → difference (uint64 (d + n)) p ≡ difference d p + n
more_lost d p n hd hp h = omega arith

pub after_commit :
    (d c r : ℕ)
    → d < 2 ^ 64
    → c < 2 ^ 64
    → r < 2 ^ 64
    → difference (uint64 (d + difference r c)) r ≡ difference d c
after_commit d c r hd hc hr = omega arith

pub told :
    (d c p : ℕ)
    → d < 2 ^ 64
    → c < 2 ^ 64
    → p < 2 ^ 64
    → difference d c ≤ difference d p
    → difference c p + difference d c ≡ difference d p
told d c p hd hc hp h = omega arith

pub same_difference : (d : ℕ) → d < 2 ^ 64 → difference d d ≡ 0
same_difference d h = omega arith
