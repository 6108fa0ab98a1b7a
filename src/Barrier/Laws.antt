-- ===== src/Barrier/Laws.antt =====
-- Countdowns of the barrier of utils/Barrier.h.
use delfos.Prelude.{ℕ, zero, suc, ◌+◌, ◌-◌, ◌<◌, ◌≤◌, ◌≡◌, refl, true, false, arith, ◌==◌}
use delfos.Barrier.{Barrier, size_mod, set, increment, passes}

pub increments : ℕ → Barrier → Barrier
increments zero b = b
increments (suc k) b = increments k (increment b)

increment_step :
    (b : Barrier) → 0 < b.count → b.count < size_mod → (increment b).count ≡ b.count - 1
unfolding increment
increment_step b p h = omega arith

increment_woken : (b : Barrier) → 1 < b.count → b.count < size_mod → (increment b).woken ≡ b.woken
unfolding increment
increment_woken b p h = ground arith

increments_count :
    (k : ℕ) (b : Barrier) → k ≤ b.count → b.count < size_mod → (increments k b).count ≡ b.count - k
unfolding increments
increments_count zero b h w = omega arith
increments_count (suc k) b h w =
    let e = increment_step b (omega arith) w in
    omega (arith, increments_count k (increment b) (omega arith) (omega arith))

increments_woken :
    (k : ℕ) (b : Barrier) → k < b.count → b.count < size_mod → (increments k b).woken ≡ b.woken
unfolding increments
increments_woken zero b h w = refl
increments_woken (suc k) b h w =
    let e = increment_step b (omega arith) w in
    let f = increment_woken b (omega arith) w in
    omega (arith, increments_woken k (increment b) (omega arith) (omega arith))

-- After `set(n)`, for n below 2^64, a waiting `wait` passes after n increments and after no fewer:
-- k increments leave the count at n - k, for k up to n, and nobody is notified before the last.
pub passes-increments :
    (n k : ℕ) (b : Barrier)
    → n < size_mod
    → k ≤ n
    → ((increments k (set n b)).count ≡ n - k)
      × (passes (increments k (set n b)) ≡ (k == n))
      × (k < n → (increments k (set n b)).woken ≡ b.woken)
unfolding set passes
passes-increments n k b small h =
    let e = increments_count k (set n b) (omega arith) (omega arith) in
    (omega arith, ground arith, λ lt. increments_woken k (set n b) (omega arith) (omega arith))

-- The last of n increments notifies the waiting thread once, for n from 1 to 2^64 - 1.
pub increments_notify :
    (n : ℕ) (b : Barrier)
    → suc n < size_mod
    → (increment (increments n (set (suc n) b))).woken ≡ b.woken + 1
unfolding set increment
increments_notify n b small =
    let e = increments_count n (set (suc n) b) (omega arith) (omega arith) in
    let w = increments_woken n (set (suc n) b) (omega arith) (omega arith) in ground arith

-- One increment too many closes the barrier again: the count wraps to 2^64 - 1.
pub increment_wraps :
    (b : Barrier)
    → passes b ≡ true
    → (passes (increment b) ≡ false) × ((increment b).count ≡ size_mod - 1)
unfolding passes increment
increment_wraps b h = ground arith
