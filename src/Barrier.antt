-- ===== src/Barrier.antt =====
-- utils/Barrier.h: `we::Barrier`, a countdown on which `main` waits for the workflows.
pub mod Laws
use delfos.Prelude.{ℕ, ◌+◌, ◌-◌, ◌%◌, ◌^◌, Bool, true, false, ◌==◌}

-- `std::size_t`
abbrev pub size_mod : ℕ
size_mod = 2 ^ 64

-- `woken` counts the calls of `_cv.notify_all()`.
pub record Barrier : Type 0 where
  pub count : ℕ
  pub woken : ℕ

-- `explicit Barrier(std::size_t count=0)`
unfoldable pub make : ℕ → Barrier
make n = record { count = n % size_mod; woken = 0 }

unfoldable pub set : ℕ → Barrier → Barrier
set n b = record b { count = n % size_mod }

-- `--_count` on an unsigned number wraps at 0.
unfoldable pub increment : Barrier → Barrier
increment b =
    let count' = (b.count + size_mod - 1) % size_mod in
    record { count = count'; woken = elim (count' == 0) [ true ↦ b.woken + 1 | false ↦ b.woken ] }

-- The predicate under which `_cv.wait` lets `wait` return.
unfoldable pub passes : Barrier → Bool
passes b = b.count == 0
