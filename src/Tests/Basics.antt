-- ===== src/Tests/Basics.antt =====
-- The barrier and the traces at concrete values.
use delfos.Prelude.{
  ◌+◌, ◌-◌, ◌*◌, ℕ, ◌≤◌, ◌<◌, ◌≡◌, refl, ◌↔◌, true, false, codes, ◌==◌, arith, ==_iff,
}
use delfos.Barrier.{Barrier, size_mod, set, increment, passes}
use delfos.Barrier.Laws.{increments, passes-increments, increments_notify, increment_wraps}
use delfos.Trace.{RequestTrace, ns_per_ms, elapsed, equals}
use delfos.Trace.Laws.{SameRequest, equals_iff, elapsed_bounds}

abbrev closed : Barrier
closed = record { count = 4; woken = 0 }

passes-increments_example :
    ((increments 2 (set 3 closed)).count ≡ 1)
    × (passes (increments 2 (set 3 closed)) ≡ false)
    × (2 < 3 → (increments 2 (set 3 closed)).woken ≡ 0)
passes-increments_example = passes-increments 3 2 closed (omega arith) (omega arith)

increments_notify_example : (increment (increments 2 (set 3 closed))).woken ≡ 1
increments_notify_example = increments_notify 2 closed (omega arith)

abbrev opened : Barrier
opened = record { count = 0; woken = 1 }

opened-passes : passes opened ≡ true
unfolding passes
opened-passes = refl

increment_wraps_example :
    (passes (increment opened) ≡ false) × ((increment opened).count ≡ size_mod - 1)
increment_wraps_example = increment_wraps opened opened-passes

abbrev sent : RequestTrace ℕ
sent = record {
  request = 1;
  response = 2;
  request_timestamp = 5;
  duration = 7;
  guid = codes "g";
  command = codes "login";
  thread_id = 3;
  workflow_name = codes "cmn";
  success = true;
}

abbrev failed : RequestTrace ℕ
failed = record sent { workflow_name = codes "agent"; success = false }

equals_iff_example : (equals (λ x y. x == y) sent failed ≡ true) ↔ SameRequest sent failed
equals_iff_example = equals_iff (λ x y. x == y) ==_iff sent failed

elapsed_bounds_example :
    (elapsed 7_500_000 5 * ns_per_ms ≤ 7_500_000 - 5)
    × (7_500_000 - 5 < (elapsed 7_500_000 5 + 1) * ns_per_ms)
elapsed_bounds_example = elapsed_bounds 7_500_000 5 (omega arith) (omega arith)
