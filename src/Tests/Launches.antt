-- ===== src/Tests/Launches.antt =====
-- The launch of five workflows, and the check of a PBX that answers the third ping.
use delfos.Prelude.{ℕ, ◌+◌, ◌<◌, ◌≡◌, ◌↔◌, Bool, true, arith, length, ◌==◌}
use delfos.Barrier.{Barrier, set, passes}
use delfos.Barrier.Laws.{increments}
use delfos.Launch.{Numbers, launch_all, total_agents, enzo_pbx_check_retry, check_pbx_running}
use delfos.Launch.Partition.{positions, range, positions-launch_all, passes-launch_all}
use delfos.Launch.Pbx.{before, check_pbx_running_iff}

abbrev numbers : Numbers
numbers = record {
  agent_n_agents = 2;
  cmn_n_agents = 1;
  iv_n_agents = 0;
  inbound_n_agents = 0;
  scheduled_n_agents = 1;
  expired_n_agents = 0;
  delfosnar_n_agents = 1;
}

abbrev barrier : Barrier
barrier = record { count = 0; woken = 0 }

positions-launch_all_example : positions (launch_all numbers) ≡ range 0 (total_agents numbers)
positions-launch_all_example = positions-launch_all numbers (omega arith)

passes-launch_all_example :
    passes (increments (length (launch_all numbers)) (set (total_agents numbers) barrier)) ≡ true
passes-launch_all_example = passes-launch_all numbers barrier (omega arith)

-- The state counts the pings.
abbrev ping : ℕ → Bool × ℕ
ping n = (n == 2, n + 1)

abbrev sleep : ℕ → ℕ → ℕ
sleep seconds n = n

check_pbx_running_iff_example :
    ((check_pbx_running ping sleep 0).0 ≡ true)
    ↔ ((k : ℕ) × (k < enzo_pbx_check_retry) × ((ping (before ping sleep k 0)).0 ≡ true))
check_pbx_running_iff_example = check_pbx_running_iff ping sleep 0
