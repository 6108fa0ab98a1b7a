-- ===== src/Launch/Pbx.antt =====
-- When the check of the PBX succeeds.
use delfos.Prelude.{ℕ, zero, suc, ◌<◌, ◌≡◌, ◌↔◌, Bool, true, arith, Bool-cases, inl, inr}
use delfos.Launch.{
  enzo_pbx_check_retry, enzo_pbx_check_period_seconds, check_rounds, check_pbx_running,
}

module _ {S : Type 0} (ping : S → Bool × S) (sleep : ℕ → S → S) where
  -- The state in which the n-th ping is sent, if no earlier one was answered.
  abbrev pub before : ℕ → S → S
  before zero s = s
  before (suc n) s = before n (sleep enzo_pbx_check_period_seconds (ping s).1)

  rounds_found :
      (n k : ℕ) (s : S)
      → k < n
      → (ping (before k s)).0 ≡ true
      → (check_rounds ping sleep n s).0 ≡ true
  unfolding check_rounds
  rounds_found zero k s lt h = elim lt [ ]
  rounds_found (suc n) zero s lt h = ground arith
  rounds_found (suc n) (suc k) s lt h =
      let later =
        rounds_found n k (sleep enzo_pbx_check_period_seconds (ping s).1) (omega arith) h in
      ground (arith, later)

  rounds_answered :
      (n : ℕ) (s : S)
      → (check_rounds ping sleep n s).0 ≡ true
      → (k : ℕ) × (k < n) × ((ping (before k s)).0 ≡ true)
  unfolding check_rounds
  rounds_answered zero s h = cc
  rounds_answered (suc n) s h = elim (Bool-cases (ping s).0) [
    | inl answered ↦ (0, omega arith, answered)
    | inr silent ↦
        let (k, lt, e) =
          rounds_answered n (sleep enzo_pbx_check_period_seconds (ping s).1) (ground arith) in
        (suc k, omega arith, e)
  ]

  -- The check succeeds exactly if one of the first ten pings is answered, each sent three seconds
  -- after the last.
  pub check_pbx_running_iff :
      (s : S)
      → ((check_pbx_running ping sleep s).0 ≡ true)
        ↔ ((k : ℕ) × (k < enzo_pbx_check_retry) × ((ping (before k s)).0 ≡ true))
  unfolding check_pbx_running
  check_pbx_running_iff s = (
    rounds_answered enzo_pbx_check_retry s,
    λ (k, lt, e). rounds_found enzo_pbx_check_retry k s lt e,
  )
