-- ===== src/Trace/Laws.antt =====
-- Copying, timing and comparing traces.
use delfos.Prelude.{
  ℕ, ◌+◌, ◌-◌, ◌*◌, ◌≤◌, ◌<◌, ◌≡◌, refl, ◌↔◌, Bool, true, arith, text_eq_sound, text_eq_refl,
}
use delfos.Trace.{RequestTrace, uint_mod, ns_per_ms, elapsed, swap, assign, equals}

module _ {J : Type 0} where
  -- Assigning gives the right-hand side whole, and swapping twice gives both traces back.
  assign-swap :
      (a b : RequestTrace J) → (assign a b ≡ b) × (let (x, y) = swap a b in swap x y ≡ (a, b))
  unfolding assign swap
  assign-swap a b = (refl, refl)

  -- The traces that agree on all but the workflow's name and the success flag.
  pub record SameRequest (a b : RequestTrace J) : Type 0 where
    pub request : a.request ≡ b.request
    pub response : a.response ≡ b.response
    pub request_timestamp : a.request_timestamp ≡ b.request_timestamp
    pub duration : a.duration ≡ b.duration
    pub guid : a.guid ≡ b.guid
    pub command : a.command ≡ b.command
    pub thread_id : a.thread_id ≡ b.thread_id

  -- `operator==`, over an equality of `WJson` that decides equality, holds exactly of the traces
  -- that agree on all but the workflow's name and the success flag: these two are never compared.
  pub equals_iff :
      (same : J → J → Bool)
      → ((x y : J) → (same x y ≡ true) ↔ (x ≡ y))
      → (a b : RequestTrace J) → (equals same a b ≡ true) ↔ SameRequest a b
  unfolding equals
  equals_iff same decides a b = (
    λ h. agree h,
    λ e. ground (
      arith,
      decides a.request b.request,
      decides a.response b.response,
      text_eq_refl b.guid,
      text_eq_refl b.command,
      text_eq_refl a.workflow_name,
      e.request,
      e.response,
      e.guid,
      e.command,
    ),
  )
    where
      agree : equals same a b ≡ true → SameRequest a b
      agree h = ground (
        arith,
        decides a.request b.request,
        decides a.response b.response,
        text_eq_sound a.guid b.guid,
        text_eq_sound a.command b.command,
      )

-- The duration of a request that took less than 2^32 ms is its length in ms, rounded down.
pub elapsed_bounds :
    (now start : ℕ)
    → start ≤ now
    → now - start < uint_mod * ns_per_ms
    → (elapsed now start * ns_per_ms ≤ now - start)
      × (now - start < (elapsed now start + 1) * ns_per_ms)
unfolding elapsed
elapsed_bounds now start h small = ground arith
