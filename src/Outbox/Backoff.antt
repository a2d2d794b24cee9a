-- ===== src/Outbox/Backoff.antt =====
-- src/outbox/domain/backoff.ts. The code computes in doubles; the model is exact, which is what
-- the doubles give below 2^53, and above it both sides of the minimum exceed any cap in use.
use estate_server.Base.{Time, arith, min, suc, ℕ, ◌*◌, ◌^◌, ◌≡◌, ◌≤◌}
use native.Mathlib.Nat.{pow-suc}

unfoldable pub compute_backoff : ℕ → Time → Time → Time
compute_backoff attempts base_ms cap_ms = min (base_ms * 2 ^ attempts) cap_ms

-- The delay never falls as failures add up, stays within the cap, and is with one failure more
-- the double, or the cap where that is less.
pub compute_backoff_bounds :
    (n : ℕ) (base cap : Time)
    → (compute_backoff n base cap ≤ compute_backoff (suc n) base cap)
      × (compute_backoff n base cap ≤ cap)
      × (compute_backoff (suc n) base cap ≡ min (2 * compute_backoff n base cap) cap)
unfolding compute_backoff
compute_backoff_bounds n base cap =
    let e : 2 ^ suc n ≡ 2 ^ n * 2 = pow-suc 2 n in
    let d : base * 2 ^ suc n ≡ base * 2 ^ n * 2 = rw e (grind arith) in
    (omega arith, omega arith, omega arith)
