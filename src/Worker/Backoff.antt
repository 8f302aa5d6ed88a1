-- ===== src/Worker/Backoff.antt =====
-- The waits between two attempts of deliverWithRetry (internal/worker/pool.go).
use pulse_notify.Prelude.{
  holds_below, holds_below_lem, ℕ, suc, ◌*◌, ◌^◌, ◌<◌, ℤ, pos, negsuc, ◌≡◌, refl, Bool, true, false,
  arith, ◌==◌,
}
use pulse_notify.Worker.Pool.{backoff}

equals : ℤ → ℤ → Bool
equals (pos m) (pos n) = m == n
equals (negsuc m) (negsuc n) = m == n
equals _ _ = false

equals_sound : (a b : ℤ) → equals a b ≡ true → a ≡ b
unfolding equals
equals_sound (pos m) (pos n) h = ground arith
equals_sound (negsuc m) (negsuc n) h = ground arith
equals_sound _ _ h = cc

backoff_table : holds_below (λ a. equals (backoff (suc a)) (pos (2 ^ a * 100000000))) 37 ≡ true
unfolding holds_below equals backoff
backoff_table = refl

-- Up to the attempt 37 the wait after attempt a + 1 is 2^a times 100 ms, with no overflow.
pub backoff-exact : (a : ℕ) → a < 37 → backoff (suc a) ≡ pos (2 ^ a * 100000000)
backoff-exact a h = equals_sound _ _ (holds_below_lem _ 37 a h backoff_table)
