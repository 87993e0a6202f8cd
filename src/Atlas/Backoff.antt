-- ===== src/Atlas/Backoff.antt =====
-- atlas/stream_strategy_worker.go, `getRetryDelay`: exponential backoff with jitter, in int64
-- nanoseconds. The random draw of `rand.Int63n` is an argument.
pub mod Bounds
use atlas_exporter.Prelude.{ℕ, ◌+◌, ◌-◌, ◌*◌, ◌%◌, ◌^◌, if◌then◌else◌, ltb}
use atlas_exporter.Prelude.Int.{ℤ, pos, negsuc, pos_part, ◌+ℤ◌, ◌-ℤ◌, ltb_ℤ, quot_ℕ}
use atlas_exporter.Prelude.Outcome.{Outcome, done, panic, ◌>>=◌}

abbrev pub second : ℕ
second = 1000000000

abbrev pub min_retry_delay : ℕ
min_retry_delay = 1 * second

abbrev pub max_retry_delay : ℕ
max_retry_delay = 60 * second

-- The int64 with the bit pattern n % 2 ^ 64.
unfoldable pub int64 : ℕ → ℤ
int64 n = let m = n % 2 ^ 64 in if ltb m (2 ^ 63) then pos m else negsuc (2 ^ 64 - 1 - m)

-- rand.Int63n: a number in [0, n), and a panic unless 0 < n.
unfoldable pub int63n : ℤ → ℕ → Outcome ℤ
int63n n draw = if ltb_ℤ (pos 0) n then done (pos (draw % pos_part n)) else panic

-- minRetryDelay * time.Duration(1<<uint(retryAttempt)), with both wrap-arounds, and the cap.
unfoldable pub capped_delay : ℕ → ℤ
unfolding int64
capped_delay retry_attempt =
    let delay = int64 (min_retry_delay * (2 ^ retry_attempt % 2 ^ 64)) in
    if ltb_ℤ (pos max_retry_delay) delay then pos max_retry_delay else delay

unfoldable pub get_retry_delay : ℕ → ℕ → Outcome ℤ
unfolding int63n
get_retry_delay retry_attempt draw = do
  let delay = capped_delay retry_attempt
  jitter ← int63n (quot_ℕ delay 2) draw
  done (delay +ℤ jitter -ℤ quot_ℕ delay 4)
