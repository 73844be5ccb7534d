-- ===== src/Prelude/Words.antt =====
-- `u64` counters: `fetch_add(1)` and `fetch_sub(1)` wrap around.
use Prim.Native.Nat.{ℕ, ◌+◌, ◌-◌, ◌%◌, ◌^◌}

abbrev pub incr : ℕ → ℕ
incr n = (n + 1) % 2 ^ 64

abbrev pub decr : ℕ → ℕ
decr n = (n + (2 ^ 64 - 1)) % 2 ^ 64
