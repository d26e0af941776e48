-- ===== src/Base/Words.antt =====
-- Atomic counters of 64 bits (`AtomicU64`, and `AtomicUsize` on the 64-bit targets).
use Prim.Native.Nat.{ℕ, ◌+◌, ◌-◌, ◌%◌, ◌^◌}
use mathlib.Core.Bool.{Bool, false}
use browser_hive_rs.Base.Tests.{◌==◌}

abbrev pub u64_mod : ℕ
u64_mod = 2 ^ 64

-- `fetch_add` and `fetch_sub` wrap around.
abbrev pub fetch_add : ℕ → ℕ → ℕ
fetch_add n k = (n + k) % u64_mod

abbrev pub fetch_sub : ℕ → ℕ → ℕ
fetch_sub n k = (n + u64_mod - k) % u64_mod

-- Signed integers; `negsuc n` is -(n + 1).
pub data ℤ : Type 0 where
  pos negsuc : ℕ → ℤ

abbrev pub int_eq : ℤ → ℤ → Bool
int_eq (pos a) (pos b) = a == b
int_eq (negsuc a) (negsuc b) = a == b
int_eq _ _ = false
