-- ===== src/Prelude/Differences.antt =====
-- Differences of two times or counters, which can be negative.
use Prim.Native.Nat.{ℕ, ◌-◌}
use tellyq.Prelude.Tests.{leb, if◌then◌else◌}

pub data ℤ : Type 0 where
  pos negsuc : ℕ → ℤ

abbrev pub difference : ℕ → ℕ → ℤ
difference a b = if leb b a then ℤ.pos (a - b) else ℤ.negsuc (b - a - 1)
