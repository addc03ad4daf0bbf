-- ===== src/Base/Int.antt =====
-- Integers, for instants that may lie before the epoch; `negsuc n` is -(n + 1).
use Prim.Native.Nat.{ℕ, ◌+◌}
use mathlib.Core.Bool.{Bool, false}
use ssh_mcp_pro.Base.Tests.{ltb}

pub data ℤ : Type 0 where
  pos : ℕ → ℤ
  negsuc : ℕ → ℤ

-- `now - t > limit`.
abbrev pub older_than : ℕ → ℤ → ℕ → Bool
older_than now (pos t) limit = ltb (t + limit) now
older_than now (negsuc n) limit = ltb limit (now + n + 1)

-- `t - now > limit`.
abbrev pub later_than : ℕ → ℤ → ℕ → Bool
later_than now (pos t) limit = ltb (now + limit) t
later_than now (negsuc n) limit = false
