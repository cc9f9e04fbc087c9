-- ===== src/Prelude/Settings.antt =====
-- Integers that a configuration may hold, and the clamps `max(0, int(x))` and `max(1, int(x))`
-- by which the constructors read them.
use Prim.Native.Nat.{ℕ, suc, ◌+◌, ◌-◌, max}
use aduib_rpc.Prelude.Tests.{leb, if◌then◌else◌}

-- `negsuc n` is -(n + 1).
pub data ℤ : Type 0 where
  pos : ℕ → ℤ
  negsuc : ℕ → ℤ

-- `max(lo, int(x))`.
abbrev pub at_least : ℕ → ℤ → ℕ
at_least lo (pos n) = max lo n
at_least lo (negsuc n) = lo

-- a - b, as an integer.
abbrev pub sub_ℕ : ℕ → ℕ → ℤ
sub_ℕ a b = if leb b a then pos (a - b) else negsuc (b - a - 1)

infixl 65 ◌+ℤ◌
unfoldable pub ◌+ℤ◌ : ℤ → ℤ → ℤ
pos a +ℤ pos b = pos (a + b)
pos a +ℤ negsuc b = sub_ℕ a (suc b)
negsuc a +ℤ pos b = sub_ℕ b (suc a)
negsuc a +ℤ negsuc b = negsuc (suc (a + b))
