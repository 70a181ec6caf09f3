-- ===== src/Common/Words.antt =====
-- Fixed-width unsigned arithmetic: `size_t` and `uint32_t` are 32 bits wide on the target.
use Prim.Native.Nat.{ℕ, ◌+◌, ◌-◌, ◌%◌, ◌^◌, ◌≤◌, ◌<◌}
use mathlib.Core.Path.{◌≡◌}
use native.Mathlib.Omega.{arith}

abbrev pub size_mod : ℕ
size_mod = 2 ^ 32

-- `a + b` in `size_t`
abbrev pub add_size : ℕ → ℕ → ℕ
add_size a b = (a + b) % size_mod

-- `a - b` in `size_t`, for operands in range
abbrev pub sub_size : ℕ → ℕ → ℕ
sub_size a b = (a + size_mod - b) % size_mod

-- Sums and differences in range do not wrap.
pub add_size-eq-add : (a b : ℕ) → a + b < size_mod → add_size a b ≡ a + b
add_size-eq-add a b h = omega arith

pub sub_size-eq-sub : (a b : ℕ) → b ≤ a → a < size_mod → sub_size a b ≡ a - b
sub_size-eq-sub a b h k = omega arith
