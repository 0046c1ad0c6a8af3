-- ===== src/Common/Words.antt =====
-- size_t and unsigned long, 64 bits wide: a value is a plain number and each operation wraps.
use Prim.Native.Nat.{ℕ, ◌+◌, ◌-◌, ◌%◌, ◌^◌, ◌<◌}
use native.Mathlib.Omega.{arith}

abbrev pub word_mod : ℕ
word_mod = 2 ^ 64

abbrev pub add_size : ℕ → ℕ → ℕ
add_size a b = (a + b) % word_mod

-- `-` on ℕ stops at 0, so the modulus is added first; both sides are below it.
abbrev pub sub_size : ℕ → ℕ → ℕ
sub_size a b = (a + word_mod - b) % word_mod

pub add_size-lt : (a b : ℕ) → add_size a b < word_mod
add_size-lt a b = omega arith
