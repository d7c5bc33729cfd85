-- ===== src/Base/Words.antt =====
-- Unsigned numbers of 32 bits, and writes to memory that is a map from indices.
use Prim.Native.Nat.{ℕ, ◌-◌, ◌%◌, ◌^◌}
use hos.Base.Tests.{◌==◌, if◌then◌else◌}

-- uint32_t
abbrev pub u32 : ℕ → ℕ
u32 n = n % 2 ^ 32

-- (uint32_t)-1
abbrev pub all_ones : ℕ
all_ones = 2 ^ 32 - 1

-- A write to one cell.
abbrev pub store {ℓ} : {A : Type ℓ} → (ℕ → A) → ℕ → A → ℕ → A
store m i v j = if i == j then v else m j
