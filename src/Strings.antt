-- ===== src/Strings.antt =====
-- The memory and string functions of src/kernel/misc/string.c.
--
-- Memory is a map from addresses to bytes. Addresses are natural numbers: the arguments do not reach
-- over the end of the address space. A loop that ends at a terminator runs on fuel, and gives `none`
-- when the fuel runs out; a loop that counts is recursion on the count.
pub mod Bytes
pub mod Copies
pub mod Terminated
pub mod Bounded
pub mod Searches
mod Tests
use hos.Base.{
  ℕ, zero, suc, ◌+◌, ◌-◌, ◌*◌, ◌/◌, ◌%◌, ◌^◌, u32, store, Bool, true, false, not, ◌&&◌, ◌||◌, ltb,
  leb, ◌==◌, if◌then◌else◌, Option, some, none,
}

infixl 5 ◌>>=◌
abbrev ◌>>=◌ {ℓ κ} : {A : Type ℓ} {B : Type κ} → Option A → (A → Option B) → Option B
none >>= f = none
some a >>= f = f a

-- The bytes of memory.
abbrev pub Bytes : Type 0
Bytes = ℕ → ℕ

-- The loop of `memcpy`, and that of `memmove` from lower addresses up.
pub copy_up : ℕ → ℕ → ℕ → Bytes → Bytes
copy_up zero dst src m = m
copy_up (suc n) dst src m = copy_up n (dst + 1) (src + 1) (store m dst (m src))

-- The loop of `memmove` from higher addresses down.
pub copy_down : ℕ → ℕ → ℕ → Bytes → Bytes
copy_down zero dst src m = m
copy_down (suc n) dst src m = copy_down n (dst - 1) (src - 1) (store m dst (m src))

pub memcpy : ℕ → ℕ → ℕ → Bytes → ℕ × Bytes
memcpy dst src num m = (dst, copy_up num dst src m)

pub memmove : ℕ → ℕ → ℕ → Bytes → ℕ × Bytes
memmove dst src n m = (
  dst,
  if leb dst src || leb (src + n) dst
      then copy_up n dst src m
      else copy_down n (dst + n - 1) (src + n - 1) m,
)

-- The loop of `memset`, and that of `strncpy` that fills up with zeros.
pub fill : ℕ → ℕ → ℕ → Bytes → Bytes
fill zero dst value m = m
fill (suc n) dst value m = fill n (dst + 1) value (store m dst value)

pub memset : ℕ → ℕ → ℕ → Bytes → ℕ × Bytes
memset ptr value num m = (ptr, fill num ptr (value % 256) m)

-- The loop of `memcmp`, with the count before it is taken down; the difference is an `int`.
pub memcmp_loop : ℕ → ℕ → ℕ → Bytes → ℕ
memcmp_loop zero dst src m = 0
memcmp_loop (suc n) dst src m =
    let rest = memcmp_loop n (dst + 1) (src + 1) m in
    if (n == 0) || not (m dst == m src) then u32 (m dst + (2 ^ 32 - m src)) else rest

pub memcmp : ℕ → ℕ → ℕ → Bytes → ℕ
memcmp dst src n m = if n == 0 then 0 else memcmp_loop n dst src m

-- `memchr`; 0 is NULL.
pub memchr : ℕ → ℕ → ℕ → Bytes → ℕ
memchr ptr ch zero m = 0
memchr ptr ch (suc n) m =
    let rest = memchr (ptr + 1) ch n m in if m ptr == ch % 256 then ptr else rest

-- The walk to the terminator of a string.
pub find_end : ℕ → ℕ → Bytes → Option ℕ
find_end zero eos m = none
find_end (suc fuel) eos m =
    let rest = find_end fuel (eos + 1) m in if m eos == 0 then some eos else rest

pub strlen : ℕ → ℕ → Bytes → Option ℕ
strlen fuel s m = do eos ← find_end fuel s m; some (eos - s)

-- The loop of `strcpy` and `strcat`.
pub copy_string : ℕ → ℕ → ℕ → Bytes → Option Bytes
copy_string zero dst src m = none
copy_string (suc fuel) dst src m =
    let m' = store m dst (m src) in
    let rest = copy_string fuel (dst + 1) (src + 1) m' in if m src == 0 then some m' else rest

pub strcpy : ℕ → ℕ → ℕ → Bytes → Option (ℕ × Bytes)
strcpy fuel dst src m = do m' ← copy_string fuel dst src m; some (dst, m')

pub strcat : ℕ → ℕ → ℕ → Bytes → Option (ℕ × Bytes)
strcat fuel dst src m = do cp ← find_end fuel dst m; m' ← copy_string fuel cp src m; some (dst, m')

-- The first loop of `strncpy`: the count that is left, and the destination behind it.
pub strncpy_copy : ℕ → ℕ → ℕ → Bytes → ℕ × ℕ × Bytes
strncpy_copy zero destination source m = (0, destination, m)
strncpy_copy (suc num) destination source m =
    let m' = store m destination (m source) in
    let rest = strncpy_copy num (destination + 1) (source + 1) m' in
    if m source == 0 then (suc num, destination + 1, m') else rest

pub strncpy : ℕ → ℕ → ℕ → Bytes → ℕ × Bytes
strncpy destination source num m =
    let (left, destination', m') = strncpy_copy num destination source m in
    (destination, if left == 0 then m' else fill (left - 1) destination' 0 m')

-- `strchr`; 0 is NULL.
pub strchr : ℕ → ℕ → ℕ → Bytes → Option ℕ
strchr zero s ch m = none
strchr (suc fuel) s ch m =
    let rest = strchr fuel (s + 1) ch m in
    if (m s == 0) || (m s == ch % 256) then some (if m s == ch % 256 then s else 0) else rest
