-- ===== src/Sdb/Memory.antt =====
-- sdhs/Sdb.h, the memory routines: loops over bytes, and the shift of an array.
pub mod Loops
pub mod Shift
use lmalloc.Common.{
  ℕ, zero, suc, ◌+◌, ◌-◌, ◌*◌, ◌%◌, ◌^◌, ◌&&◌, Bool, true, false, Option, none, some, ltb, ◌==◌,
  not, if◌then◌else◌, Bytes, put, memcpy,
}

-- The loop with `n` rounds left, at byte `i`.
memcpy_loop : ℕ → ℕ → ℕ → ℕ → Bytes → Bytes
memcpy_loop zero i to from m = m
memcpy_loop (suc n) i to from m = memcpy_loop n (i + 1) to from (put m (to + i) (m (from + i)))

unfoldable pub sdb_memcpy : ℕ → ℕ → ℕ → Bytes → Bytes
unfolding memcpy_loop
sdb_memcpy to from len m = memcpy_loop len 0 to from m

memset_loop : ℕ → ℕ → ℕ → ℕ → Bytes → Bytes
memset_loop zero i data' set_to m = m
memset_loop (suc n) i data' set_to m =
    memset_loop n (i + 1) data' set_to (put m (data' + i) (set_to % 256))

-- `(u8)SetTo` keeps the lowest byte.
unfoldable pub sdb_memset : ℕ → ℕ → ℕ → Bytes → Bytes
unfolding memset_loop
sdb_memset data' set_to len m = memset_loop len 0 data' set_to m

unfoldable pub sdb_mem_zero : ℕ → ℕ → Bytes → Bytes
unfolding sdb_memset
sdb_mem_zero mem size m = sdb_memset mem 0 size m

memcmp_loop : ℕ → ℕ → ℕ → ℕ → Bytes → Bool
memcmp_loop zero i lhs rhs m = true
memcmp_loop (suc n) i lhs rhs m =
    if m (lhs + i) == m (rhs + i) then memcmp_loop n (i + 1) lhs rhs m else false

unfoldable pub sdb_memcmp : ℕ → ℕ → ℕ → Bytes → Bool
unfolding memcmp_loop
sdb_memcmp lhs rhs len m = memcmp_loop len 0 lhs rhs m

-- `memmove` reads all that it writes before it writes, as the model's `memcpy` does.
unfoldable pub sdb_array_shift : ℕ → ℕ → ℕ → ℕ → ℕ → Bytes → Bytes
sdb_array_shift mem from to count element_size m =
    if not (from == to)
    then (let src = mem + from * element_size in
        let dst = mem + to * element_size in
        let elements = if ltb from count then count - from else 0 in
        if ltb 0 elements then memcpy dst src (elements * element_size) m else m)
    else m

-- The loop of SdbStrnlen, which looks at the byte before the count; `none` when the fuel runs out.
strnlen_from : ℕ → ℕ → ℕ → ℕ → Bytes → Option ℕ
strnlen_from zero string max n m = none
strnlen_from (suc fuel) string max n m =
    let rest = strnlen_from fuel string max (n + 1) m in
    if not (m (string + n) == 0) && ltb n max then rest else some n

-- At most `max` rounds are made, and one more look.
unfoldable pub sdb_strnlen : ℕ → ℕ → Bytes → Option ℕ
unfolding strnlen_from
sdb_strnlen string max m = strnlen_from (max + 1) string max 0 m

sdb_strlen_from : ℕ → ℕ → ℕ → Bytes → Option ℕ
sdb_strlen_from zero string n m = none
sdb_strlen_from (suc fuel) string n m =
    let rest = sdb_strlen_from fuel string (n + 1) m in
    if not (m (string + n) == 0) then rest else some n

-- The fuel is the size of the address space.
unfoldable pub sdb_strlen : ℕ → Bytes → Option ℕ
unfolding sdb_strlen_from
sdb_strlen string m = sdb_strlen_from (2 ^ 64) string 0 m
