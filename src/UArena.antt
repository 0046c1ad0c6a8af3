-- ===== src/UArena.antt =====
-- src/allocators/u_arena.c and u_arena.h: the userspace arena and its operations.
pub mod Bounds
pub mod Zeroing
pub mod Run
pub mod Scratch
pub mod Create
mod Examples
use Prim.Native.Nat.{bit_or}
use lmalloc.Common.{
  ℕ, ◌+◌, ◌-◌, ◌/◌, ◌%◌, ◌^◌, ◌*◌, Bool, true, false, Option, none, some, ltb, leb, ◌==◌, ◌&&◌,
  if◌then◌else◌, add_size, sub_size, Bytes, bzero, not,
}

-- `UArena`. `mem` is an address.
pub record UArena : Type 0 where
  pub flags : ℕ
  pub cap : ℕ
  pub cur : ℕ
  pub mem : ℕ

-- `!!((flags >> k) & 1)`
flag_bit : ℕ → ℕ → Bool
flag_bit flags k = (flags / 2 ^ k) % 2 == 1

unfoldable pub is_contiguous : ℕ → Bool
unfolding flag_bit
is_contiguous flags = flag_bit flags 0

unfoldable pub is_mallocd : ℕ → Bool
unfolding flag_bit
is_mallocd flags = flag_bit flags 1

unfoldable pub is_bootstrapped : ℕ → Bool
unfolding flag_bit
is_bootstrapped flags = flag_bit flags 2

set_is_contiguous : ℕ → ℕ
set_is_contiguous flags = bit_or flags 1

set_is_mallocd : ℕ → ℕ
set_is_mallocd flags = bit_or flags 2

set_is_bootstrapped : ℕ → ℕ
set_is_bootstrapped flags = bit_or flags 4

-- The flags are set one after the other, from 0.
init_flags : Bool → Bool → Bool → ℕ
unfolding set_is_contiguous set_is_mallocd set_is_bootstrapped
init_flags contiguous mallocd bootstrapped =
    let f0 : ℕ = 0 in
    let f1 = if contiguous then set_is_contiguous f0 else f0 in
    let f2 = if mallocd then set_is_mallocd f1 else f1 in
    if bootstrapped then set_is_bootstrapped f2 else f2

unfoldable pub ua_init : Bool → Bool → Bool → ℕ → ℕ → UArena
unfolding init_flags
ua_init contiguous mallocd bootstrapped cap mem = record {
  flags = init_flags contiguous mallocd bootstrapped;
  cap = cap;
  cur = 0;
  mem = mem;
}

-- `ua->cur + size <= ua->cap`: the addition wraps.
fits : UArena → ℕ → Bool
fits ua size = leb (add_size ua.cur size) ua.cap

-- The pointer returned and the arena after the call. NULL is `none`.
unfoldable pub ua_alloc : UArena → ℕ → Option ℕ × UArena
unfolding fits
ua_alloc ua size =
    if fits ua size
    then (some (ua.mem + ua.cur), record ua { cur = add_size ua.cur size })
    else (none, ua)

unfoldable pub ua_zalloc : UArena → ℕ → Bytes → Option ℕ × UArena × Bytes
unfolding fits
ua_zalloc ua size m =
    if fits ua size
    then (
      some (ua.mem + ua.cur),
      record ua { cur = add_size ua.cur size },
      bzero (ua.mem + ua.cur) size m,
    )
    else (none, ua, m)

unfoldable pub ua_falloc : UArena → ℕ → ℕ × UArena
ua_falloc ua size = (ua.mem + ua.cur, record ua { cur = add_size ua.cur size })

unfoldable pub ua_fzalloc : UArena → ℕ → Bytes → ℕ × UArena × Bytes
ua_fzalloc ua size m =
    (ua.mem + ua.cur, record ua { cur = add_size ua.cur size }, bzero (ua.mem + ua.cur) size m)

-- A NULL arena is `none`.
unfoldable pub ua_free : Option UArena → Option UArena
ua_free (some ua) = some (record ua { cur = 0 })
ua_free none = none

-- `(ssize_t)a - (ssize_t)b >= 0`. A word from 2^63 on stands for a negative number; the
-- difference wraps at 64 bits, as the compiled subtraction does.
ssize_diff_nonneg : ℕ → ℕ → Bool
ssize_diff_nonneg a b = ltb (sub_size a b) (2 ^ 63)

unfoldable pub ua_pop : UArena → ℕ → UArena
unfolding ssize_diff_nonneg
ua_pop ua size =
    if ssize_diff_nonneg ua.cur size then record ua { cur = sub_size ua.cur size } else ua

unfoldable pub ua_pos : UArena → ℕ
ua_pos ua = ua.cur

unfoldable pub ua_seek : UArena → ℕ → Option ℕ × UArena
ua_seek ua pos =
    if leb pos ua.cap then (some (ua.mem + pos), record ua { cur = pos }) else (none, ua)

unfoldable pub ua_reserve : UArena → ℕ → ℕ × UArena
unfolding fits
ua_reserve ua sz =
    if fits ua sz
    then (sz, record ua { cur = add_size ua.cur sz })
    else (sub_size ua.cap ua.cur, ua)
