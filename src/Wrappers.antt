-- ===== src/Wrappers.antt =====
-- src/allocators/allocator_wrappers.c and allocator_wrappers.h: allocations that are timed. The two readings
-- of the time stamp counter around an allocation are arguments.
pub mod Totals
pub mod Realloc
mod Examples
use lmalloc.Common.{
  ℕ, ◌+◌, Option, none, some, List, [], length, set, ltb, ◌==◌, if◌then◌else◌, add_size, sub_size,
  Bytes, memcpy,
}
use lmalloc.UArena.{UArena, ua_alloc, ua_zalloc, ua_falloc, ua_fzalloc}
use lmalloc.KArena.{Host}
use lmalloc.KaClient.{World, ka_alloc}

-- `struct alloc_tstats`
pub record AllocTstats : Type 0 where
  pub total_tsc : ℕ
  pub iter : ℕ

-- `struct alloc_tcoll`. `arr` is the memory behind the pointer.
pub record AllocTcoll : Type 0 where
  pub cap : ℕ
  pub cur : ℕ
  pub arr : List ℕ

-- The two static variables.
pub record Timing : Type 0 where
  pub tstats : AllocTstats
  pub tcoll : AllocTcoll

unfoldable pub init_alloc_tcoll : ℕ → List ℕ → Timing → Timing
init_alloc_tcoll cap arr t = record t { tcoll = record { cap = cap; cur = 0; arr = arr } }

-- A write behind the array is a fault.
unfoldable pub add_timing : ℕ → AllocTcoll → Option AllocTcoll
add_timing t c =
    if ltb c.cur (length c.arr)
    then some (record c { cur = c.cur + 1; arr = set c.arr c.cur t })
    else none

-- The new statistics with the collection that `add_timing` left.
abbrev pub with_tcoll : AllocTstats → Option AllocTcoll → Option Timing
with_tcoll s none = none
with_tcoll s (some c) = some (record { tstats = s; tcoll = c })

-- The end that the wrappers share: what a span of `start` to `stop` adds.
unfoldable pub record_time : ℕ → ℕ → Timing → Option Timing
record_time start stop t =
    let alloc_time = sub_size stop start in
    with_tcoll
      (record {
        total_tsc = add_size t.tstats.total_tsc alloc_time;
        iter = add_size t.tstats.iter 1;
      })
      (add_timing alloc_time t.tcoll)

-- A wrapper's answer, once the time is recorded.
abbrev pub answer_timed {ℓ} : {A : Type ℓ} → A → Option Timing → Option (A × Timing)
answer_timed a none = none
answer_timed a (some t) = some (a, t)

unfoldable pub ua_alloc_timed : UArena → ℕ → ℕ → ℕ → Timing → Option ((Option ℕ × UArena) × Timing)
ua_alloc_timed ua sz start stop t = answer_timed (ua_alloc ua sz) (record_time start stop t)

unfoldable pub ua_zalloc_timed :
    UArena → ℕ → Bytes → ℕ → ℕ → Timing → Option ((Option ℕ × UArena × Bytes) × Timing)
ua_zalloc_timed ua sz m start stop t = answer_timed (ua_zalloc ua sz m) (record_time start stop t)

unfoldable pub ua_falloc_timed : UArena → ℕ → ℕ → ℕ → Timing → Option ((ℕ × UArena) × Timing)
ua_falloc_timed ua sz start stop t = answer_timed (ua_falloc ua sz) (record_time start stop t)

unfoldable pub ua_fzalloc_timed :
    UArena → ℕ → Bytes → ℕ → ℕ → Timing → Option ((ℕ × UArena × Bytes) × Timing)
ua_fzalloc_timed ua sz m start stop t = answer_timed (ua_fzalloc ua sz m) (record_time start stop t)

-- The first answer `none` is a fault of the kernel module.
unfoldable pub ka_alloc_timed :
    Host → World → ℕ → ℕ → ℕ → ℕ → Timing → Option (Option (ℕ × World) × Timing)
ka_alloc_timed host w ka sz start stop t =
    answer_timed (ka_alloc host w ka sz) (record_time start stop t)

-- `malloc`, `calloc`, `realloc` and `free` are the C library's: an answer stands for the call.
unfoldable pub libc_timed {ℓ} : {A : Type ℓ} → A → ℕ → ℕ → Timing → Option (A × Timing)
libc_timed answer start stop t = answer_timed answer (record_time start stop t)

-- The copy of `ua_realloc_timed`: a NULL destination is a fault, unless nothing is copied.
unfoldable pub copy_to_new : Option ℕ → ℕ → ℕ → Bytes → Option Bytes
copy_to_new none ptr old_sz m = if old_sz == 0 then some m else none
copy_to_new (some new) ptr old_sz m = some (memcpy new ptr old_sz m)

-- The end of `ua_realloc_timed`.
abbrev pub end_realloc :
    Option ℕ × UArena → Option Bytes → Option Timing → Option ((Option ℕ × UArena × Bytes) × Timing)
end_realloc (new, ua) none t = none
end_realloc (new, ua) (some m) t = answer_timed (new, ua, m) t

unfoldable pub ua_realloc_timed :
    UArena → ℕ → ℕ → ℕ → Bytes → ℕ → ℕ → Timing → Option ((Option ℕ × UArena × Bytes) × Timing)
unfolding copy_to_new
ua_realloc_timed ua ptr old_sz sz m start stop t =
    end_realloc (ua_alloc ua sz) (copy_to_new (ua_alloc ua sz).0 ptr old_sz m)
      (record_time start stop t)
