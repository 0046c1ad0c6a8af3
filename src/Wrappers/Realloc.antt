-- ===== src/Wrappers/Realloc.antt =====
-- src/allocators/allocator_wrappers.c, ua_realloc_timed: where the bytes go.
use lmalloc.Common.{
  ℕ, ◌+◌, ◌≤◌, ◌<◌, ◌≡◌, none, some, arith, word_mod, length, Bytes, memcpy, memcpy-inside,
  memcpy-outside, ◌⊎◌,
}
use lmalloc.UArena.{UArena, ua_alloc}
use lmalloc.UArena.Bounds.{IsValid}
use lmalloc.Wrappers.Totals.{record_time-room}
use lmalloc.Wrappers.{Timing, ua_realloc_timed, copy_to_new}

-- What a reallocation does to the bytes: the `n` bytes from `new` on are those that were at `ptr`, and no other
-- changes.
pub record Moved (ptr new n : ℕ) (m m' : Bytes) : Type 0 where
  pub copied : (i : ℕ) → i < n → m' (new + i) ≡ m (ptr + i)
  pub outside : (a : ℕ) → (a < new) ⊎ (new + n ≤ a) → m' a ≡ m a

memcpy-Moved : (ptr new n : ℕ) (m : Bytes) → Moved ptr new n m (memcpy new ptr n m)
memcpy-Moved ptr new n m = record {
  copied = memcpy-inside new ptr n m;
  outside = memcpy-outside new ptr n m;
}

-- A reallocation in a valid arena with room for the new size, and with room in the collection of times: the
-- block that is returned begins at the old cursor, the bytes of the old size from there on become the old
-- block's, also where the old size is more than the new one, and no other byte changes.
pub ua_realloc_timed_lem :
    {ua : UArena} (ptr old_sz sz : ℕ) (m : Bytes) (start stop : ℕ) (t : Timing)
    → IsValid ua
    → ua.cur + sz ≤ ua.cap
    → t.tcoll.cur < length t.tcoll.arr
    → (m' : Bytes) × (t' : Timing) × (ua_realloc_timed ua ptr old_sz sz m start stop t
        ≡ some ((some (ua.mem + ua.cur), record ua { cur = ua.cur + sz }, m'), t'))
      × Moved ptr (ua.mem + ua.cur) old_sz m m'
unfolding ua_realloc_timed copy_to_new ua_alloc
ua_realloc_timed_lem {ua} ptr old_sz sz m start stop t v fit room =
    let (t', e, next, same) = record_time-room start stop t room in
    (
      memcpy (ua.mem + ua.cur) ptr old_sz m,
      t',
      ground (arith, e),
      memcpy-Moved ptr (ua.mem + ua.cur) old_sz m,
    )

-- When a valid arena has no room for the new size, and the sum with the cursor does not wrap, a reallocation of a
-- block that is not empty faults: the copy goes to NULL.
pub ua_realloc_timed-faults :
    {ua : UArena} (ptr old_sz sz : ℕ) (m : Bytes) (start stop : ℕ) (t : Timing)
    → IsValid ua
    → ua.cap < ua.cur + sz
    → ua.cur + sz < word_mod
    → 0 < old_sz
    → ua_realloc_timed ua ptr old_sz sz m start stop t ≡ none
unfolding ua_realloc_timed copy_to_new ua_alloc
ua_realloc_timed-faults ptr old_sz sz m start stop t v full small pos = ground arith
