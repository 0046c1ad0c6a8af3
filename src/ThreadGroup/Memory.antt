-- ===== src/ThreadGroup/Memory.antt =====
-- src/sdhs/Common/ThreadGroup.c: the blocks that TgCreateGroup and TgCreateManager cut from an arena.
use lmalloc.Common.{ℕ, ◌+◌, ◌*◌, ◌≤◌, ◌<◌, ◌≡◌, ◌⊎◌, arith, [], ◌∷◌, word_mod}
use lmalloc.UArena.{UArena, ua_alloc}
use lmalloc.UArena.Bounds.{IsValid}
use lmalloc.ThreadGroup.{fault, null, made, tg_create_group, tg_create_manager}

-- A group that is made in a valid arena, where the sizes with the capacity do not pass the end of
-- the address space: its three blocks lie one behind the other from the cursor on, and the cursor
-- moves behind them; when they do not fit, NULL is returned.
pub tg_create_group_lem :
    {ua : UArena} (size thread_count : ℕ)
    → IsValid ua
    → ua.cap + size + 16 * thread_count < word_mod
    → ((ua.cur + size + 16 * thread_count ≤ ua.cap)
        × (tg_create_group ua size thread_count ≡ (
          made (
              (ua.mem + ua.cur)
              ∷ (ua.mem + (ua.cur + size))
              ∷ (ua.mem + (ua.cur + size + 8 * thread_count))
              ∷ []),
          record ua { cur = ua.cur + size + 16 * thread_count },
        )))
      ⊎ ((ua.cap < ua.cur + size + 16 * thread_count)
          × ((tg_create_group ua size thread_count).0 ≡ null))
unfolding tg_create_group ua_alloc
tg_create_group_lem size n v small = ground arith

-- When a valid arena has no room for the manager itself, and the sum with the cursor does not wrap, its creation
-- faults: NULL is tested for too late.
pub tg_create_manager-faults :
    {ua : UArena} (size group_count : ℕ)
    → IsValid ua
    → ua.cap < ua.cur + size
    → ua.cur + size < word_mod
    → (tg_create_manager ua size group_count).0 ≡ fault
unfolding tg_create_manager ua_alloc
tg_create_manager-faults size n v full small = ground arith
