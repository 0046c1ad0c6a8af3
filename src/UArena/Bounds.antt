-- ===== src/UArena/Bounds.antt =====
-- src/allocators/u_arena.c: what each operation does to the cursor, and where its block lies.
use lmalloc.Common.{
  ℕ, ◌+◌, ◌-◌, ◌^◌, ◌≤◌, ◌<◌, ◌≡◌, refl, ◌⊎◌, Bool, true, false, none, some, arith, word_mod,
}
use lmalloc.UArena.{
  UArena, is_contiguous, is_mallocd, is_bootstrapped, ua_init, ua_alloc, ua_pop, ua_seek,
  ua_reserve,
}

-- The cursor is in the arena and the arena is in the address space.
pub record IsValid (ua : UArena) : Type 0 where
  pub within : ua.cur ≤ ua.cap
  pub placed : ua.mem + ua.cap < word_mod

-- The flag macros read back what `ua_init` was given; the arena is empty, has the capacity that was
-- given, and is valid when it ends inside the address space.
pub ua_init_lem :
    (contiguous mallocd bootstrapped : Bool) (cap mem : ℕ)
    → mem + cap < word_mod
    → let ua = ua_init contiguous mallocd bootstrapped cap mem in
      (is_contiguous ua.flags ≡ contiguous)
      × (is_mallocd ua.flags ≡ mallocd)
      × (is_bootstrapped ua.flags ≡ bootstrapped)
      × (ua.cur ≡ 0)
      × (ua.cap ≡ cap)
      × IsValid ua
unfolding ua_init is_contiguous is_mallocd is_bootstrapped
ua_init_lem true true true n mem h = (refl, refl, refl, refl, refl, omega arith)
ua_init_lem true true false n mem h = (refl, refl, refl, refl, refl, omega arith)
ua_init_lem true false true n mem h = (refl, refl, refl, refl, refl, omega arith)
ua_init_lem true false false n mem h = (refl, refl, refl, refl, refl, omega arith)
ua_init_lem false true true n mem h = (refl, refl, refl, refl, refl, omega arith)
ua_init_lem false true false n mem h = (refl, refl, refl, refl, refl, omega arith)
ua_init_lem false false true n mem h = (refl, refl, refl, refl, refl, omega arith)
ua_init_lem false false false n mem h = (refl, refl, refl, refl, refl, omega arith)

-- An allocation from a valid arena whose end does not pass the end of the address space: it returns the
-- address of the cursor and moves the cursor on by the size when that fits, and else returns NULL and
-- changes nothing.
pub ua_alloc_lem :
    {ua : UArena} (size : ℕ)
    → IsValid ua
    → ua.cur + size < word_mod
    → ((ua.cur + size ≤ ua.cap)
        × (ua_alloc ua size ≡ (some (ua.mem + ua.cur), record ua { cur = ua.cur + size })))
      ⊎ ((ua.cap < ua.cur + size) × (ua_alloc ua size ≡ (none, ua)))
unfolding ua_alloc
ua_alloc_lem size v small = ground arith

-- Every operation that tests its bounds keeps the arena valid, whatever size it is given.
pub ua_alloc-IsValid : {ua : UArena} (size : ℕ) → IsValid ua → IsValid (ua_alloc ua size).1
unfolding ua_alloc
ua_alloc-IsValid size v = ground arith

pub ua_seek-IsValid : {ua : UArena} (pos : ℕ) → IsValid ua → IsValid (ua_seek ua pos).1
unfolding ua_seek
ua_seek-IsValid pos v = ground arith

pub ua_reserve-IsValid : {ua : UArena} (sz : ℕ) → IsValid ua → IsValid (ua_reserve ua sz).1
unfolding ua_reserve
ua_reserve-IsValid sz v = ground arith

-- A pop from a valid arena of capacity below 2^63, of a size below 2^63, moves the cursor down by the size
-- when that much is in use, and else changes nothing.
pub ua_pop_lem :
    {ua : UArena} (size : ℕ)
    → IsValid ua
    → ua.cap < 2 ^ 63
    → size < 2 ^ 63
    → ((size ≤ ua.cur) × (ua_pop ua size ≡ record ua { cur = ua.cur - size }))
      ⊎ ((ua.cur < size) × (ua_pop ua size ≡ ua))
unfolding ua_pop
ua_pop_lem size v small h = ground arith

-- `ua_pop` of a word that is more than 2^63 above the cursor of a valid arena moves the cursor up, by
-- 2^64 minus that word.
pub ua_pop-negative :
    {ua : UArena} (size : ℕ)
    → IsValid ua
    → 2 ^ 63 + ua.cur < size
    → size < word_mod
    → (ua_pop ua size).cur ≡ ua.cur + (word_mod - size)
unfolding ua_pop
ua_pop-negative size v big small = ground arith

-- An allocation of a word whose sum with the cursor of a valid arena reaches 2^64 returns the address of
-- the cursor, and moves the cursor down.
pub ua_alloc-wraps :
    {ua : UArena} (size : ℕ)
    → IsValid ua
    → word_mod ≤ ua.cur + size
    → size < word_mod
    → ((ua_alloc ua size).0 ≡ some (ua.mem + ua.cur)) × ((ua_alloc ua size).1.cur < ua.cur)
unfolding ua_alloc
ua_alloc-wraps size v wraps small = ground arith

-- A reservation in a valid arena whose end does not pass the end of the address space: when the size
-- fits, it is granted whole and the cursor moves on by it; else what is left is answered, and the arena
-- does not change.
pub ua_reserve_lem :
    {ua : UArena} (sz : ℕ)
    → IsValid ua
    → ua.cur + sz < word_mod
    → let (got, ua') = ua_reserve ua sz in
      ((ua.cur + sz ≤ ua.cap) × (got ≡ sz) × (ua' ≡ record ua { cur = ua.cur + sz }))
      ⊎ ((ua.cap < ua.cur + sz) × (got < sz) × (ua.cur + got ≡ ua.cap) × (ua' ≡ ua))
unfolding ua_reserve
ua_reserve_lem sz v small = ground arith
