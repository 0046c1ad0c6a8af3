-- ===== src/Sdb/Arena/Agree.antt =====
-- sdhs/Sdb.h, sdb_arena: each operation against the one of allocators/u_arena.c.
use lmalloc.Common.{ℕ, ◌+◌, ◌≤◌, ◌<◌, ◌^◌, ◌≡◌, refl, ◌⊎◌, none, some, arith, word_mod, Bytes}
use mathlib.Core.Option.{map}
use lmalloc.UArena.{UArena, ua_alloc, ua_zalloc, ua_pop, ua_pos, ua_seek, ua_reserve, ua_free}
use lmalloc.Sdb.Memory.Loops.{mem_zero-bzero}
use lmalloc.Sdb.Arena.{
  SdbArena, sdb_arena_push, sdb_arena_push_zero, sdb_arena_pop, sdb_arena_get_pos, sdb_arena_seek,
  sdb_arena_reserve, sdb_arena_clear, sdb_arena_bootstrap, sdb_arena_init, sizeof_sdb_arena,
}

-- An arena of u_arena.c without its flags.
abbrev pub as_sdb : UArena → SdbArena
as_sdb ua = record { cur = ua.cur; cap = ua.cap; mem = ua.mem }

abbrev pub sdb_result {ℓ} : {A : Type ℓ} → A × UArena → A × SdbArena
sdb_result (a, ua) = (a, as_sdb ua)

-- The two arenas do the same: push is ua_alloc, reserve is ua_reserve, seek is ua_seek, the position is
-- ua_pos and clear is ua_free, for every size and every arena; the push that clears answers and moves as
-- ua_zalloc does and leaves the same bytes.
pub sdb_arena-ua_arena :
    (ua : UArena) (size : ℕ) (m : Bytes)
    → (sdb_arena_push (as_sdb ua) size ≡ sdb_result (ua_alloc ua size))
      × (sdb_arena_reserve (as_sdb ua) size ≡ sdb_result (ua_reserve ua size))
      × (sdb_arena_seek (as_sdb ua) size ≡ sdb_result (ua_seek ua size))
      × (sdb_arena_get_pos (as_sdb ua) ≡ ua_pos ua)
      × (some (sdb_arena_clear (as_sdb ua)) ≡ map as_sdb (ua_free (some ua)))
      × (let (p, ua', n) = ua_zalloc ua size m in
          sdb_arena_push_zero (as_sdb ua) size m ≡ (p, as_sdb ua', n))
unfolding sdb_arena_push sdb_arena_reserve sdb_arena_seek sdb_arena_get_pos sdb_arena_clear
    sdb_arena_push_zero ua_alloc ua_reserve ua_seek ua_pos ua_free ua_zalloc
sdb_arena-ua_arena ua size m = (
  ground arith,
  ground arith,
  ground arith,
  refl,
  refl,
  let z = mem_zero-bzero (ua.mem + ua.cur) size m in ground arith,
)

-- A pop leaves the arena that ua_pop leaves when the cursor is inside the arena and the capacity and the
-- size are below 2^63. For a size from 2^63 on it changes nothing, where ua_pop may move the cursor up.
pub sdb_arena_pop-ua_pop :
    (ua : UArena) (size : ℕ)
    → ua.cur ≤ ua.cap
    → ua.cap < 2 ^ 63
    → ((size < 2 ^ 63) × ((sdb_arena_pop (as_sdb ua) size).1 ≡ as_sdb (ua_pop ua size)))
      ⊎ ((2 ^ 63 ≤ size) × (sdb_arena_pop (as_sdb ua) size ≡ (none, as_sdb ua)))
unfolding sdb_arena_pop ua_pop
sdb_arena_pop-ua_pop ua size inside small = ground arith

-- Cutting an arena with its struct from an arena whose cursor is inside it, where the sizes together stay below 2^64: the struct and the
-- memory are pushed one behind the other, and when both fit the new arena is empty, has the size that was
-- asked, and lies right behind its struct; when they do not, NULL is answered, and a struct that did fit stays pushed.
pub sdb_arena_bootstrap_lem :
    (arena : SdbArena) (size : ℕ)
    → arena.cur ≤ arena.cap
    → arena.cap + sizeof_sdb_arena + size < word_mod
    → let (new_arena, parent) = sdb_arena_bootstrap arena none size in
      (parent.mem ≡ arena.mem)
      × (parent.cap ≡ arena.cap)
      × (parent.cur ≤ parent.cap)
      × (((arena.cur + sizeof_sdb_arena + size ≤ arena.cap)
            × (new_arena
                ≡ some (
                  arena.mem + arena.cur,
                  sdb_arena_init (arena.mem + arena.cur + sizeof_sdb_arena) size,
                ))
            × (parent.cur ≡ arena.cur + sizeof_sdb_arena + size))
          ⊎ ((arena.cap < arena.cur + sizeof_sdb_arena + size) × (new_arena ≡ none)))
unfolding sdb_arena_bootstrap sdb_arena_push sdb_arena_init
sdb_arena_bootstrap_lem arena size inside small = ground arith
