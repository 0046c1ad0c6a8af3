-- ===== src/UArena/Create/Regions.antt =====
-- src/allocators/u_arena.c, ua_create and ua_destroy: what is acquired is given back.
use mathlib.Core.List.{reverse}
use native.Mathlib.Nat.{add-mod-mod, mod-add-mod, mod_self, mod-lt}
use lmalloc.Common.{
  ℕ, ◌+◌, ◌-◌, ◌%◌, ◌≤◌, ◌<◌, ◌≡◌, ◌≢◌, List, [], ◌∷◌, none, some, arith, Bool, true, false,
  add_size,
}
use lmalloc.UArena.{UArena, ua_init, is_contiguous, is_mallocd, is_bootstrapped}
use lmalloc.UArena.Create.{
  Region, heap, Os, sizeof_uarena, map_failed, arena_cache_aligned_sz, padding_to_align, created,
  failed, ua_create, ua_destroy,
}

-- Padding reaches the next multiple, and is less than the alignment.
padding_to_align_lem :
    (value alignment : ℕ)
    → 0 < alignment
    → ((value + padding_to_align value alignment) % alignment ≡ 0)
      × (padding_to_align value alignment < alignment)
unfolding padding_to_align
padding_to_align_lem v a pos =
    (rw (add-mod-mod, ← mod-add-mod v a (a - v % a), sum) (mod_self a), mod-lt (a - v % a) pos)
  where
    sum : v % a + (a - v % a) ≡ a
    sum = omega arith

-- The header's space is the least multiple of the cache line size that holds a header.
pub arena_cache_aligned_sz_lem :
    (cacheln_sz : ℕ)
    → 0 < cacheln_sz
    → let sz = arena_cache_aligned_sz cacheln_sz in
      (sz % cacheln_sz ≡ 0) × (sizeof_uarena ≤ sz) × (sz < sizeof_uarena + cacheln_sz)
arena_cache_aligned_sz_lem c pos =
    unfold arena_cache_aligned_sz in
    let (multiple, small) = padding_to_align_lem sizeof_uarena c pos in
    (multiple, omega arith, omega arith)

-- Destroying an arena that `ua_create` returned, with memory that is neither NULL nor MAP_FAILED,
-- gives back what was acquired, last acquired first, and leaves a NULL pointer behind; the arena
-- was empty and had the capacity asked for.
pub destroy-create :
    (os : Os) (cacheln_sz cap p : ℕ) (contiguous mallocd : Bool) {ua : UArena}
    {acquired : List Region}
    → ua_create os cacheln_sz cap contiguous mallocd ≡ created p ua acquired
    → ua.mem ≢ 0
    → ua.mem ≢ map_failed
    → ((ua_destroy cacheln_sz (some (p, ua))).0 ≡ reverse acquired)
      × ((ua_destroy cacheln_sz (some (p, ua))).1 ≡ none)
      × (ua.cap ≡ cap)
      × (ua.cur ≡ 0)
unfolding ua_create ua_destroy ua_init is_contiguous is_mallocd is_bootstrapped reverse
destroy-create os c n p true true e h1 h2 = ground arith
destroy-create os c n p true false e h1 h2 = ground arith
destroy-create os c n p false true e h1 h2 = ground arith
destroy-create os c n p false false e h1 h2 = ground arith

-- A mapping that fails is reported only for a contiguous arena: the other kind is returned with
-- its memory at MAP_FAILED.
pub ua_create-map_failed :
    (os : Os) (cacheln_sz cap : ℕ)
    → os.malloc 0 sizeof_uarena ≢ 0
    → os.mmap cap ≡ none
    → os.mmap (add_size (arena_cache_aligned_sz cacheln_sz) cap) ≡ none
    → (ua_create os cacheln_sz cap true false ≡ failed)
      × (ua_create os cacheln_sz cap false false
          ≡ created
              (os.malloc 0 sizeof_uarena)
              (ua_init false false false cap map_failed)
              (heap (os.malloc 0 sizeof_uarena) ∷ []))
unfolding ua_create
ua_create-map_failed os c n h1 h2 h3 = ground arith
