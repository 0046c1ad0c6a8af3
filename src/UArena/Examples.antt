-- ===== src/UArena/Examples.antt =====
-- src/allocators/u_arena.c: runs of its operations on small arenas.
use mathlib.Core.List.{reverse}
use lmalloc.Common.{◌+◌, ◌≡◌, refl, true, false, [], ◌∷◌, none, some, arith, Bytes}
use lmalloc.UArena.{
  UArena, ua_init, ua_alloc, ua_pop, ua_seek, is_contiguous, is_mallocd, is_bootstrapped,
}
use lmalloc.UArena.Bounds.{IsValid, ua_init_lem}
use lmalloc.UArena.Run.{blocks, Chain, blocks-Chain}
use lmalloc.UArena.Scratch.{Arenas, ThreadArenas}
use lmalloc.UArena.Scratch.Pick
use lmalloc.UArena.Scratch.Pick.{
  thread_arenas_add_lem, scratch_pick-one_conflict, scratch_pick-two_conflicts,
}
use lmalloc.UArena.Create.{Os, heap, ua_create, ua_destroy, created, arena_cache_aligned_sz}
use lmalloc.UArena.Create.Regions.{destroy-create}

abbrev small : UArena
small = record { flags = 4; cap = 64; cur = 16; mem = 4096 }

small-IsValid : IsValid small
small-IsValid = omega arith

alloc_eight : ua_alloc small 8 ≡ (some 4112, record small { cur = 24 })
unfolding ua_alloc
alloc_eight = refl

alloc_too_much : ua_alloc small 49 ≡ (none, small)
unfolding ua_alloc
alloc_too_much = refl

pop_then_seek : ua_seek (ua_pop small 8) 64 ≡ (some 4160, record small { cur = 64 })
unfolding ua_seek ua_pop
pop_then_seek = refl

three_blocks : blocks small (8 ∷ 100 ∷ 40 ∷ []) ≡ (4112, 8) ∷ (4120, 40) ∷ []
unfolding blocks ua_alloc
three_blocks = refl

ua_init_lem_example :
    let ua = ua_init true false false 64 4096 in
    (is_contiguous ua.flags ≡ true)
    × (is_mallocd ua.flags ≡ false)
    × (is_bootstrapped ua.flags ≡ false)
    × (ua.cur ≡ 0)
    × (ua.cap ≡ 64)
    × IsValid ua
ua_init_lem_example = ua_init_lem true false false 64 4096 (omega arith)

-- Memory that is all ones.
abbrev ones : Bytes
ones a = 1

blocks-Chain_example : Chain (4096 + 16) (4096 + 64) (blocks small (8 ∷ 100 ∷ 40 ∷ []))
blocks-Chain_example =
    blocks-Chain (8 ∷ 100 ∷ 40 ∷ []) {ua = small} 101 small-IsValid (omega arith) (omega arith)

abbrev arenas : Arenas
arenas p = small

-- Two arenas, at 4000 and 5000, in a table with room for three.
abbrev two_arenas : ThreadArenas
two_arenas = record { uas = 4000 ∷ 5000 ∷ 0 ∷ []; count = 2; max_count = 3 }

two_arenas-IsValid : Pick.IsValid two_arenas
two_arenas-IsValid = omega arith

-- A system that gives memory at 8192, or none.
abbrev system : Os
system = record { malloc = λ call size. 8192; mmap = λ size. some 12288 }

abbrev no_mapping : Os
no_mapping = record { malloc = λ call size. 8192; mmap = λ size. none }

abbrev mallocd_arena : UArena
mallocd_arena = ua_init true true false 100 8256

system_creates : ua_create system 64 100 true true ≡ created 8192 mallocd_arena (heap 8192 ∷ [])
unfolding ua_create arena_cache_aligned_sz
system_creates = refl

destroy-create_example :
    ((ua_destroy 64 (some (8192, mallocd_arena))).0 ≡ reverse (heap 8192 ∷ []))
    × ((ua_destroy 64 (some (8192, mallocd_arena))).1 ≡ none)
    × (mallocd_arena.cap ≡ 100)
    × (mallocd_arena.cur ≡ 0)
destroy-create_example =
    destroy-create system 64 100 8192 true true {ua = mallocd_arena} {acquired = heap 8192 ∷ []}
      system_creates (unfold ua_init in omega arith) (unfold ua_init in omega arith)
