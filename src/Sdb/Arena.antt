-- ===== src/Sdb/Arena.antt =====
-- sdhs/Sdb.h, sdb_arena: the arena, its scratch marks, the arenas of a thread, and the pool.
pub mod Agree
pub mod Pick
pub mod Pool
use lmalloc.Common.{
  ℕ, zero, suc, ◌+◌, Bool, true, false, Option, none, some, List, [], ◌∷◌, ltb, leb, ◌==◌, not,
  if◌then◌else◌, add_size, sub_size, Bytes, put, set, get_elem?, length,
}
use lmalloc.Sdb.Memory.{sdb_mem_zero}

-- `sdb_arena`
pub record SdbArena : Type 0 where
  pub cur : ℕ
  pub cap : ℕ
  pub mem : ℕ

abbrev pub sizeof_sdb_arena : ℕ
sizeof_sdb_arena = 24

unfoldable pub sdb_arena_init : ℕ → ℕ → SdbArena
sdb_arena_init mem size = record { cur = 0; cap = size; mem = mem }

-- `Arena->Cur + Size <= Arena->Cap`: the addition wraps.
sdb_fits : SdbArena → ℕ → Bool
sdb_fits arena size = leb (add_size arena.cur size) arena.cap

unfoldable pub sdb_arena_push : SdbArena → ℕ → Option ℕ × SdbArena
unfolding sdb_fits
sdb_arena_push arena size =
    if sdb_fits arena size
    then (some (arena.mem + arena.cur), record arena { cur = add_size arena.cur size })
    else (none, arena)

unfoldable pub sdb_arena_push_zero : SdbArena → ℕ → Bytes → Option ℕ × SdbArena × Bytes
unfolding sdb_fits
sdb_arena_push_zero arena size m =
    if sdb_fits arena size
    then (
      some (arena.mem + arena.cur),
      record arena { cur = add_size arena.cur size },
      sdb_mem_zero (arena.mem + arena.cur) size m,
    )
    else (none, arena, m)

unfoldable pub sdb_arena_remaining : SdbArena → ℕ
sdb_arena_remaining arena = sub_size arena.cap arena.cur

unfoldable pub sdb_arena_pop : SdbArena → ℕ → Option ℕ × SdbArena
sdb_arena_pop arena size =
    if leb size arena.cur
    then (let cur = sub_size arena.cur size in (some (arena.mem + cur), record arena { cur = cur }))
    else (none, arena)

unfoldable pub sdb_arena_get_pos : SdbArena → ℕ
sdb_arena_get_pos arena = arena.cur

unfoldable pub sdb_arena_seek : SdbArena → ℕ → Option ℕ × SdbArena
sdb_arena_seek arena pos =
    if leb pos arena.cap
    then (some (arena.mem + pos), record arena { cur = pos })
    else (none, arena)

unfoldable pub sdb_arena_reserve : SdbArena → ℕ → ℕ × SdbArena
unfolding sdb_fits sdb_arena_remaining
sdb_arena_reserve arena size =
    if sdb_fits arena size
    then (size, record arena { cur = add_size arena.cur size })
    else (sdb_arena_remaining arena, arena)

unfoldable pub sdb_arena_clear : SdbArena → SdbArena
sdb_arena_clear arena = record arena { cur = 0 }

unfoldable pub sdb_arena_clear_zero : SdbArena → Bytes → SdbArena × Bytes
sdb_arena_clear_zero arena m = (record arena { cur = 0 }, sdb_mem_zero arena.mem arena.cap m)

-- The place of the new arena's struct: a given one, or one pushed to the parent.
bootstrap_struct : SdbArena → Option ℕ → Option ℕ × SdbArena
unfolding sdb_arena_push
bootstrap_struct arena none = sdb_arena_push arena sizeof_sdb_arena
bootstrap_struct arena (some new_arena) = (some new_arena, arena)

bootstrap_end : Option ℕ → Option ℕ → ℕ → Option (ℕ × SdbArena)
unfolding sdb_arena_init
bootstrap_end (some new_arena) (some mem) size = some (new_arena, sdb_arena_init mem size)
bootstrap_end _ _ size = none

-- The new arena with its address, or NULL as `none`, and the parent after the call. The memory is pushed
-- also when the struct was not.
unfoldable pub sdb_arena_bootstrap : SdbArena → Option ℕ → ℕ → Option (ℕ × SdbArena) × SdbArena
unfolding bootstrap_struct bootstrap_end sdb_arena_push
sdb_arena_bootstrap arena new_arena_ size =
    let (new_arena, arena1) = bootstrap_struct arena new_arena_ in
    let (new_arena_mem, arena2) = sdb_arena_push arena1 size in
    (bootstrap_end new_arena new_arena_mem size, arena2)

-- `sdb__thread_arenas__`. `arenas` is the whole buffer, and 0 is NULL.
pub record SdbThreadArenas : Type 0 where
  pub arenas : List ℕ
  pub count : ℕ
  pub max_count : ℕ

unfoldable pub sdb_thread_arenas_init : List ℕ → SdbThreadArenas → SdbThreadArenas
sdb_thread_arenas_init ta_buf tas = record tas { arenas = ta_buf }

-- Whether the answer is 0 (`true`) or -1.
unfoldable pub sdb_thread_arenas_add : ℕ → SdbThreadArenas → Bool × SdbThreadArenas
sdb_thread_arenas_add arena tas =
    if leb (tas.count + 1) tas.max_count
    then (true, record tas { arenas = set tas.arenas tas.count arena; count = tas.count + 1 })
    else (false, tas)

-- `sdb_scratch_arena`
pub record SdbScratch : Type 0 where
  pub arena : ℕ
  pub f5 : ℕ

-- `none` is the fault of a NULL arena.
unfoldable pub sdb_scratch_begin : (ℕ → SdbArena) → ℕ → Option SdbScratch
unfolding sdb_arena_get_pos
sdb_scratch_begin st arena =
    if arena == 0 then none else some (record { arena = arena; f5 = sdb_arena_get_pos (st arena) })

unfoldable pub sdb_scratch_release : (ℕ → SdbArena) → SdbScratch → Option (ℕ → SdbArena)
sdb_scratch_release st s =
    if s.arena == 0 then none else some (put st s.arena (sdb_arena_seek (st s.arena) s.f5).1)

-- The loop over the conflicts: `true` as soon as one of them is another arena.
any_other : ℕ → List ℕ → Bool
any_other a [] = false
any_other a (c ∷ cs) = if not (a == c) then true else any_other a cs

-- The loop over the arenas, `i` being the index and the first argument the rounds left.
other_from : List ℕ → List ℕ → ℕ → ℕ → Option ℕ
other_from arenas conflicts zero i = some 0
other_from arenas conflicts (suc left) i =
    let rest = other_from arenas conflicts left (i + 1) in
    elim (get_elem? arenas i) [
      | none ↦ none
      | some a ↦ if any_other a conflicts then some a else rest
    ]

-- The arena that is picked, NULL as 0; `none` is a read outside the buffer.
unfoldable pub sdb_scratch_pick : List ℕ → SdbThreadArenas → Option ℕ
unfolding other_from any_other
sdb_scratch_pick conflicts tas =
    if ltb 0 (length conflicts)
    then other_from tas.arenas conflicts tas.count 0
    else get_elem? tas.arenas 0

pub begin_picked : (ℕ → SdbArena) → Option ℕ → Option SdbScratch
unfolding sdb_scratch_begin
begin_picked st none = none
begin_picked st (some a) =
    if a == 0 then some (record { arena = 0; f5 = 0 }) else sdb_scratch_begin st a

unfoldable pub sdb_scratch_get : (ℕ → SdbArena) → List ℕ → SdbThreadArenas → Option SdbScratch
unfolding begin_picked sdb_scratch_pick
sdb_scratch_get st conflicts tas = begin_picked st (sdb_scratch_pick conflicts tas)
