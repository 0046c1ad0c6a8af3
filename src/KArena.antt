-- ===== src/KArena.antt =====
-- src/modules/karena/karena.c and src/allocators/karena.h: the kernel module that keeps arenas.
pub mod Ioctl
pub mod Slots
pub mod Bounds
pub mod Isolation
pub mod Release
pub mod Within
pub mod Reachable
pub mod Nested
pub mod Lifetime
mod Examples
use lmalloc.Common.{
  ℕ, ◌+◌, ◌-◌, Bool, true, false, Option, none, some, List, [], ◌∷◌, ◌==◌, ltb, leb, not, ◌&&◌, set,
  get_elem?, if◌then◌else◌, add_size, sub_size,
}

-- `struct KArena`. `kaddr` 0 is NULL.
pub record KArena : Type 0 where
  pub size : ℕ
  pub cur : ℕ
  pub uaddr : ℕ
  pub bootstrapped : Bool
  pub kaddr : ℕ
  pub owner_pid : ℕ

-- `struct ka_data`
pub record KaData : Type 0 where
  pub size : ℕ
  pub arena : ℕ

-- The module's state: the table, the device's `current_arena_index`, and, in order, the addresses
-- that `vmalloc` returned and those that `vfree` was given.
pub record Kernel : Type 0 where
  pub karenas : List KArena
  pub current_arena_index : ℕ
  pub vmallocs : List ℕ
  pub vfrees : List ℕ

-- What the module asks of the kernel: `task_pid_nr(current)`, `PAGE_ALIGN`, and `vmalloc` (0 is
-- NULL).
pub record Host : Type 0 where
  pub pid : ℕ
  pub page_align : ℕ → ℕ
  pub vmalloc : ℕ → ℕ

-- A handler's return value: 0, or a negated error number.
pub data Ret : Type 0 where
  ok efault enomem einval enotty : Ret

-- The loop of `find_open_slot` from index `i` on: the end of the table is index 100.
open_slot_from : List KArena → ℕ → Option ℕ
open_slot_from [] i = none
open_slot_from (info ∷ rest) i =
    let later = open_slot_from rest (i + 1) in if info.uaddr == 0 then some i else later

-- `arr[i].field = …`: `f` is the assignment.
unfoldable pub update : List KArena → ℕ → (KArena → KArena) → List KArena
update [] i f = []
update (a ∷ as') ℕ.zero f = f a ∷ as'
update (a ∷ as') (ℕ.suc i) f = a ∷ update as' i f

-- The slot found is marked as taken; `none` is the answer -1.
mark_slot : List KArena → Option ℕ → Option ℕ × List KArena
mark_slot karenas none = (none, karenas)
mark_slot karenas (some i) = (some i, update karenas i (λ a. record a { uaddr = 1 }))

unfoldable pub find_open_slot : List KArena → Option ℕ × List KArena
unfolding mark_slot open_slot_from update
find_open_slot karenas = mark_slot karenas (open_slot_from karenas 0)

-- The handlers that only look at the arena and the data.
unfoldable pub handle_arena_alloc : KArena → KaData → Ret × KArena × KaData
handle_arena_alloc arena alloc =
    if leb (add_size arena.cur alloc.size) arena.size
    then (
      ok,
      record arena { cur = add_size arena.cur alloc.size },
      record alloc { arena = add_size arena.uaddr arena.cur },
    )
    else (enomem, arena, alloc)

unfoldable pub handle_arena_seek : KArena → KaData → Ret × KArena × KaData
handle_arena_seek arena alloc = (
  ok,
  record arena { cur = alloc.size },
  record alloc { arena = add_size arena.uaddr alloc.size },
)

unfoldable pub handle_arena_pop : KArena → KaData → Ret × KArena × KaData
handle_arena_pop arena alloc =
    if ltb arena.cur alloc.size
    then (efault, arena, alloc)
    else (ok, record arena { cur = arena.cur - alloc.size }, alloc)

unfoldable pub handle_arena_pos : KArena → KaData → Ret × KArena × KaData
handle_arena_pos arena alloc = (ok, arena, record alloc { size = arena.cur })

unfoldable pub handle_arena_reserve : KArena → KaData → Ret × KArena × KaData
handle_arena_reserve arena alloc =
    if ltb arena.size (add_size arena.cur alloc.size)
    then (ok, arena, record alloc { size = sub_size arena.size arena.cur })
    else (ok, record arena { cur = add_size arena.cur alloc.size }, alloc)

unfoldable pub handle_arena_size : KArena → KaData → Ret × KArena × KaData
handle_arena_size arena alloc = (ok, arena, record alloc { size = arena.size })

unfoldable pub handle_arena_base : KArena → KaData → Ret × KArena × KaData
handle_arena_base arena alloc = (ok, arena, record alloc { arena = arena.uaddr })

-- The arena is wiped, but for `kaddr`; the third part is what is given to `vfree`.
unfoldable pub handle_arena_destroy : KArena → KaData → KArena × KaData × List ℕ
handle_arena_destroy arena alloc =
    let wiped = record arena { uaddr = 0; cur = 0; size = 0; owner_pid = 0 } in
    if arena.bootstrapped
    then (record wiped { bootstrapped = false }, record alloc { size = 0 }, [])
    else (
      wiped,
      record alloc { size = arena.size },
      (if not (arena.kaddr == 0) then arena.kaddr ∷ [] else []),
    )
