-- ===== src/KaClient.antt =====
-- src/allocators/karena.c: the library that drives the kernel module. A `KArena *` is the index of a
-- slot, so the arena in slot 0 is NULL.
pub mod Slot
pub mod Scratch
pub mod Create
mod Examples
use lmalloc.Common.{
  ℕ, ◌+◌, ◌-◌, Bool, true, false, Option, none, some, List, [], ◌∷◌, ◌++◌, ◌==◌, ltb, not, add_size,
  if◌then◌else◌, word_mod, Bytes, bzero,
}
use lmalloc.KArena.{KaData, Kernel, Host, Ret, ok}
use lmalloc.KArena.Ioctl.{Cmd, karena_ioctl, karena_mmap, Vma, dev_open}

-- The static `fd`: 0, a descriptor of the device, or a number that is no open descriptor.
pub data Fd : Type 0 where
  unset device stale : Fd

-- The process, with the module behind its descriptor, and its calls of `munmap`.
pub record World : Type 0 where
  pub kernel : Kernel
  pub fd : Fd
  pub munmaps : List (ℕ × ℕ)

-- Does the handler's value count as an error?
failed : Ret → Bool
failed ok = false
failed ret = true

-- The answer of the kernel, taken apart: has the call failed, and what `alloc` holds.
unfoldable pub ioctl_answer :
    World → KaData → Option (Ret × Kernel × Option KaData) → Option (Bool × World × KaData)
unfolding failed
ioctl_answer w d none = none
ioctl_answer w d (some (ret, k, none)) = some (failed ret, record w { kernel = k }, d)
ioctl_answer w d (some (ret, k, some d')) = some (failed ret, record w { kernel = k }, d')

-- `ioctl(fd, cmd, &alloc)`; `none` is a kernel fault. Only a descriptor of the device reaches it.
unfoldable pub ioctl_on : Fd → Host → World → Cmd → KaData → Option (Bool × World × KaData)
unfolding ioctl_answer
ioctl_on device host w cmd d = ioctl_answer w d (karena_ioctl host w.kernel cmd (some d) true)
ioctl_on unset host w cmd d = some (true, w, d)
ioctl_on stale host w cmd d = some (true, w, d)

unfoldable pub ioctl : Host → World → Cmd → KaData → Option (Bool × World × KaData)
unfolding ioctl_on
ioctl host w cmd d = ioctl_on w.fd host w cmd d

-- The end of a call that returns `alloc.arena`, or NULL.
arena_or_null : Option (Bool × World × KaData) → Option (ℕ × World)
arena_or_null none = none
arena_or_null (some (err, w, d)) = some ((if err then 0 else d.arena), w)

-- The end of a call that returns `alloc.size`, or `(size_t)-1`.
size_or_minus_one : Option (Bool × World × KaData) → Option (ℕ × World)
size_or_minus_one none = none
size_or_minus_one (some (err, w, d)) = some ((if err then word_mod - 1 else d.size), w)

abbrev pub request : ℕ → ℕ → KaData
request arena size = record { size = size; arena = arena }

unfoldable pub ka_alloc : Host → World → ℕ → ℕ → Option (ℕ × World)
unfolding ioctl arena_or_null
ka_alloc host w arena size = arena_or_null (ioctl host w Cmd.alloc (request arena size))

-- The block is cleared with no test of the pointer: a NULL one is `none`.
unfoldable pub ka_zalloc : Host → World → Bytes → ℕ → ℕ → Option (ℕ × World × Bytes)
unfolding ka_alloc
ka_zalloc host w m arena size = elim (ka_alloc host w arena size) [
  | none ↦ none
  | some (ptr, w') ↦ if ptr == 0 then none else some (ptr, w', bzero ptr size m)
]

unfoldable pub ka_seek : Host → World → ℕ → ℕ → Option (ℕ × World)
unfolding ioctl arena_or_null
ka_seek host w arena pos = arena_or_null (ioctl host w Cmd.seek (request arena pos))

unfoldable pub ka_free : Host → World → ℕ → Option (ℕ × World)
unfolding ka_seek
ka_free host w arena = ka_seek host w arena 0

drop_answer : Option (Bool × World × KaData) → Option World
drop_answer none = none
drop_answer (some (err, w, d)) = some w

unfoldable pub ka_pop : Host → World → ℕ → ℕ → Option World
unfolding ioctl drop_answer
ka_pop host w arena size = drop_answer (ioctl host w Cmd.pop (request arena size))

unfoldable pub ka_pos : Host → World → ℕ → Option (ℕ × World)
unfolding ioctl size_or_minus_one
ka_pos host w arena = size_or_minus_one (ioctl host w Cmd.pos (request arena 0))

unfoldable pub ka_reserve : Host → World → ℕ → ℕ → Option (ℕ × World)
unfolding ioctl size_or_minus_one
ka_reserve host w arena sz = size_or_minus_one (ioctl host w Cmd.reserve (request arena sz))

unfoldable pub ka_base : Host → World → ℕ → Option (ℕ × World)
unfolding ioctl arena_or_null
ka_base host w arena = arena_or_null (ioctl host w Cmd.base (request arena 0))

unfoldable pub ka_size : Host → World → ℕ → Option (ℕ × World)
unfolding ioctl size_or_minus_one
ka_size host w arena = size_or_minus_one (ioctl host w Cmd.size (request arena 0))

-- `munmap` is called if the size in `alloc` is not 0.
unfoldable pub unmap_answer : ℕ → Option (Bool × World × KaData) → Option World
unmap_answer arena none = none
unmap_answer arena (some (err, w, d)) =
    some (if ltb 0 d.size then record w { munmaps = w.munmaps ++ ((arena, d.size) ∷ []) } else w)

unfoldable pub ka_destroy : Host → World → ℕ → Option World
unfolding ioctl unmap_answer
ka_destroy host w arena = unmap_answer arena (ioctl host w Cmd.destroy (request arena 0))

unfoldable pub ka_bootstrap : Host → World → ℕ → ℕ → Option (ℕ × World)
unfolding ioctl arena_or_null
ka_bootstrap host w arena sz = arena_or_null (ioctl host w Cmd.bootstrap (request arena sz))

-- `ka_create` from its `mmap` on: `place` is the address that the kernel chooses (`none`: no room),
-- and the module has the last word. A descriptor that is closed stays in `fd`; `dev_release`, which the
-- kernel calls once neither descriptors nor mappings of the file are left, is no part of it.
unfoldable pub map_created : World → Option ℕ → KaData → Option (ℕ × World)
map_created w none d = some (0, record w { fd = stale })
map_created w (some place) d =
    elim (karena_mmap w.kernel
      (record { vm_start = place; vm_end = add_size place d.size; vm_pgoff = 0 })) [
        | none ↦ none
        | some (ret, k) ↦ elim ret [
          | ok ↦ some (d.arena, record w { kernel = k })
          | _ ↦ some (0, record w { kernel = k; fd = stale })
        ]
      ]

unfoldable pub create_answer : Option ℕ → Option (Bool × World × KaData) → Option (ℕ × World)
create_answer place none = none
create_answer place (some (err, w, d)) =
    if err then some (0, record w { fd = stale }) else map_created w place d

-- `if (!fd)`: the device is opened (`opens` tells whether that succeeds) when it is not yet.
-- The second part tells whether to go on.
unfoldable pub open_device : Fd → World → Bool → World × Bool
open_device unset w true = (record w { fd = device; kernel = dev_open w.kernel }, true)
open_device unset w false = (record w { fd = stale }, false)
open_device f w opens = (w, true)

unfoldable pub ka_create : Host → World → Bool → Option ℕ → ℕ → Option (ℕ × World)
unfolding ioctl map_created create_answer open_device
ka_create host w opens place size =
    let (w', go_on) = open_device w.fd w opens in
    if go_on then create_answer place (ioctl host w' Cmd.create (request 0 size)) else some (0, w')
