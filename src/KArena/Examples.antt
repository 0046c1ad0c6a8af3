-- ===== src/KArena/Examples.antt =====
-- src/modules/karena/karena.c: runs of the module on a table of three slots.
use lmalloc.Common.{
  ℕ, ◌+◌, ◌≤◌, ◌≡◌, ◌≢◌, ◌⊎◌, refl, true, false, [], ◌∷◌, none, some, arith, get_elem?,
}
use lmalloc.KArena.{KArena, KaData, Kernel, Host, ok, update, find_open_slot, handle_arena_alloc}
use lmalloc.KArena.Ioctl.{
  Cmd, ioctl_switch, dispatch, handle_arena_create, create_in, bootstrap_in, is_ok, copy_out,
  copies_back, handle_arena_bootstrap, karena_ioctl,
}
use lmalloc.KArena.Slots.{FirstOpen, find_open_slot_lem}
use lmalloc.KArena.Bounds.{IsValid}
use lmalloc.KArena.Isolation.{ioctl-isolated}
use lmalloc.KArena.Reachable.{loaded, Reach, Step, Reach-within, empty_slot}
use lmalloc.KArena.Nested.{Child, bootstrap-Child}

-- A mapped arena of process 7, one that was cut from it, and an open slot.
abbrev mapped : KArena
mapped = record {
  size = 4096;
  cur = 16;
  uaddr = 65536;
  bootstrapped = false;
  kaddr = 1048576;
  owner_pid = 7;
}

abbrev nested : KArena
nested = record {
  size = 16;
  cur = 0;
  uaddr = 65536;
  bootstrapped = true;
  kaddr = 1048576;
  owner_pid = 7;
}

abbrev kernel : Kernel
kernel = record {
  karenas = mapped ∷ nested ∷ empty_slot ∷ [];
  current_arena_index = 0;
  vmallocs = [];
  vfrees = [];
}

abbrev plain_kernel : Kernel
plain_kernel = record kernel { karenas = mapped ∷ empty_slot ∷ [] }

abbrev host : Host
host = record { pid = 7; page_align = λ n. 4096; vmalloc = λ n. 2097152 }

abbrev data_of : ℕ → ℕ → KaData
data_of size arena = record { size = size; arena = arena }

mapped-IsValid : IsValid mapped
mapped-IsValid = omega arith

alloc_in_slot :
    ioctl_switch host kernel Cmd.alloc (data_of 8 0)
    ≡ some (
      ok,
      record kernel { karenas = record mapped { cur = 24 } ∷ nested ∷ empty_slot ∷ [] },
      data_of 8 65552,
    )
unfolding ioctl_switch dispatch handle_arena_alloc update
alloc_in_slot = refl

find_open_slot_lem_example :
    ((j : ℕ) × (find_open_slot kernel.karenas
        ≡ (some j, update kernel.karenas j (λ a. record a { uaddr = 1 })))
      × FirstOpen kernel.karenas j)
    ⊎ ((find_open_slot kernel.karenas ≡ (none, kernel.karenas))
        × ((l : ℕ) (b : KArena) → get_elem? kernel.karenas l ≡ some b → b.uaddr ≢ 0))
find_open_slot_lem_example = find_open_slot_lem kernel.karenas

-- The page number of an address.
abbrev page_of : ℕ → ℕ
page_of x = x

ioctl-isolated_example :
    get_elem? (record mapped { cur = 24 } ∷ nested ∷ empty_slot ∷ []) 1 ≡ some nested
ioctl-isolated_example =
    ioctl-isolated host kernel Cmd.alloc (data_of 8 0) 1 nested refl (omega arith) (omega arith)
      alloc_in_slot

-- The module after one create.
abbrev after_create : Kernel
after_create = record loaded {
  karenas =
      update loaded.karenas 0
        (λ _. record empty_slot { size = 4096; kaddr = 2097152; owner_pid = 7 });
  current_arena_index = 0;
  vmallocs = 2097152 ∷ [];
}

create_in_loaded :
    karena_ioctl host loaded Cmd.create (some (data_of 100 0)) true
    ≡ some (ok, after_create, some (data_of 4096 0))
unfolding karena_ioctl ioctl_switch handle_arena_create create_in find_open_slot update copy_out
    copies_back is_ok
create_in_loaded = refl

after_create-Reach : Reach after_create
unfolding update
after_create-Reach = Reach.next Reach.start (
    Step.ioctl host Cmd.create (data_of 100 0) true ok (some (data_of 4096 0)) (λ n. omega arith)
      (omega arith, λ a e. tt) create_in_loaded)

Reach-within_example : 0 ≤ 4096
unfolding update
Reach-within_example =
    Reach-within 0 (record empty_slot { size = 4096; kaddr = 2097152; owner_pid = 7 })
      after_create-Reach refl

-- The kernel after a second arena of 16 bytes was cut from the first.
abbrev after_bootstrap : Kernel
after_bootstrap = record kernel {
  karenas = record mapped { cur = 32 } ∷ nested ∷ record nested { uaddr = 65552 } ∷ [];
}

bootstrap_in_kernel :
    handle_arena_bootstrap kernel 0 mapped (data_of 16 0) ≡ (ok, after_bootstrap, data_of 16 2)
unfolding handle_arena_bootstrap bootstrap_in find_open_slot update
bootstrap_in_kernel = refl

bootstrap-Child_example :
    (c : KArena) × (get_elem? after_bootstrap.karenas 2 ≡ some c)
    × (get_elem? after_bootstrap.karenas 0 ≡ some (record mapped { cur = 16 + 16 }))
    × Child mapped (data_of 16 0) c
    × (65536 ≤ c.uaddr)
    × (c.uaddr + c.size ≤ 65536 + 4096)
bootstrap-Child_example =
    bootstrap-Child kernel 0 mapped (data_of 16 0) {k' = after_bootstrap} {d' = data_of 16 2}
      mapped-IsValid (omega arith) (omega arith) refl bootstrap_in_kernel

-- Two creates in a row, with no mmap between them.
two_creates :
    (ioctl_switch host loaded Cmd.create (data_of 100 0) ≡ some (ok, after_create, data_of 4096 0))
    × (ioctl_switch host after_create Cmd.create (data_of 100 0)
        ≡ some (ok, record after_create { vmallocs = 2097152 ∷ 2097152 ∷ [] }, data_of 4096 0))
unfolding ioctl_switch handle_arena_create create_in find_open_slot update
two_creates = (refl, refl)
