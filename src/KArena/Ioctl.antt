-- ===== src/KArena/Ioctl.antt =====
-- src/modules/karena/karena.c: the handlers that work on the table, the dispatch of ioctl, and the
-- other file operations. `none` is a kernel fault: an access outside the table, or `kfree` of a slot.
use lmalloc.Common.{
  ℕ, ◌+◌, ◌-◌, ◌*◌, ◌^◌, ◌%◌, Bool, true, false, Option, none, some, List, [], ◌∷◌, ◌++◌, ◌==◌, ltb,
  leb, not, ◌&&◌, get_elem?, if◌then◌else◌, add_size, sub_size, word_mod,
}
use lmalloc.KArena.{
  KArena, KaData, Kernel, Host, Ret, ok, efault, einval, enotty, update, find_open_slot,
  handle_arena_alloc, handle_arena_seek, handle_arena_pop, handle_arena_pos, handle_arena_reserve,
  handle_arena_size, handle_arena_base, handle_arena_destroy,
}

-- What a handler leaves: its return value, the module's state, and the caller's data.
abbrev pub Outcome : Type 0
Outcome = Option (Ret × Kernel × KaData)

-- The slot as `handle_arena_create` leaves it before it asks for memory.
abbrev pub fresh_slot : ℕ → ℕ → KArena → KArena
fresh_slot pid size a = record a {
  uaddr = 0;
  bootstrapped = false;
  owner_pid = pid;
  cur = 0;
  size = size;
}

-- `handle_arena_create` from the answer of `find_open_slot` on.
unfoldable pub create_in : Host → Kernel → KaData → Option ℕ × List KArena → Outcome
create_in host k alloc (none, marked) = some (efault, record k { karenas = marked }, alloc)
create_in host k alloc (some index, marked) =
    let size = host.page_align alloc.size in
    let kaddr = host.vmalloc size in
    if size == 0
    then none
    else (if kaddr == 0
        then none
        else some (
          ok,
          record k {
            karenas =
                update marked index (λ a. record (fresh_slot host.pid size a) { kaddr = kaddr });
            current_arena_index = index;
            vmallocs = k.vmallocs ++ (kaddr ∷ []);
          },
          record { size = size; arena = index },
        ))

unfoldable pub handle_arena_create : Host → Kernel → KaData → Outcome
handle_arena_create host k alloc = create_in host k alloc (find_open_slot k.karenas)

-- `handle_arena_bootstrap` from the answer of `find_open_slot` on.
unfoldable pub bootstrap_in :
    Kernel → KArena → KaData → Option ℕ × List KArena → Ret × Kernel × KaData
bootstrap_in k arena alloc (none, marked) = (efault, record k { karenas = marked }, alloc)
bootstrap_in k arena alloc (some index, marked) = (
  ok,
  record k {
    karenas = update marked index (λ _. record {
      size = alloc.size;
      cur = 0;
      uaddr = add_size arena.uaddr arena.cur;
      bootstrapped = true;
      kaddr = arena.kaddr;
      owner_pid = arena.owner_pid;
    });
  },
  record alloc { arena = index },
)

-- The arena at `i` pays for the block before a slot is looked for.
unfoldable pub handle_arena_bootstrap : Kernel → ℕ → KArena → KaData → Ret × Kernel × KaData
handle_arena_bootstrap k i arena alloc =
    if ltb (sub_size arena.size arena.cur) alloc.size
    then (efault, k, alloc)
    else bootstrap_in k arena alloc (
        find_open_slot (update k.karenas i (λ a. record a { cur = add_size arena.cur alloc.size })))

-- The commands of karena.h.
pub data Cmd : Type 0 where
  create alloc seek pop pos reserve destroy size bootstrap base : Cmd
  unknown : ℕ → Cmd

-- Write the arena back at its slot.
abbrev pub store : Kernel → ℕ → Ret × KArena × KaData → Outcome
store k i (ret, arena, d) = some (ret, record k { karenas = update k.karenas i (λ _. arena) }, d)

-- The `switch` of `karena_ioctl` below `create` and the unknown commands: `info` is the arena at `i`.
unfoldable pub dispatch : Kernel → Cmd → ℕ → KArena → KaData → Outcome
dispatch k alloc i info d = store k i (handle_arena_alloc info d)
dispatch k seek i info d = store k i (handle_arena_seek info d)
dispatch k pop i info d = store k i (handle_arena_pop info d)
dispatch k pos i info d = store k i (handle_arena_pos info d)
dispatch k reserve i info d = store k i (handle_arena_reserve info d)
dispatch k destroy i info d =
    let (arena, d', freed) = handle_arena_destroy info d in
    some
      (ok, record k { karenas = update k.karenas i (λ _. arena); vfrees = k.vfrees ++ freed }, d')
dispatch k size i info d = store k i (handle_arena_size info d)
dispatch k bootstrap i info d = some (handle_arena_bootstrap k i info d)
dispatch k base i info d = store k i (handle_arena_base info d)
dispatch k _ i info d = some (enotty, k, d)

-- The arena that a command works on is read with no test of the index.
abbrev pub at_slot : Kernel → Cmd → KaData → Option KArena → Outcome
at_slot k cmd d none = none
at_slot k cmd d (some info) = dispatch k cmd d.arena info d

-- The `switch`. `info` is `&karenas[alloc.arena]`.
unfoldable pub ioctl_switch : Host → Kernel → Cmd → KaData → Outcome
unfolding dispatch
ioctl_switch host k create d = handle_arena_create host k d
ioctl_switch host k (unknown n) d = some (enotty, k, d)
ioctl_switch host k cmd d = at_slot k cmd d (get_elem? k.karenas d.arena)

-- Is the data copied back to the caller?
unfoldable pub copies_back : Cmd → Bool
copies_back pop = false
copies_back destroy = false
copies_back cmd = true

unfoldable pub is_ok : Ret → Bool
is_ok ok = true
is_ok r = false

-- The end of `karena_ioctl`. The third part is what the caller's memory holds after the call.
unfoldable pub copy_out : Cmd → KaData → Bool → Outcome → Option (Ret × Kernel × Option KaData)
copy_out cmd d writable none = none
copy_out cmd d writable (some (ret, k', d')) =
    if not (is_ok ret)
    then some (ret, k', some d)
    else (if copies_back cmd
        then (if writable then some (ok, k', some d') else some (efault, k', some d))
        else some (ok, k', some d))

-- `arg` is what `copy_from_user` reads (`none`: it fails), `writable` whether `copy_to_user` works.
unfoldable pub karena_ioctl :
    Host → Kernel → Cmd → Option KaData → Bool → Option (Ret × Kernel × Option KaData)
unfolding ioctl_switch copies_back is_ok copy_out
karena_ioctl host k cmd none writable = some (efault, k, none)
karena_ioctl host k cmd (some d) writable = copy_out cmd d writable (ioctl_switch host k cmd d)

-- `struct vm_area_struct`, the part that is used.
pub record Vma : Type 0 where
  pub vm_start : ℕ
  pub vm_end : ℕ
  pub vm_pgoff : ℕ

-- The arena of the area becomes that of the table's current slot.
unfoldable pub karena_mmap : Kernel → Vma → Option (Ret × Kernel)
karena_mmap k vma = elim (get_elem? k.karenas k.current_arena_index) [
  | none ↦ none
  | some arena ↦
      if not (arena.uaddr == 0)
      then some (einval, k)
      else (if ltb arena.size (sub_size vma.vm_end vma.vm_start)
          then some (einval, k)
          else (if not (vma.vm_pgoff == 0)
              then some (einval, k)
              else some (
                ok,
                record k {
                  karenas =
                      update k.karenas k.current_arena_index
                        (λ a. record a { uaddr = vma.vm_start });
                },
              )))
]

-- The page that `karena_vm_fault` gives for page number `pgoff` of an arena; `none` is SIGBUS.
-- `vmalloc_to_page` answers 0 for NULL.
unfoldable pub karena_vm_fault : (ℕ → ℕ) → KArena → ℕ → Option ℕ
karena_vm_fault vmalloc_to_page arena pgoff =
    let offset = (pgoff * 2 ^ 12) % word_mod in
    if leb arena.size offset
    then none
    else (let page = vmalloc_to_page (arena.kaddr + offset) in
        if page == 0 then none else some page)

unfoldable pub dev_open : Kernel → Kernel
dev_open k = record k { current_arena_index = word_mod - 1 }

-- The loop of `dev_release`: the table after it, and what was given to `vfree`. It returns at the
-- first bootstrapped arena of the process.
unfoldable pub release_from : ℕ → List KArena → List KArena × List ℕ
release_from pid [] = ([], [])
release_from pid (a ∷ rest) =
    let (rest', freed) = release_from pid rest in
    let wiped = record a { uaddr = 0; cur = 0; size = 0; owner_pid = 0 } in
    if not (a.uaddr == 0) && a.owner_pid == pid
    then (if a.bootstrapped
        then (record wiped { bootstrapped = false } ∷ rest, [])
        else (if not (a.kaddr == 0)
            then (record wiped { kaddr = 0 } ∷ rest', a.kaddr ∷ freed)
            else (wiped ∷ rest', freed)))
    else (a ∷ rest', freed)

unfoldable pub dev_release : ℕ → Kernel → Kernel
unfolding release_from
dev_release pid k =
    let (karenas, freed) = release_from pid k.karenas in
    record k { karenas = karenas; vfrees = k.vfrees ++ freed }
