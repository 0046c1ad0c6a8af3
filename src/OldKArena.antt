-- ===== src/OldKArena.antt =====
-- src/modules/oldkarena/okarena.c: the kernel module before karena.c, where an arena is found by the memory area of
-- the caller's address.
pub mod Areas
mod Examples
use lmalloc.Common.{
  ℕ, ◌+◌, ◌-◌, ◌*◌, ◌^◌, ◌%◌, Bool, true, false, Option, none, some, ltb, leb, ◌==◌, not,
  if◌then◌else◌, add_size, sub_size, word_mod,
}
use lmalloc.KArena.{Ret, ok, efault, enomem, einval, enotty}
use lmalloc.KArena.Ioctl.{Vma}

-- `struct mmap_info`
pub record MmapInfo : Type 0 where
  pub size : ℕ
  pub cur : ℕ
  pub addr : ℕ

-- `struct oka_data`
pub record OkaData : Type 0 where
  pub addr : ℕ
  pub size : ℕ

-- The module's state: the `mmap_info` objects by their addresses (`none` where none is), the object that each
-- memory area's private data point to (0 is NULL), and the device's `mmap_info`.
pub record OldKernel : Type 0 where
  pub infos : ℕ → Option MmapInfo
  pub private_data : ℕ → ℕ
  pub mmap_info : ℕ

-- What the module asks of the kernel: `kzalloc` and `vzalloc` (0 is NULL), `PAGE_ALIGN`, and `find_vma`.
pub record OldHost : Type 0 where
  pub kzalloc : ℕ
  pub vzalloc : ℕ → ℕ
  pub page_align : ℕ → ℕ
  pub find_vma : ℕ → Option ℕ

unfoldable pub set_info : (ℕ → Option MmapInfo) → ℕ → Option MmapInfo → ℕ → Option MmapInfo
set_info infos p info q = if p == q then info else infos q

-- The kernel once the object at `p` is `info`.
abbrev pub with_info : OldKernel → ℕ → Option MmapInfo → OldKernel
with_info k p info = record k { infos = set_info k.infos p info }

-- `none` is a fault: a NULL or a freed object is read.
abbrev pub OldOutcome : Type 0
OldOutcome = Option (Ret × OldKernel × OkaData)

-- `OKARENA_CREATE`. `arg` is what `copy_from_user` reads, `writable` whether `copy_to_user` works; the third
-- part is the size that is written to the caller, if one is.
unfoldable pub okarena_create : OldHost → OldKernel → Option ℕ → Bool → Ret × OldKernel × Option ℕ
okarena_create host k arg writable = if host.kzalloc == 0 then (enomem, k, none) else elim arg [
  | none ↦ (efault, with_info k host.kzalloc (some (record { size = 0; cur = 0; addr = 0 })), none)
  | some size ↦
      let aligned = host.page_align size in
      let p = host.vzalloc aligned in
      if aligned == 0
      then (einval, with_info k host.kzalloc none, none)
      else (if p == 0
          then (enomem, with_info k host.kzalloc none, none)
          else (if writable
              then (
                ok,
                record (with_info k host.kzalloc
                    (some (record { size = aligned; cur = 0; addr = p }))) {
                      mmap_info = host.kzalloc;
                    },
                some aligned,
              )
              else (efault, record (with_info k host.kzalloc none) { mmap_info = 0 }, none)))
]

-- The commands on an arena, as karena.h of the old module names them.
pub data OldCmd : Type 0 where
  alloc seek pop pos reserve destroy size : OldCmd

-- The end of a command that copies its data back.
abbrev pub copied : Bool → OldKernel → OkaData → OkaData → Ret × OldKernel × OkaData
copied true k d d' = (ok, k, d')
copied false k d d' = (efault, k, d)

-- One command on the object at `p`, which is `info`, for the memory area `vma`.
unfoldable pub okarena_command :
    OldKernel → OldCmd → ℕ → ℕ → MmapInfo → OkaData → Bool → Ret × OldKernel × OkaData
okarena_command k alloc vma p info d writable =
    copied writable (with_info k p (some (record info { cur = add_size info.cur d.size }))) d
      (record d { addr = add_size info.cur d.addr })
okarena_command k seek vma p info d writable =
    copied writable (with_info k p (some (record info { cur = d.size }))) d
      (record d { addr = add_size d.addr d.size })
okarena_command k pop vma p info d writable =
    if ltb info.cur d.size
    then (efault, k, d)
    else (ok, with_info k p (some (record info { cur = info.cur - d.size })), d)
okarena_command k pos vma p info d writable = copied writable k d (record d { size = info.cur })
okarena_command k reserve vma p info d writable =
    if ltb info.size (add_size info.cur d.size)
    then copied writable k d (record d { size = sub_size info.size info.cur })
    else copied writable (with_info k p (some (record info { cur = add_size info.cur d.size }))) d d
okarena_command k destroy vma p info d writable = (
  ok,
  record (with_info k p none) { private_data = λ v. if vma == v then 0 else k.private_data v },
  d,
)
okarena_command k size vma p info d writable = copied writable k d (record d { size = info.size })

-- The object that an area points to.
abbrev pub at_object : OldKernel → OldCmd → ℕ → ℕ → Option MmapInfo → OkaData → Bool → OldOutcome
at_object k cmd vma p none d writable = none
at_object k cmd vma p (some info) d writable = some (okarena_command k cmd vma p info d writable)

-- The answer of `get_alloc_and_find_vma` is not tested.
abbrev pub at_area : OldKernel → OldCmd → Option ℕ → OkaData → Bool → OldOutcome
at_area k cmd none d writable = none
at_area k cmd (some vma) d writable =
    if k.private_data vma == 0
    then none
    else at_object k cmd vma (k.private_data vma) (k.infos (k.private_data vma)) d writable

-- `karena_ioctl` on a command that names an arena, with the caller's data readable.
unfoldable pub okarena_ioctl : OldHost → OldKernel → OldCmd → OkaData → Bool → OldOutcome
unfolding okarena_command
okarena_ioctl host k cmd d writable = at_area k cmd (host.find_vma d.addr) d writable

-- `karena_mmap`, for the memory area `vma`.
unfoldable pub okarena_mmap : OldKernel → ℕ → Vma → Option (Ret × OldKernel)
okarena_mmap k vma area =
    if k.mmap_info == 0 then some (einval, k) else elim (k.infos k.mmap_info) [
      | none ↦ none
      | some info ↦
          if ltb info.size (sub_size area.vm_end area.vm_start)
          then some (einval, k)
          else (if not (area.vm_pgoff == 0)
              then some (einval, k)
              else some (
                ok,
                record k { private_data = λ v. if vma == v then k.mmap_info else k.private_data v },
              ))
    ]

-- The page that `karena_vm_fault` gives for page number `pgoff` of an area; `none` is SIGBUS, `some none` a fault.
unfoldable pub okarena_vm_fault : (ℕ → ℕ) → OldKernel → ℕ → ℕ → Option (Option ℕ)
okarena_vm_fault vmalloc_to_page k vma pgoff =
    if k.private_data vma == 0 then none else elim (k.infos (k.private_data vma)) [
      | none ↦ some none
      | some info ↦
          let offset = (pgoff * 2 ^ 12) % word_mod in
          let page = vmalloc_to_page (info.addr + offset) in
          if leb info.size offset then none else (if page == 0 then none else some (some page))
    ]
