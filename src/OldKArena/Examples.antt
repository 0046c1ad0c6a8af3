-- ===== src/OldKArena/Examples.antt =====
-- src/modules/oldkarena/okarena.c: one object that is mapped in two areas.
use lmalloc.Common.{◌≡◌, refl, true, none, some, ltb, ◌==◌, if◌then◌else◌}
use lmalloc.KArena.{ok}
use lmalloc.KArena.Ioctl.{Vma}
use lmalloc.OldKArena.{
  MmapInfo, OkaData, OldKernel, OldHost, OldCmd, okarena_ioctl, okarena_command, set_info,
}

abbrev host : OldHost
host = record {
  kzalloc = 100;
  vzalloc = λ n. 4096;
  page_align = λ n. 4096;
  find_vma = λ a. if ltb a 65536 then some 1 else some 2;
}

abbrev object : MmapInfo
object = record { size = 4096; cur = 16; addr = 4096 }

abbrev kernel : OldKernel
kernel = record {
  infos = λ p. if p == 100 then some object else none;
  private_data = λ v. 100;
  mmap_info = 100;
}

abbrev first : OkaData
first = record { addr = 16384; size = 8 }

abbrev second : OkaData
second = record { addr = 131072; size = 8 }

-- The kernel after 8 bytes are allocated through the first area.
abbrev after_alloc : OldKernel
after_alloc = record kernel {
  infos = set_info kernel.infos 100 (some (record object { cur = 24 }));
}

alloc_first :
    okarena_ioctl host kernel OldCmd.alloc first true
    ≡ some (ok, after_alloc, record first { addr = 16400 })
unfolding okarena_ioctl okarena_command
alloc_first = refl

abbrev page : Vma
page = record { vm_start = 16384; vm_end = 20480; vm_pgoff = 0 }

abbrev next_page : Vma
next_page = record { vm_start = 131072; vm_end = 135168; vm_pgoff = 0 }

-- The kernel before the object is mapped, and after it is mapped at each of the two areas.
abbrev unmapped : OldKernel
unmapped = record kernel { private_data = λ v. 0 }

abbrev mapped : OldKernel
mapped = record unmapped { private_data = λ v. if 1 == v then 100 else 0 }

abbrev mapped_twice : OldKernel
mapped_twice = record mapped { private_data = λ v. if 2 == v then 100 else mapped.private_data v }
