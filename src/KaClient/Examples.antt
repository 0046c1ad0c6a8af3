-- ===== src/KaClient/Examples.antt =====
-- src/allocators/karena.c: a process that creates an arena and destroys it.
use lmalloc.Common.{◌≡◌, refl, true, [], ◌∷◌, some, get_elem?}
use lmalloc.KArena.{KArena, Host, update, find_open_slot}
use lmalloc.KArena.Ioctl.{
  ioctl_switch, handle_arena_create, create_in, is_ok, copy_out, copies_back, karena_ioctl,
  karena_mmap,
}
use lmalloc.KArena.Slots.{FirstOpen}
use lmalloc.KArena.Reachable.{empty_slot}
use lmalloc.KArena.Lifetime.{created_slot}
use lmalloc.KaClient.{
  World, device, request, ioctl, ioctl_on, ioctl_answer, open_device, create_answer, map_created,
  unmap_answer, ka_create, ka_destroy,
}
use lmalloc.KaClient.Create.{ka_create_lem}

-- A module with two slots, whose device is open.
abbrev world : World
world = record {
  kernel = record {
    karenas = empty_slot ∷ empty_slot ∷ [];
    current_arena_index = 0;
    vmallocs = [];
    vfrees = [];
  };
  fd = device;
  munmaps = [];
}

abbrev host : Host
host = record { pid = 7; page_align = λ n. 4096; vmalloc = λ n. 2097152 }

-- The world after an arena was created and mapped at 65536.
abbrev created_world : World
created_world = record world {
  kernel = record world.kernel {
    karenas =
        record empty_slot { size = 4096; uaddr = 65536; kaddr = 2097152; owner_pid = 7 }
        ∷ empty_slot
        ∷ [];
    vmallocs = 2097152 ∷ [];
  };
}

first_create : ka_create host world true (some 65536) 100 ≡ some (0, created_world)
unfolding ka_create open_device create_answer map_created ioctl ioctl_on ioctl_answer karena_ioctl
    karena_mmap ioctl_switch handle_arena_create create_in find_open_slot update copy_out
    copies_back is_ok
first_create = refl

ka_create_lem_example :
    FirstOpen world.kernel.karenas 0
    × (get_elem? created_world.kernel.karenas 0
        ≡ some (record (created_slot host (request 0 100)) { uaddr = 65536 }))
ka_create_lem_example =
    ka_create_lem host world 65536 100 {p = 0} {w' = created_world} refl first_create refl

-- A destroy of the arena in slot 0.
destroyed : (w' : World) × (ka_destroy host created_world 0 ≡ some w')
unfolding ka_destroy ioctl unmap_answer ioctl_on ioctl_answer karena_ioctl ioctl_switch
destroyed = (_, refl)

abbrev mapped : KArena
mapped = record empty_slot { size = 4096; cur = 16; uaddr = 65536; kaddr = 2097152; owner_pid = 7 }

-- The world with that arena in both slots, and later, when more of it is in use.
abbrev mapped_world : World
mapped_world = record world { kernel = record world.kernel { karenas = mapped ∷ mapped ∷ [] } }

abbrev later_world : World
later_world = record world {
  kernel = record world.kernel { karenas = mapped ∷ record mapped { cur = 80 } ∷ [] };
}
