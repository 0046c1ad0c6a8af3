-- ===== src/SdhsArena/Examples.antt =====
-- src/allocators/sdhs_arena.h: one row of uses, on both arenas.
use lmalloc.Common.{◌+◌, ◌≡◌, refl, List, [], ◌∷◌, arith}
use lmalloc.KArena.{KArena, Host}
use lmalloc.KArena.Reachable.{empty_slot}
use lmalloc.KaClient.{World, device}
use lmalloc.KaClient.Slot.{view}
use lmalloc.SdhsArena.{Use, Timer, answers, u_arena, k_arena}
use lmalloc.SdhsArena.Agree.{answers-agree}

abbrev slot : KArena
slot = record empty_slot { size = 4096; uaddr = 65536; kaddr = 2097152; owner_pid = 7 }

abbrev world : World
world = record {
  kernel = record { karenas = slot ∷ []; current_arena_index = 0; vmallocs = []; vfrees = [] };
  fd = device;
  munmaps = [];
}

abbrev host : Host
host = record { pid = 7; page_align = λ n. 4096; vmalloc = λ n. 2097152 }

abbrev uses : List Use
uses = Use.alloc 8 ∷ Use.pos ∷ Use.pop 4 ∷ Use.alloc 5000 ∷ Use.pos ∷ []

-- Room for three times, the counter going up by 5 in an allocation.
abbrev timer : Timer
timer = record {
  timing = record {
    tstats = record { total_tsc = 0; iter = 0 };
    tcoll = record { cap = 3; cur = 0; arr = 0 ∷ 0 ∷ 0 ∷ [] };
  };
  readings = λ k. (k, k + 5);
}

answers-agree_example :
    answers (k_arena host 0) world timer uses ≡ answers u_arena (view slot) timer uses
answers-agree_example =
    answers-agree host 0 uses world slot timer timer (record { cur = refl; room = refl }) refl refl
      (omega arith) (omega arith) (omega arith)
