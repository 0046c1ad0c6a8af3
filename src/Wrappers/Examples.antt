-- ===== src/Wrappers/Examples.antt =====
-- src/allocators/allocator_wrappers.c: runs of the wrappers.
use lmalloc.Common.{ℕ, ◌+◌, ◌%◌, ◌≡◌, refl, List, [], ◌∷◌, some, arith, word_mod, get_elem?, Bytes}
use lmalloc.UArena.{UArena, ua_alloc}
use lmalloc.UArena.Bounds.{IsValid}
use lmalloc.Wrappers.{Timing, init_alloc_tcoll, ua_alloc_timed, record_time, add_timing}
use lmalloc.Wrappers.Totals.{Span, span_time, total, record_all, record_all_lem}

abbrev fresh : Timing
fresh = record {
  tstats = record { total_tsc = 0; iter = 0 };
  tcoll = record { cap = 3; cur = 0; arr = 0 ∷ 0 ∷ 0 ∷ [] };
}

abbrev small : UArena
small = record { flags = 4; cap = 64; cur = 16; mem = 4096 }

small-IsValid : IsValid small
small-IsValid = omega arith

abbrev spans : List Span
spans = (100, 130) ∷ (200, 205) ∷ []

timed_alloc :
    ua_alloc_timed small 8 100 130 fresh
    ≡ some (
      (some 4112, record small { cur = 24 }),
      record {
        tstats = record { total_tsc = 30; iter = 1 };
        tcoll = record { cap = 3; cur = 1; arr = 30 ∷ 0 ∷ 0 ∷ [] };
      },
    )
unfolding ua_alloc_timed ua_alloc record_time add_timing
timed_alloc = refl

record_all_lem_example :
    (t' : Timing) × (record_all spans (init_alloc_tcoll 3 (0 ∷ 0 ∷ []) fresh) ≡ some t')
    × (t'.tcoll.cur ≡ 2)
    × (t'.tstats.total_tsc % word_mod ≡ (0 + total spans) % word_mod)
    × (t'.tstats.iter % word_mod ≡ (0 + 2) % word_mod)
    × ((k : ℕ) (s : Span)
        → get_elem? spans k ≡ some s
        → get_elem? t'.tcoll.arr k ≡ some (span_time s))
record_all_lem_example = record_all_lem spans 3 (0 ∷ 0 ∷ []) fresh (omega arith)

-- Memory that holds its own addresses.
abbrev numbered : Bytes
numbered a = a
