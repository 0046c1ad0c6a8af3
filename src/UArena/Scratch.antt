-- ===== src/UArena/Scratch.antt =====
-- src/allocators/u_arena.c, the scratch functions and the thread arenas. Arenas are named by their
-- addresses, and 0 is NULL.
pub mod Restore
pub mod Pick
use lmalloc.Common.{
  ℕ, zero, suc, ◌+◌, Bool, true, false, Option, none, some, List, [], ◌∷◌, ◌==◌, leb, ltb, not, set,
  get_elem?, length, if◌then◌else◌, ◌||◌,
}
use lmalloc.UArena.{UArena, ua_pos, ua_seek}

-- The arena that stands at each address.
abbrev pub Arenas : Type 0
Arenas = ℕ → UArena

pub put : ℕ → UArena → Arenas → Arenas
put p ua st q = if p == q then ua else st q

-- `UaScratch`
pub record UaScratch : Type 0 where
  pub ua : ℕ
  pub f5 : ℕ

abbrev pub null_scratch : UaScratch
null_scratch = record { ua = 0; f5 = 0 }

unfoldable pub ua_scratch_begin : Arenas → ℕ → UaScratch
ua_scratch_begin st ua =
    if not (ua == 0) then record { ua = ua; f5 = (st ua).cur } else null_scratch

-- `ua_seek` reads its arena with no test: `none` is the fault of a NULL one.
unfoldable pub ua_scratch_release : Arenas → UaScratch → Option Arenas
unfolding put
ua_scratch_release st s = if s.ua == 0 then none else some (put s.ua (ua_seek (st s.ua) s.f5).1 st)

-- `struct ua__thread_arenas__`. `uas` is the whole buffer.
pub record ThreadArenas : Type 0 where
  pub uas : List ℕ
  pub count : ℕ
  pub max_count : ℕ

-- `ua__thread_arenas_init__`: `ta_buf` is the thread's static buffer.
unfoldable pub ua_thread_arenas_init : List ℕ → ThreadArenas → ThreadArenas
ua_thread_arenas_init ta_buf tas = record tas { uas = ta_buf }

unfoldable pub ua_thread_arenas_add : ℕ → ThreadArenas → ℕ × ThreadArenas
ua_thread_arenas_add a tas =
    if leb (tas.count + 1) tas.max_count
    then (0, record tas { uas = set tas.uas tas.count a; count = tas.count + 1 })
    else (1, tas)

-- The inner loop: is the arena another than one of the conflicts?
unfoldable pub differs : ℕ → List ℕ → Bool
differs a [] = false
differs a (c ∷ cs) = not (a == c) || differs a cs

-- The outer loop from index `i`, with its rounds left; NULL when it runs out.
unfoldable pub first_differing : List ℕ → List ℕ → ℕ → ℕ → Option ℕ
first_differing uas conflicts zero i = some 0
first_differing uas conflicts (suc left) i =
    let rest = first_differing uas conflicts left (i + 1) in
    elim (get_elem? uas i) [ none ↦ none | some a ↦ if differs a conflicts then some a else rest ]

-- `none` is a read outside the buffer.
unfoldable pub ua_scratch_pick : List ℕ → ThreadArenas → Option ℕ
unfolding first_differing differs
ua_scratch_pick conflicts tas =
    if ltb 0 (length conflicts)
    then first_differing tas.uas conflicts tas.count 0
    else get_elem? tas.uas 0

unfoldable pub ua_scratch_get : Arenas → List ℕ → ThreadArenas → Option UaScratch
unfolding ua_scratch_begin ua_scratch_pick
ua_scratch_get st conflicts tas = elim (ua_scratch_pick conflicts tas) [
  | none ↦ none
  | some ua ↦ some (if ua == 0 then null_scratch else ua_scratch_begin st ua)
]
