-- ===== src/SdhsArena.antt =====
-- src/allocators/sdhs_arena.h: the arena of the sensor data system, which is either u_arena.c or
-- karena.c, chosen by a macro.
pub mod Agree
mod Examples
use lmalloc.Common.{ℕ, suc, Bool, List, [], ◌∷◌, Option, none, some, ◌≡◌}
use lmalloc.UArena.{UArena, ua_alloc, ua_free, ua_pop, ua_pos, ua_seek, ua_reserve}
use lmalloc.KArena.{Host}
use lmalloc.KaClient.{
  World, ka_alloc, ka_seek, ka_free, ka_pop, ka_pos, ka_reserve, ka_base, ka_size,
}
use lmalloc.KaClient.Slot.{pointer}
use lmalloc.Wrappers.{Timing, ua_alloc_timed, ka_alloc_timed}

-- What the timed wrappers share: their static variables, and what the time stamp counter reads around each of the
-- allocations to come.
pub record Timer : Type 0 where
  pub timing : Timing
  pub readings : ℕ → ℕ × ℕ

abbrev pub ticked : Timing → Timer → Timer
ticked timing t = record { timing = timing; readings = λ k. t.readings (suc k) }

-- The macros, over the state `S` that they work on. A NULL pointer is 0, and `none` is a fault. `ArenaAlloc` is a timed
-- wrapper, which faults when the collection of times is full; `arena_push` is ArenaPushArray of so many bytes.
pub record SdhsArena (S : Type 0) : Type 0 where
  pub arena_alloc : S → ℕ → Timer → Option (ℕ × S × Timer)
  pub arena_push : S → ℕ → Option (ℕ × S)
  pub arena_free : S → Option S
  pub arena_pop : S → ℕ → Option S
  pub arena_pos : S → Option (ℕ × S)
  pub arena_seek : S → ℕ → Option (ℕ × S)
  pub arena_cap : S → Option (ℕ × S)
  pub arena_base : S → Option (ℕ × S)
  pub arena_reserve : S → ℕ → Option (ℕ × S)

-- The answers of the two wrappers.
abbrev pub u_answer : Option ((Option ℕ × UArena) × Timing) → Timer → Option (ℕ × UArena × Timer)
u_answer none t = none
u_answer (some ((p, ua), timing)) t = some (pointer p, ua, ticked timing t)

abbrev pub k_answer : Option (Option (ℕ × World) × Timing) → Timer → Option (ℕ × World × Timer)
k_answer none t = none
k_answer (some (none, timing)) t = none
k_answer (some (some (p, w), timing)) t = some (p, w, ticked timing t)

-- `SDHS_TEST_ARENA == 2`
abbrev pub u_arena : SdhsArena UArena
u_arena = record {
  arena_alloc =
      λ ua n t. u_answer (ua_alloc_timed ua n (t.readings 0).0 (t.readings 0).1 t.timing) t;
  arena_push = λ ua n. let (p, ua') = ua_alloc ua n in some (pointer p, ua');
  arena_free = λ ua. ua_free (some ua);
  arena_pop = λ ua n. some (ua_pop ua n);
  arena_pos = λ ua. some (ua_pos ua, ua);
  arena_seek = λ ua n. let (p, ua') = ua_seek ua n in some (pointer p, ua');
  arena_cap = λ ua. some (ua.cap, ua);
  arena_base = λ ua. some (ua.mem, ua);
  arena_reserve = λ ua n. some (ua_reserve ua n);
}

abbrev pub drop_pointer : Option (ℕ × World) → Option World
drop_pointer none = none
drop_pointer (some (p, w)) = some w

-- `SDHS_TEST_ARENA == 1`, for the arena in slot `i`
abbrev pub k_arena : Host → ℕ → SdhsArena World
k_arena host i = record {
  arena_alloc =
      λ w n t. k_answer (ka_alloc_timed host w i n (t.readings 0).0 (t.readings 0).1 t.timing) t;
  arena_push = λ w n. ka_alloc host w i n;
  arena_free = λ w. drop_pointer (ka_free host w i);
  arena_pop = λ w n. ka_pop host w i n;
  arena_pos = λ w. ka_pos host w i;
  arena_seek = λ w n. ka_seek host w i n;
  arena_cap = λ w. ka_size host w i;
  arena_base = λ w. ka_base host w i;
  arena_reserve = λ w n. ka_reserve host w i n;
}

-- A use of one of the macros.
pub data Use : Type 0 where
  alloc push pop seek reserve : ℕ → Use
  free pos cap' base : Use

-- The end of a use that answers nothing.
abbrev pub no_answer : {S : Type 0} → Option S → Option (ℕ × S)
no_answer none = none
no_answer (some s) = some (0, s)

-- The end of a use that is not timed.
abbrev pub untimed : {S : Type 0} → Timer → Option (ℕ × S) → Option (ℕ × S × Timer)
untimed t none = none
untimed t (some (x, s)) = some (x, s, t)

-- What it answers (0 where it answers nothing), and the state after it.
pub use_arena : {S : Type 0} → SdhsArena S → S → Timer → Use → Option (ℕ × S × Timer)
use_arena ops s t (alloc n) = ops.arena_alloc s n t
use_arena ops s t (push n) = untimed t (ops.arena_push s n)
use_arena ops s t (seek n) = untimed t (ops.arena_seek s n)
use_arena ops s t (reserve n) = untimed t (ops.arena_reserve s n)
use_arena ops s t pos = untimed t (ops.arena_pos s)
use_arena ops s t cap' = untimed t (ops.arena_cap s)
use_arena ops s t base = untimed t (ops.arena_base s)
use_arena ops s t (pop n) = untimed t (no_answer (ops.arena_pop s n))
use_arena ops s t free = untimed t (no_answer (ops.arena_free s))

-- One more answer, unless a later use faults.
abbrev pub cons_answer : ℕ → Option (List ℕ) → Option (List ℕ)
cons_answer x none = none
cons_answer x (some xs) = some (x ∷ xs)

abbrev pub then_answer :
    {S : Type 0} → Option (ℕ × S × Timer) → (S → Timer → Option (List ℕ)) → Option (List ℕ)
then_answer none rest = none
then_answer (some (x, s, t)) rest = cons_answer x (rest s t)

-- The answers of a row of uses; `none` if one of them faults.
pub answers : {S : Type 0} → SdhsArena S → S → Timer → List Use → Option (List ℕ)
unfolding use_arena
answers ops s t [] = some []
answers ops s t (u ∷ us) = then_answer (use_arena ops s t u) (λ s' t'. answers ops s' t' us)
