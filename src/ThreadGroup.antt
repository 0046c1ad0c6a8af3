-- ===== src/ThreadGroup.antt =====
-- src/sdhs/Common/ThreadGroup.c and ThreadGroup.h: groups of threads, the monitor of each group, and the manager
-- that waits for all groups. Memory comes from an arena of u_arena.c.
pub mod Memory
pub mod Starting
pub mod Monitors
pub mod Waiting
mod Examples
use lmalloc.Common.{
  ℕ, zero, suc, ◌+◌, ◌*◌, ◌%◌, ◌<◌, ◌≤◌, ◌≡◌, ◌≢◌, Bool, true, false, List, [], ◌∷◌, ◌++◌, Option,
  none, some, ◌==◌, if◌then◌else◌, word_mod,
}
use lmalloc.UArena.{UArena, ua_alloc}

-- The part of a `tg_group` that starting it needs: its number of threads, and whether it has a `Cleanup`.
pub record TgGroup : Type 0 where
  pub thread_count : ℕ
  pub has_cleanup : Bool

-- What a creation gives: `fault` is a write through NULL, `null` the answer NULL. `made` names the blocks in
-- the order in which they were cut.
pub data Made : Type 0 where
  fault null : Made
  made : List ℕ → Made

-- `ArenaPushArray` with elements of `size` bytes
abbrev pub push_array : UArena → ℕ → ℕ → Option ℕ × UArena
push_array ua size count = ua_alloc ua (size * count % word_mod)

-- `TgCreateManager` with an arena: the groups' pointers are cut and stored before the manager is tested.
-- `size` is the size of a `tg_manager`.
abbrev pub end_manager : Option ℕ → Option ℕ × UArena → Made × UArena
end_manager none (groups, ua) = (fault, ua)
end_manager (some m) (none, ua) = (null, ua)
end_manager (some m) (some g, ua) = (made (m ∷ g ∷ []), ua)

unfoldable pub tg_create_manager : UArena → ℕ → ℕ → Made × UArena
tg_create_manager ua size group_count =
    let (m, ua1) = push_array ua size 1 in end_manager m (push_array ua1 8 group_count)

-- `TgCreateGroup` with an arena, where each block is tested before the next is cut. `size` is the size of a
-- `tg_group`.
abbrev pub push_next :
    List ℕ → Option ℕ × UArena → (List ℕ → UArena → Made × UArena) → Made × UArena
push_next blocks (none, ua) rest = (null, ua)
push_next blocks (some p, ua) rest = rest (blocks ++ (p ∷ [])) ua

unfoldable pub tg_create_group : UArena → ℕ → ℕ → Made × UArena
tg_create_group ua size thread_count = push_next [] (push_array ua size 1) (λ group ua1.
    push_next group (push_array ua1 8 thread_count) (λ threads ua2.
      push_next threads (push_array ua2 8 thread_count) (λ tasks ua3. (made tasks, ua3))))

-- Both without an arena: one block of the C library's `malloc` (0 is NULL) holds all.
unfoldable pub tg_malloc_manager : (ℕ → ℕ) → ℕ → ℕ → Made
tg_malloc_manager malloc size group_count =
    let p = malloc ((size + group_count * 8) % word_mod) in
    if p == 0 then null else made (p ∷ (p + size) ∷ [])

unfoldable pub tg_malloc_group : (ℕ → ℕ) → ℕ → ℕ → Made
tg_malloc_group malloc size thread_count =
    let p = malloc ((size + thread_count * 8 + thread_count * 8) % word_mod) in
    if p == 0 then null else made (p ∷ (p + size) ∷ (p + size + thread_count * 8) ∷ [])

-- `sdb_errno`: 0, or minus an error number.
pub data SdbErrno : Type 0 where
  success : SdbErrno
  minus : ℕ → SdbErrno

-- The loop of `TgStartGroup` over the next `left` threads, from number `i` on: the first that `pthread_create`
-- does not start, with its error number.
first_failure : (ℕ → ℕ) → ℕ → ℕ → Option (ℕ × ℕ)
first_failure pthread_create zero i = none
first_failure pthread_create (suc left) i =
    let rest = first_failure pthread_create left (i + 1) in
    if pthread_create i == 0 then rest else some (i, pthread_create i)

-- The numbers below `n`.
abbrev pub below : ℕ → List ℕ
below zero = []
below (suc n) = below n ++ (n ∷ [])

-- What `TgStartGroup` returns, the threads that it started and those that it joined, whether it cleaned up,
-- and whether a monitor runs.
pub record Start : Type 0 where
  pub ret : SdbErrno
  pub started : List ℕ
  pub joined : List ℕ
  pub cleaned : Bool
  pub monitored : Bool

-- From the end of the loop on; `monitor` is what `pthread_create` returns for the monitor.
abbrev pub end_start : TgGroup → ℕ → Option (ℕ × ℕ) → Start
end_start g monitor (some (i, err)) = record {
  ret = minus err;
  started = below i;
  joined = below i;
  cleaned = g.has_cleanup;
  monitored = false;
}
end_start g monitor none =
    if monitor == 0
    then record {
      ret = success;
      started = below g.thread_count;
      joined = [];
      cleaned = false;
      monitored = true;
    }
    else record {
      ret = minus monitor;
      started = below g.thread_count;
      joined = [];
      cleaned = false;
      monitored = false;
    }

unfoldable pub tg_start_group : (ℕ → ℕ) → ℕ → TgGroup → Start
unfolding first_failure
tg_start_group pthread_create monitor g =
    end_start g monitor (first_failure pthread_create g.thread_count 0)

-- The loop of `TgManagerStartAll` over groups, each with what `pthread_create` returns for its threads and its
-- monitor: what is returned, and the starts that were tried. The first that fails is the last.
abbrev pub then_start : SdbErrno → Start → SdbErrno × List Start → SdbErrno × List Start
then_start success s (ret, starts) = (ret, s ∷ starts)
then_start (minus n) s rest = (minus n, s ∷ [])

unfoldable pub tg_manager_start_all : List ((ℕ → ℕ) × ℕ × TgGroup) → SdbErrno × List Start
unfolding tg_start_group
tg_manager_start_all [] = (success, [])
tg_manager_start_all ((pthread_create, monitor, g) ∷ groups) =
    let s = tg_start_group pthread_create monitor g in
    then_start s.ret s (tg_manager_start_all groups)
