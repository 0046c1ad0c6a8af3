-- ===== src/Sdb/Examples.antt =====
-- sdhs/Sdb.h: concrete runs, and the theorems at concrete inputs.
use mathlib.Core.Option.{map}
use lmalloc.Common.{
  ℕ, ◌+◌, ◌≡◌, refl, inl, true, false, Option, none, some, [], ◌∷◌, arith, ltb, ◌==◌, if◌then◌else◌,
  Bytes, put,
}
use lmalloc.UArena.{UArena, ua_alloc, ua_zalloc, ua_pos, ua_seek, ua_reserve, ua_free}
use lmalloc.SdhsArena.{u_arena, Timer}
use lmalloc.Lm.Strings.{
  LmWorld, lm_string_make_space, lm_string_append_from, lm_string_backspace, lm_string_clear,
  lm_strings_are_equal, lm_string_len,
}
use lmalloc.Lm.Log.{LogCalls}
use lmalloc.Lm.Log.Lock.{IsSized}
use lmalloc.Sdb.Arena.{
  sdb_arena_push, sdb_arena_reserve, sdb_arena_seek, sdb_arena_get_pos, sdb_arena_clear,
  sdb_arena_push_zero,
}
use lmalloc.Sdb.Arena.Agree.{as_sdb, sdb_result, sdb_arena-ua_arena}
use lmalloc.Sdb.Arena.Pool.{Pool, IsPool, pool_alloc, pool_release, alloc-release}
use lmalloc.Sdb.Strings.{
  sdb_string_make_space, sdb_string_append_from, sdb_string_backspace, sdb_string_clear,
  sdb_strings_are_equal, sdb_string_make_from, sdb_string_free,
}
use lmalloc.Sdb.Strings.Agree.{answered, sdb_string-lm_string}
use lmalloc.Sdb.Strings.Free.{free-make}
use lmalloc.Sdb.Log.{SdbLogModule, SdbLogged, Ends, sdb_write_log, sdb_write_log_lem}
use lmalloc.Sdb.Rng.{rand_run}
use lmalloc.Sdb.Tokens.{sdb_get_next_token, sdb_get_next_token_lem}
use lmalloc.Sdb.MemMap.{
  MapCalls, MapFlags, by_name, sdb_mem_map, sdb_mem_unmap, unmaps, closes, unmap-map,
}
use lmalloc.Sdb.Files.{SdbFileCalls}

-- A tab, two characters and the end of the line, from address 1 on.
abbrev line : Bytes
line a =
    if a == 1
    then b'\t'
    else if a == 2
    then b'4'
    else if a == 3
    then b'2'
    else if a == 4
    then b'\n'
    else 0

sdb_get_next_token_lem_example :
    sdb_get_next_token 0 line ≡ some (record { start = 2; len = 2 }, 4, put line 4 0)
sdb_get_next_token_lem_example =
    sdb_get_next_token_lem 0 1 2 line (omega arith) (omega arith) (λ j lt. ground arith) refl
      (λ j lt. ground arith) (inl refl)

abbrev arena : UArena
arena = record { flags = 0; cap = 200; cur = 16; mem = 1000 }

sdb_arena-ua_arena_example :
    (sdb_arena_push (as_sdb arena) 8 ≡ sdb_result (ua_alloc arena 8))
    × (sdb_arena_reserve (as_sdb arena) 8 ≡ sdb_result (ua_reserve arena 8))
    × (sdb_arena_seek (as_sdb arena) 8 ≡ sdb_result (ua_seek arena 8))
    × (sdb_arena_get_pos (as_sdb arena) ≡ ua_pos arena)
    × (some (sdb_arena_clear (as_sdb arena)) ≡ map as_sdb (ua_free (some arena)))
    × (let (p, ua', n) = ua_zalloc arena 8 line in
        sdb_arena_push_zero (as_sdb arena) 8 line ≡ (p, as_sdb ua', n))
sdb_arena-ua_arena_example = sdb_arena-ua_arena arena 8 line

-- A pool with one instance out, at 1000, and none free.
abbrev pool : Pool
pool = record { arena = as_sdb arena; first_free = 0; next = λ p. 0 }

pool-IsPool : IsPool pool (1000 ∷ []) []
pool-IsPool = record {
  chain = refl;
  out_distinct = (tt, tt);
  free_distinct = tt;
  apart = tt;
  out_pushed = (omega arith, omega arith, tt);
  free_pushed = tt;
  placed = omega arith;
  within = omega arith;
  in_space = omega arith;
}

alloc-release_example :
    (pool' : Pool) × IsPool (pool_release 1000 pool) [] (1000 ∷ [])
    × (pool_alloc 16 (pool_release 1000 pool) ≡ (some 1000, pool'))
    × IsPool pool' (1000 ∷ []) []
alloc-release_example = alloc-release 16 pool [] [] 1000 pool-IsPool

-- A string of length 3 at 1024.
abbrev strings : LmWorld
strings = record {
  arenas = λ a. record { flags = 0; cap = 200; cur = 28; mem = 1000 };
  headers = λ p. record { ua = 8; len = 3; cap = 3 };
  bytes = λ p. if ltb p 1027 then p else 0;
}

sdb_string-lm_string_example :
    (sdb_string_make_space u_arena 1024 2 strings ≡ answered (lm_string_make_space 1024 2 strings))
    × (sdb_string_append_from u_arena 1024 500 2 strings
        ≡ answered (lm_string_append_from 1024 500 2 strings))
    × (sdb_string_backspace 1024 2 strings ≡ lm_string_backspace 1024 2 strings)
    × (sdb_string_clear 1024 strings ≡ lm_string_clear 1024 strings)
    × (sdb_strings_are_equal 1024 500 strings ≡ lm_strings_are_equal 1024 500 strings)
unfolding lm_string_len
sdb_string-lm_string_example =
    sdb_string-lm_string 1024 500 2 strings (λ e. absurd (omega arith)) (inl (omega arith))

-- Room for one time.
abbrev timer : Timer
timer = record {
  timing = record {
    tstats = record { total_tsc = 0; iter = 0 };
    tcoll = record { cap = 1; cur = 0; arr = 0 ∷ [] };
  };
  readings = λ k. (k, k + 5);
}

free-make_example :
    (string : ℕ) × (w1 w2 : LmWorld) × (t' : Timer) × (sdb_string_make_from u_arena
        (some 500)
        4
        8
        strings
        timer
      ≡ some (string, w1, t'))
    × (sdb_string_free u_arena string w1 ≡ some w2)
    × ((w2.arenas 8).cur ≡ (strings.arenas 8).cur)
free-make_example =
    free-make (some 500) 4 8 strings timer (omega arith) (omega arith) (omega arith) (omega arith)

abbrev calls : LogCalls
calls = record {
  time_ok = true;
  localtime_ok = true;
  strftime_ret = 10;
  prefix_ret = some 12;
  message_ret = some 20;
  dropped_ret = some 24;
  write_ok = false;
  fwrite_ok = true;
  ferror_ret = 1;
  errno = 5;
  asserts = true;
}

abbrev log : SdbLogModule
log = record { lock = false; buffer_size = 128 }

calls-IsSized : IsSized calls log.buffer_size
calls-IsSized = record {
  time_written = λ e. absurd (omega arith);
  time_fits = omega arith;
  prefix_written = λ e. ground arith;
  dropped_written = λ e. ground arith;
}

sdb_write_log_lem_example : (r : SdbLogged) × (sdb_write_log calls true log ≡ some r) × Ends log r
sdb_write_log_lem_example = sdb_write_log_lem calls true log refl calls-IsSized

two_numbers : (rand_run 2 1).1 ≡ (rand_run 2 1).1
two_numbers = refl

abbrev seed : ℕ
seed = 1

abbrev map_calls : MapCalls
map_calls = record { open_ret = some 3; ftruncate_ok = true; lseek_ok = true; mmap_ret = some 4096 }

abbrev map_flags : MapFlags
map_flags = record {
  truncates = false;
  shared = true;
  writes = true;
  anonymous = false;
  private' = false;
}

mapped_ok : (sdb_mem_map map_calls map_flags by_name none).0 ≡ true
unfolding sdb_mem_map
mapped_ok = refl

unmap-map_example :
    (p : ℕ) × (map_calls.mmap_ret ≡ some p)
    × ((sdb_mem_map map_calls map_flags by_name none).1.data' ≡ some p)
    × (unmaps p (sdb_mem_unmap (sdb_mem_map map_calls map_flags by_name none).1).events ≡ 1)
    × (closes 3 (sdb_mem_unmap (sdb_mem_map map_calls map_flags by_name none).1).events ≡ 1)
unmap-map_example = unmap-map map_calls map_flags none 3 refl mapped_ok

abbrev stale : Option ℕ
stale = some 77

abbrev file_calls : SdbFileCalls
file_calls = record { fopen_ok = true; fseek_ok = true; size = 20; calloc_ret = 0; bytes_read = 19 }
