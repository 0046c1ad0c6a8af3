-- ===== src/Sdb/Files.antt =====
-- sdhs/Sdb.h, SdbLoadFileIntoMemory and SdbWriteBufferToFile: the file, the block and the arena.
use lmalloc.Common.{ℕ, Bool, true, false, Option, none, some, ◌==◌, not, if◌then◌else◌, add_size}
use lmalloc.SdhsArena.{SdhsArena, Timer}
use lmalloc.Sdb.Strings.{then_do}

-- What the C library answers: the place of the end of the file, the block of calloc with NULL as 0, and the bytes read.
pub record SdbFileCalls : Type 0 where
  pub fopen_ok : Bool
  pub fseek_ok : Bool
  pub size : ℕ
  pub calloc_ret : ℕ
  pub bytes_read : ℕ

-- The block with NULL as 0, the size written to it, how often the file was closed, whether the block of
-- calloc was freed, and the arena.
pub record SdbLoaded (S : Type 0) : Type 0 where
  pub file_data : ℕ
  pub file_size : ℕ
  pub closed : ℕ
  pub freed : Bool
  pub arena : Option S

-- `sizeof(sdb_file_data) + FileSize + 1`
abbrev pub file_data_size : ℕ → ℕ
file_data_size size = add_size (add_size 8 size) 1

module _ {S : Type 0} (ops : SdhsArena S) where
  sdb_refused : ℕ → Bool → Option S → SdbLoaded S
  sdb_refused closed freed arena = record {
    file_data = 0;
    file_size = 0;
    closed = closed;
    freed = freed;
    arena = arena;
  }

  -- After the block: the size is written, the bytes are read, and a short read gives the block back.
  sdb_load_read : SdbFileCalls → ℕ → Option S → Option (SdbLoaded S)
  unfolding sdb_refused
  sdb_load_read calls p arena =
      if p == 0
      then some (sdb_refused 1 false arena)
      else if calls.bytes_read == calls.size
      then some (record {
        file_data = p;
        file_size = calls.size;
        closed = 1;
        freed = false;
        arena = arena;
      })
      else sdb_load_undo arena
    where
      sdb_load_undo : Option S → Option (SdbLoaded S)
      sdb_load_undo none = some (sdb_refused 1 true none)
      sdb_load_undo (some s) =
          then_do (ops.arena_pop s (file_data_size calls.size))
            λ s'. some (sdb_refused 1 false (some s'))

  -- With the timer that is left.
  with_timer : Timer → Option (SdbLoaded S) → Option (SdbLoaded S × Timer)
  with_timer t none = none
  with_timer t (some loaded) = some (loaded, t)

  sdb_load_block : SdbFileCalls → Option S → Timer → Option (SdbLoaded S × Timer)
  unfolding sdb_load_read with_timer
  sdb_load_block calls none t = with_timer t (sdb_load_read calls calls.calloc_ret none)
  sdb_load_block calls (some s) t =
      then_do (ops.arena_alloc s (file_data_size calls.size) t)
        λ (p, s', t'). with_timer t' (sdb_load_read calls p (some s'))

  -- A NULL arena is `none`; the answer is `none` where a call of the arena faults.
  unfoldable pub sdb_load_file_into_memory :
      SdbFileCalls → Option S → Timer → Option (SdbLoaded S × Timer)
  unfolding sdb_load_block sdb_refused
  sdb_load_file_into_memory calls arena t =
      if not calls.fopen_ok
      then some (sdb_refused 0 false arena, t)
      else if not calls.fseek_ok
      then some (sdb_refused 1 false arena, t)
      else sdb_load_block calls arena t

-- Whether the call answers true, and how often the file was closed.
unfoldable pub sdb_write_buffer_to_file : Bool → ℕ → ℕ → Bool × ℕ
sdb_write_buffer_to_file fopen_ok fwrite_ret element_count =
    if not fopen_ok then (false, 0) else (fwrite_ret == element_count, 1)
