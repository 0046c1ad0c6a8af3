-- ===== src/Lm/Files.antt =====
-- lm.h, lm_load_file_into_memory and lm_write_bytes_to_file_by_name: the file, the block and the arena.
use lmalloc.Common.{
  ℕ, ◌+◌, ◌<◌, ◌≤◌, ◌≡◌, ◌⊎◌, arith, Bool, true, false, Option, none, some, ◌==◌, not,
  if◌then◌else◌, word_mod,
}
use lmalloc.UArena.{UArena, ua_alloc, ua_seek}

-- What the C library answers: `size` is the place of the end of the file, and `read_ok` whether the bytes
-- of a file that is not empty were read. fread of a size of 0 answers 0.
pub record FileCalls : Type 0 where
  pub fopen_ok : Bool
  pub fseek_ok : Bool
  pub size : ℕ
  pub malloc_ret : Option ℕ
  pub read_ok : Bool

abbrev pub fread_one : FileCalls → ℕ
fread_one calls = if calls.size == 0 then 0 else if calls.read_ok then 1 else 0

-- The block, the files left open, whether the block of malloc was freed, and the arena.
pub record LmLoaded : Type 0 where
  pub file_data : Option ℕ
  pub left_open : ℕ
  pub freed : Bool
  pub arena : Option UArena

abbrev pub not_loaded : ℕ → Bool → Option UArena → LmLoaded
not_loaded left_open freed arena = record {
  file_data = none;
  left_open = left_open;
  freed = freed;
  arena = arena;
}

-- The arena, sought back to the cursor of the scratch; without one, the block is freed.
lm_load_read : FileCalls → Option UArena → ℕ → Option UArena → LmLoaded
lm_load_read calls scratch p none =
    if not (fread_one calls == 1)
    then not_loaded 0 true none
    else record { file_data = some p; left_open = 0; freed = false; arena = none }
lm_load_read calls none p (some ua) = not_loaded 0 false (some ua)
lm_load_read calls (some old) p (some ua) =
    if not (fread_one calls == 1)
    then not_loaded 0 false (some (ua_seek ua old.cur).1)
    else record { file_data = some p; left_open = 0; freed = false; arena = some ua }

lm_load_block : FileCalls → Option UArena → Option ℕ × Option UArena → LmLoaded
unfolding lm_load_read
lm_load_block calls scratch (none, ua) = not_loaded 0 false ua
lm_load_block calls scratch (some p, ua) = lm_load_read calls scratch p ua

lm_load_alloc : FileCalls → Option UArena → Option ℕ × Option UArena
lm_load_alloc calls none = (calls.malloc_ret, none)
lm_load_alloc calls (some ua) = let (p, ua') = ua_alloc ua calls.size in (p, some ua')

-- A NULL arena is `none`.
unfoldable pub lm_load_file_into_memory : FileCalls → Option UArena → LmLoaded
unfolding lm_load_block lm_load_alloc
lm_load_file_into_memory calls ua =
    if not calls.fopen_ok
    then not_loaded 0 false ua
    else if not calls.fseek_ok
    then not_loaded 0 false ua
    else lm_load_block calls ua (lm_load_alloc calls ua)

-- Whether the call answers 0, and how many files it leaves open.
unfoldable pub lm_write_bytes_to_file_by_name : Bool → Bool → Bool × ℕ
lm_write_bytes_to_file_by_name fopen_ok fwrite_ok =
    if not fopen_ok then (false, 0) else if not fwrite_ok then (false, 1) else (true, 0)

-- Loading a file into a valid arena leaves no file open and frees nothing. When it fails, the arena is as before; when it answers a block, the file is
-- not empty, the block stands at the arena's cursor and the cursor is behind it.
pub lm_load-arena :
    (calls : FileCalls) (ua : UArena)
    → ua.cur ≤ ua.cap
    → ua.cap + calls.size < word_mod
    → let r = lm_load_file_into_memory calls (some ua) in
      (r.left_open ≡ 0)
      × (r.freed ≡ false)
      × (((r.file_data ≡ none) × (r.arena ≡ some ua))
          ⊎ ((r.file_data ≡ some (ua.mem + ua.cur))
              × (r.arena ≡ some (record ua { cur = ua.cur + calls.size }))
              × (0 < calls.size)
              × (ua.cur + calls.size ≤ ua.cap)))
unfolding lm_load_file_into_memory ua_alloc ua_seek
lm_load-arena calls ua inside small = ground arith
