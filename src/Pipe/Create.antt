-- ===== src/Pipe/Create.antt =====
-- sdhs/Common/SensorDataPipe.c, SdpCreate: the pipe and its buffers in an arena of u_arena.c.
use lmalloc.Common.{
  ℕ, zero, suc, ◌+◌, ◌-◌, ◌*◌, ◌%◌, Bool, true, false, Option, none, some, List, [], ◌∷◌, ◌==◌,
  if◌then◌else◌, Bytes, word_mod,
}
use lmalloc.UArena.{UArena, ua_init, ua_alloc, ua_pos, ua_seek}
use lmalloc.UArena.Create.{sizeof_uarena, ua_bootstrap}

abbrev pub sizeof_sensor_data_pipe : ℕ
sizeof_sensor_data_pipe = 64

-- `sizeof(SdhsArena *)`
abbrev pub sizeof_pointer : ℕ
sizeof_pointer = 8

-- A header with its arena; `none` is NULL.
abbrev pub PipeBuffer : Type 0
PipeBuffer = Option (ℕ × UArena)

-- The pipe that is answered (`none` is NULL), its buffers, the arena (`none`: destroyed), and the bytes. The
-- count that the write event starts from is one less than the number of buffers.
pub record CreatedPipe : Type 0 where
  pub pipe : Option ℕ
  pub buffers : List PipeBuffer
  pub arena : Option UArena
  pub bytes : Bytes
  pub write_event : ℕ

-- `PipeSize`
unfoldable pub pipe_size : ℕ → ℕ → ℕ
pipe_size buf_count buf_size =
    (sizeof_sensor_data_pipe
      + buf_count * sizeof_pointer
      + buf_count * sizeof_uarena
      + buf_count * buf_size)
    % word_mod

-- The loop that cuts the buffers from the arena.
unfoldable pub make_buffers : ℕ → ℕ → UArena → Bytes → List PipeBuffer × UArena × Bytes
unfolding ua_bootstrap
make_buffers zero buf_size arena m = ([], arena, m)
make_buffers (suc left) buf_size arena m =
    let (buffer, arena', m') = ua_bootstrap arena none buf_size m in
    let (buffers, last, m'') = make_buffers left buf_size arena' m' in (buffer ∷ buffers, last, m'')

-- From the event descriptors on.
unfoldable pub with_events :
    ℕ → Bool → Bool → ℕ → Option ℕ → List PipeBuffer × UArena × Bytes → CreatedPipe
unfolding ua_seek
with_events buf_count using_arena events_ok f5 pipe (buffers, arena, m) =
    if events_ok
    then record {
      pipe = pipe;
      buffers = buffers;
      arena = some arena;
      bytes = m;
      write_event = (buf_count + word_mod - 1) % word_mod;
    }
    else record {
      pipe = none;
      buffers = [];
      arena = if using_arena then some (ua_seek arena f5).1 else none;
      bytes = m;
      write_event = 0;
    }

-- From the pipe and its pointers on: both are written to without a test, so a NULL pipe is a fault, and so is a NULL array unless there is
-- no buffer.
unfoldable pub with_pipe :
    ℕ → ℕ → Bool → Bool → ℕ → Option ℕ → Option ℕ → UArena → Bytes → Option CreatedPipe
unfolding make_buffers with_events
with_pipe buf_count buf_size using_arena events_ok f5 none pointers arena m = none
with_pipe buf_count buf_size using_arena events_ok f5 (some p) none arena m =
    if buf_count == 0
    then some (with_events buf_count using_arena events_ok f5 (some p) ([], arena, m))
    else none
with_pipe buf_count buf_size using_arena events_ok f5 (some p) (some q) arena m = some (
    with_events buf_count using_arena events_ok f5 (some p)
      (make_buffers buf_count buf_size arena m))

-- In an arena.
unfoldable pub create_in : ℕ → ℕ → Bool → Bool → UArena → Bytes → Option CreatedPipe
unfolding with_pipe ua_alloc ua_pos
create_in buf_count buf_size using_arena events_ok arena m =
    let f5 = ua_pos arena in
    let (pipe, arena1) = ua_alloc arena sizeof_sensor_data_pipe in
    let (pointers, arena2) = ua_alloc arena1 (buf_count * sizeof_pointer % word_mod) in
    with_pipe buf_count buf_size using_arena events_ok f5 pipe pointers arena2 m

-- With the arena that is passed, or one that `arena_create` answers for the size.
unfoldable pub sdp_create_memory :
    (ℕ → UArena) → Bool → ℕ → ℕ → Option UArena → Bytes → Option CreatedPipe
unfolding create_in pipe_size
sdp_create_memory arena_create events_ok buf_count buf_size none m =
    create_in buf_count buf_size false events_ok (arena_create (pipe_size buf_count buf_size)) m
sdp_create_memory arena_create events_ok buf_count buf_size (some arena) m =
    create_in buf_count buf_size true events_ok arena m

-- Buffers one behind the other from `at` on, each behind its header.
abbrev pub buffers_from : ℕ → ℕ → ℕ → List PipeBuffer
buffers_from zero buf_size at' = []
buffers_from (suc left) buf_size at' =
    some (at', ua_init false false true buf_size (at' + sizeof_uarena))
    ∷ buffers_from left buf_size (at' + (sizeof_uarena + buf_size))

-- The bytes of a pipe with its buffers.
abbrev pub whole_size : ℕ → ℕ → ℕ
whole_size buf_count buf_size =
    sizeof_sensor_data_pipe + buf_count * sizeof_pointer + buf_count * (sizeof_uarena + buf_size)
