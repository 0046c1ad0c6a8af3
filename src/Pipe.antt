-- ===== src/Pipe.antt =====
-- src/sdhs/Common/SensorDataPipe.c and SensorDataPipe.h: buffers handed from the thread that writes
-- them to the one that reads them, over two eventfds.
pub mod Create
pub mod Handover
pub mod Exclusive
pub mod TwoBuffers
mod Examples
use lmalloc.Common.{ℕ, ◌+◌, ◌-◌, ◌%◌, ◌≤◌, ◌<◌, ◌≡◌, ◌≢◌, Bool, ltb, ◌==◌, if◌then◌else◌}
use lmalloc.UArena.{UArena, ua_alloc, ua_free, ua_pos, ua_init}

-- `sensor_data_pipe`, with the counters of its two eventfds in place of the descriptors, and with `CurBuf` of
-- the writing thread, MbRun, as an index. `buffers` gives the arena at each index.
pub record Pipe : Type 0 where
  pub write_buf_idx : ℕ
  pub read_buf_idx : ℕ
  pub full_buffers_count : ℕ
  pub read_event : ℕ
  pub write_event : ℕ
  pub buf_count : ℕ
  pub buffers : ℕ → UArena
  pub cur_buf : ℕ

-- What the writing thread has called: `SdPipeGetWriteBuffer`, whose answer becomes `CurBuf`, or `SdPipeFlush`.
pub data PipeCall : Type 0 where
  get_write_buffer flush_pipe : PipeCall

-- Where the writing thread stands in a call; `filling` is outside, and `null_buffer` is where it writes to a `CurBuf` that is NULL, a fault. The
-- number is `NextWriteBuf`.
pub data Writer : Type 0 where
  filling null_buffer : Writer
  waiting storing counting signalling clearing : PipeCall → ℕ → Writer

-- Where the reading thread stands in `SdPipeGetReadBuffer`. `idle` is before its first call,
-- `reading` and `loading` before and after its `read`; the number is `CurReadBuffer`, and `holding` is
-- outside, with the buffer that was returned.
pub data Reader : Type 0 where
  idle reading loading : Reader
  advancing uncounting resignalling holding : ℕ → Reader

unfoldable pub update_buffer : (ℕ → UArena) → ℕ → UArena → ℕ → UArena
update_buffer buffers i a j = if i == j then a else buffers j

-- `ArenaFree`, of an arena that is not NULL.
abbrev pub freed : UArena → UArena
freed a = record a { cur = 0 }

-- The index behind `i`, going round.
abbrev pub next_idx : Pipe → ℕ → ℕ
next_idx p i = (i + 1) % p.buf_count

-- The pipe that `SdpCreate` leaves: all indices 0, and `BufCount - 1` in the write eventfd.
unfoldable pub sdp_create : ℕ → (ℕ → UArena) → Pipe
sdp_create buf_count buffers = record {
  write_buf_idx = 0;
  read_buf_idx = 0;
  full_buffers_count = 0;
  read_event = 0;
  write_event = buf_count - 1;
  buf_count = buf_count;
  buffers = buffers;
  cur_buf = 0;
}

-- `CurBuf` once a call has returned.
abbrev pub after_call : PipeCall → ℕ → ℕ → ℕ
after_call get_write_buffer next cur = next
after_call flush_pipe next cur = cur

-- One atomic action of the writing thread: `fill` puts data into `CurBuf` (the time that ArenaAlloc records is left out; where there is no room for it
-- the thread faults), `call` begins
-- `SdPipeGetWriteBuffer` and `flush` begins `SdPipeFlush`, which goes on in the same way but leaves `CurBuf` as it is, while a flush of
-- an empty buffer does nothing. A `read` of an eventfd waits for a count above 0, takes
-- the whole count and leaves 0; a `write` adds to it. A `read` that is interrupted ends the call, and `SdPipeGetWriteBuffer` answers NULL.
pub data WriterStep (p : Pipe) : Writer → Pipe → Writer → Type 0 where
  fill :
      (n : ℕ)
      → WriterStep p filling
          (record p {
            buffers = update_buffer p.buffers p.cur_buf (ua_alloc (p.buffers p.cur_buf) n).1;
          })
          filling
  call :
      (next : ℕ)
      → next ≡ next_idx p p.write_buf_idx
      → WriterStep p filling p (waiting get_write_buffer next)
  flush :
      (next : ℕ)
      → 0 < ua_pos (p.buffers p.write_buf_idx)
      → next ≡ next_idx p p.write_buf_idx
      → WriterStep p filling p (waiting flush_pipe next)
  get_interrupted : (next : ℕ) → WriterStep p (waiting get_write_buffer next) p null_buffer
  flush_interrupted : (next : ℕ) → WriterStep p (waiting flush_pipe next) p filling
  take :
      (c : PipeCall) (next : ℕ)
      → 0 < p.write_event
      → WriterStep p (waiting c next) (record p { write_event = 0 }) (storing c next)
  store :
      (c : PipeCall) (next : ℕ)
      → WriterStep p (storing c next) (record p { write_buf_idx = next }) (counting c next)
  count :
      (c : PipeCall) (next : ℕ)
      → WriterStep p
          (counting c next)
          (record p { full_buffers_count = p.full_buffers_count + 1 })
          (signalling c next)
  signal :
      (c : PipeCall) (next : ℕ)
      → WriterStep p
          (signalling c next)
          (record p { read_event = p.read_event + 1 })
          (clearing c next)
  clear :
      (c : PipeCall) (next : ℕ)
      → WriterStep p
          (clearing c next)
          (record p {
            buffers = update_buffer p.buffers next (freed (p.buffers next));
            cur_buf = after_call c next p.cur_buf;
          })
          filling

-- One atomic action of the reading thread.
pub data ReaderStep (p : Pipe) : Reader → Pipe → Reader → Type 0 where
  first_call : ReaderStep p idle p reading
  call_again : (cur : ℕ) → ReaderStep p (holding cur) p reading
  interrupted : ReaderStep p reading p idle
  take : 0 < p.read_event → ReaderStep p reading (record p { read_event = 0 }) loading
  load : (cur : ℕ) → cur ≡ p.read_buf_idx → ReaderStep p loading p (advancing cur)
  advance :
      (cur : ℕ)
      → ReaderStep p (advancing cur) (record p { read_buf_idx = next_idx p cur }) (uncounting cur)
  uncount :
      (cur : ℕ)
      → ReaderStep p
          (uncounting cur)
          (record p { full_buffers_count = p.full_buffers_count - 1 })
          (resignalling cur)
  signal :
      (cur : ℕ)
      → ReaderStep p (resignalling cur) (record p { write_event = p.write_event + 1 }) (holding cur)

-- The pipe and its two threads.
pub record System : Type 0 where
  pub pipe : Pipe
  pub writer : Writer
  pub reader : Reader

pub data Step (s : System) : System → Type 0 where
  writes :
      {p : Pipe} {w : Writer}
      → WriterStep s.pipe s.writer p w
      → Step s (record { pipe = p; writer = w; reader = s.reader })
  reads :
      {p : Pipe} {r : Reader}
      → ReaderStep s.pipe s.reader p r
      → Step s (record { pipe = p; writer = s.writer; reader = r })

-- The states that a new pipe of `n` buffers reaches.
pub data Reach (n : ℕ) (buffers : ℕ → UArena) : System → Type 0 where
  start : Reach n buffers (record { pipe = sdp_create n buffers; writer = filling; reader = idle })
  next : {s t : System} → Reach n buffers s → Step s t → Reach n buffers t
