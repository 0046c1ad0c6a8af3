-- ===== src/Pipe/TwoBuffers.antt =====
-- src/sdhs/Common/SensorDataPipe.c: a pipe of two buffers, the size that configs/benchmark_config.json
-- sets.
use lmalloc.Common.{ℕ, ◌≡◌, refl, arith}
use lmalloc.UArena.{UArena}
use lmalloc.Pipe.{
  Pipe, get_write_buffer, filling, clearing, holding, WriterStep, ReaderStep, writes, reads, Reach,
  start, next, sdp_create, update_buffer, freed,
}

-- The pipe after the writer has sent one buffer and the reader has received it.
handed_over : (ℕ → UArena) → Pipe
handed_over buffers = record {
  write_buf_idx = 1;
  read_buf_idx = 1;
  full_buffers_count = 0;
  read_event = 0;
  write_event = 1;
  buf_count = 2;
  buffers = update_buffer buffers 1 (freed (buffers 1));
  cur_buf = 1;
}

first_round :
    (buffers : ℕ → UArena)
    → Reach 2 buffers (record { pipe = handed_over buffers; writer = filling; reader = holding 0 })
unfolding sdp_create handed_over
first_round buffers =
    next
      (next
        (next
          (next
            (next
              (next
                (next
                  (next
                    (next
                      (next
                        (next (next start (writes (WriterStep.call 1 refl)))
                          (writes (WriterStep.take get_write_buffer 1 (ground arith))))
                        (writes (WriterStep.store get_write_buffer 1)))
                      (writes (WriterStep.count get_write_buffer 1)))
                    (writes (WriterStep.signal get_write_buffer 1)))
                  (writes (WriterStep.clear get_write_buffer 1)))
                (reads ReaderStep.first_call))
              (reads (ReaderStep.take (ground arith))))
            (reads (ReaderStep.load 0 refl)))
          (reads (ReaderStep.advance 0)))
        (reads (ReaderStep.uncount 0)))
      (reads (ReaderStep.signal 0))

-- The same with the writer about to free the buffer behind.
second_round :
    (buffers : ℕ → UArena)
    → Reach 2 buffers (record {
      pipe = record (handed_over buffers) {
        write_buf_idx = 0;
        full_buffers_count = 1;
        read_event = 1;
        write_event = 0;
      };
      writer = clearing get_write_buffer 0;
      reader = holding 0;
    })
unfolding handed_over
second_round buffers =
    next
      (next
        (next
          (next (next (first_round buffers) (writes (WriterStep.call 0 refl)))
            (writes (WriterStep.take get_write_buffer 0 (ground arith))))
          (writes (WriterStep.store get_write_buffer 0)))
        (writes (WriterStep.count get_write_buffer 0)))
      (writes (WriterStep.signal get_write_buffer 0))

-- A new pipe of two buffers reaches a state in which the reader holds the buffer at 0, filled as at the
-- start, and the next step of the writer frees it.
pub two_buffers_overlap :
    (buffers : ℕ → UArena)
    → (p : Pipe) × (p' : Pipe) × Reach 2 buffers
        (record { pipe = p; writer = clearing get_write_buffer 0; reader = holding 0 })
      × WriterStep p (clearing get_write_buffer 0) p' filling
      × (p.buffers 0 ≡ buffers 0)
      × (p'.buffers 0 ≡ freed (buffers 0))
unfolding update_buffer handed_over
two_buffers_overlap buffers =
    (_, _, second_round buffers, WriterStep.clear get_write_buffer 0, refl, refl)
