-- ===== src/Pipe/Examples.antt =====
-- src/sdhs/Common/SensorDataPipe.c: runs of a pipe of three buffers.
use lmalloc.Common.{Bytes, ℕ, ◌≡◌, ◌≢◌, ◌⊎◌, refl, arith}
use lmalloc.UArena.{UArena, ua_alloc}
use lmalloc.Pipe.{
  Pipe, get_write_buffer, filling, waiting, storing, clearing, holding, reading, loading,
  WriterStep, ReaderStep, writes, reads, Reach, start, next, sdp_create, update_buffer, freed,
}
use lmalloc.Pipe.Handover.{never_both_wait}
use lmalloc.Pipe.Exclusive.{Flushed, held-unchanged}
use lmalloc.Pipe.TwoBuffers.{two_buffers_overlap}

abbrev part_filled : ℕ → UArena
part_filled i = record { flags = 4; cap = 64; cur = 8; mem = 4096 }

-- The pipe after the writer has sent a buffer and the reader has received it, and the writer has called
-- again.
abbrev handed_over : Pipe
handed_over = record {
  write_buf_idx = 1;
  read_buf_idx = 1;
  full_buffers_count = 0;
  read_event = 0;
  write_event = 1;
  buf_count = 3;
  buffers = update_buffer part_filled 1 (freed (part_filled 1));
  cur_buf = 1;
}

handed_over-Reach :
    Reach 3 part_filled (record { pipe = handed_over; writer = filling; reader = holding 0 })
unfolding sdp_create
handed_over-Reach =
    next
      (next
        (next
          (next
            (next
              (next
                (next
                  (next
                    (next
                      (next
                        (next (next start (writes (WriterStep.call 1 refl)))
                          (writes (WriterStep.take get_write_buffer 1 (ground arith))))
                        (writes (WriterStep.store get_write_buffer 1)))
                      (writes (WriterStep.count get_write_buffer 1)))
                    (writes (WriterStep.signal get_write_buffer 1)))
                  (writes (WriterStep.clear get_write_buffer 1)))
                (reads ReaderStep.first_call))
              (reads (ReaderStep.take (ground arith))))
            (reads (ReaderStep.load 0 refl)))
          (reads (ReaderStep.advance 0)))
        (reads (ReaderStep.uncount 0)))
      (reads (ReaderStep.signal 0))

called_again :
    Reach 3 part_filled
      (record { pipe = handed_over; writer = waiting get_write_buffer 2; reader = reading })
called_again =
    next (next handed_over-Reach (writes (WriterStep.call 2 refl)))
      (reads (ReaderStep.call_again 0))

held-unchanged_example :
    (update_buffer handed_over.buffers 1 (ua_alloc (handed_over.buffers 1) 8).1 0
      ≡ handed_over.buffers 0)
    ⊎ ((filling ≡ filling)
        × (handed_over.cur_buf ≡ 0)
        × (handed_over.write_buf_idx ≢ 0)
        × Flushed handed_over-Reach)
held-unchanged_example =
    held-unchanged
      {t = record {
        pipe = record handed_over {
          buffers = update_buffer handed_over.buffers 1 (ua_alloc (handed_over.buffers 1) 8).1;
        };
        writer = filling;
        reader = holding 0;
      }}
      (omega arith) handed_over-Reach (writes (WriterStep.fill 8))

never_both_wait_example :
    WriterStep handed_over
      (waiting get_write_buffer 2)
      (record handed_over { write_event = 0 })
      (storing get_write_buffer 2)
    ⊎ ReaderStep handed_over reading (record handed_over { read_event = 0 }) loading
never_both_wait_example = never_both_wait (omega arith) called_again

two_buffers_overlap_example :
    (p : Pipe) × (p' : Pipe) × Reach 2 part_filled
      (record { pipe = p; writer = clearing get_write_buffer 0; reader = holding 0 })
    × WriterStep p (clearing get_write_buffer 0) p' filling
    × (p.buffers 0 ≡ part_filled 0)
    × (p'.buffers 0 ≡ freed (part_filled 0))
two_buffers_overlap_example = two_buffers_overlap part_filled

-- An arena of any size at one page.
abbrev fresh : ℕ → UArena
fresh n = record { flags = 0; cap = n; cur = 0; mem = 4_096 }

abbrev no_memory : Bytes
no_memory a = 0
