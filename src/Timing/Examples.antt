-- ===== src/Timing/Examples.antt =====
-- metrics/timing.c: concrete runs, and the theorem at a concrete input.
use lmalloc.Common.{◌≡◌, ◌<◌, ◌/◌, ◌*◌, refl, some, arith, length, codes}
use lmalloc.Timing.{s_ms, us, format_timing}
use lmalloc.Timing.Reads.{precision, read_timing, format_timing_lem}

milliseconds : format_timing 12_034_567_890 s_ms ≡ codes "12.034 s"
unfolding format_timing
milliseconds = refl

microseconds : format_timing 12_034 us ≡ codes "12.034 us"
unfolding format_timing
microseconds = refl

format_timing_lem_example :
    (length (format_timing 12_034_567_890 s_ms) < 64)
    × (read_timing (format_timing 12_034_567_890 s_ms)
        ≡ some (12_034_567_890 / precision s_ms * precision s_ms))
format_timing_lem_example =
    format_timing_lem 12_034_567_890 s_ms (omega arith) (λ e. absurd (ground arith))
