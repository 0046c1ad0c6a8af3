-- ===== src/Timing.antt =====
-- metrics/timing.c: a span of time in nanoseconds, written as text. The span is not negative.
pub mod Reads
mod Examples
use lmalloc.Common.{
  ℕ, zero, suc, ◌+◌, ◌*◌, ◌/◌, ◌%◌, ◌^◌, Bool, true, false, List, [], ◌∷◌, ◌++◌, ltb, if◌then◌else◌,
  CString, codes,
}

-- `enum time_stamp_fmt`, with what is none of its values.
pub data TimeStampFmt : Type 0 where
  s_ns s_us s_ms us_trunk ms_trunk s_trunk ns us ms s other : TimeStampFmt

-- `%0*lld` with `width` digits, of a number that has no more.
unfoldable pub padded : ℕ → ℕ → CString
padded zero n = []
padded (suc width) n = padded width (n / 10) ++ ((48 + n % 10) ∷ [])

-- `%lld`, of a number with at most `fuel` digits.
unfoldable pub decimal : ℕ → ℕ → CString
decimal zero n = []
decimal (suc fuel) n =
    let front = decimal fuel (n / 10) in
    if ltb n 10 then (48 + n) ∷ [] else front ++ ((48 + n % 10) ∷ [])

-- A 64-bit number has no more digits.
abbrev pub max_digits : ℕ
max_digits = 20

lld : ℕ → CString
unfolding decimal
lld n = decimal max_digits n

-- "%lld" and a unit.
unfoldable pub whole : ℕ → CString → CString
unfolding lld
whole n unit = lld n ++ unit

-- "%lld.%0*lld" and a unit.
unfoldable pub with_fraction : ℕ → ℕ → ℕ → CString → CString
unfolding lld padded
with_fraction n width fraction unit = lld n ++ (46 ∷ (padded width fraction ++ unit))

unfoldable pub format_timing : ℕ → TimeStampFmt → CString
unfolding whole with_fraction
format_timing timing s_ns = with_fraction (timing / 10 ^ 9) 9 (timing % 10 ^ 9) (codes " s")
format_timing timing s_us = with_fraction (timing / 10 ^ 9) 6 (timing % 10 ^ 9 / 1_000) (codes " s")
format_timing timing s_ms =
    with_fraction (timing / 10 ^ 9) 3 (timing % 10 ^ 9 / 1_000_000) (codes " s")
format_timing timing us_trunk = whole (timing / 1_000) (codes " us")
format_timing timing ms_trunk = whole (timing / 1_000_000) (codes " ms")
format_timing timing s_trunk = whole (timing / 10 ^ 9) (codes " s")
format_timing timing ns = whole timing (codes " ns")
format_timing timing us = with_fraction (timing / 1_000) 3 (timing % 1_000) (codes " us")
format_timing timing ms = with_fraction (timing / 1_000_000) 6 (timing % 1_000_000) (codes " ms")
format_timing timing s = with_fraction (timing / 10 ^ 9) 9 (timing % 10 ^ 9) (codes " s")
format_timing timing other = codes "Unknown format"
