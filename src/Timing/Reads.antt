-- ===== src/Timing/Reads.antt =====
-- metrics/timing.c, format_timing: the text read back.
use mathlib.Core.List.{append_assoc}
use native.Mathlib.Nat.{pow-suc, mul_assoc}
use lmalloc.Common.{
  ℕ, zero, suc, ◌+◌, ◌-◌, ◌*◌, ◌/◌, ◌%◌, ◌^◌, ◌<◌, ◌≤◌, ◌≡◌, ◌≢◌, refl, ap, ◌∙◌, inl, inr, true,
  false, Bool-cases, Option, none, some, [], ◌∷◌, ◌++◌, arith, ltb, ◌==◌, ◌&&◌, not, if◌then◌else◌,
  length, length-append, CString, codes, is_digit, scan_digits,
}
use lmalloc.Timing.{
  TimeStampFmt, s_ns, s_us, s_ms, us_trunk, ms_trunk, s_trunk, ns, us, ms, s, other, padded,
  decimal, whole, with_fraction, max_digits, format_timing,
}

-- How many nanoseconds a unit is.
abbrev pub unit_of : CString → Option ℕ
unit_of (a ∷ b ∷ []) = if (a == b' ') && (b == b's') then some (10 ^ 9) else none
unit_of (a ∷ b ∷ c ∷ []) =
    if not ((a == b' ') && (c == b's'))
    then none
    else if b == b'm'
    then some (10 ^ 6)
    else if b == b'u'
    then some (10 ^ 3)
    else if b == b'n'
    then some 1
    else none
unit_of _ = none

abbrev pub in_units : ℕ → ℕ → ℕ → Option ℕ → Option ℕ
in_units n fraction digits none = none
in_units n fraction digits (some unit) = some (n * unit + fraction * (unit / 10 ^ digits))

-- The digits behind the point, of a text that was `before` long behind it.
abbrev pub read_fraction : ℕ → ℕ → ℕ × CString → Option ℕ
read_fraction n before (fraction, rest) = in_units n fraction (before - length rest) (unit_of rest)

abbrev pub read_rest : ℕ × CString → Option ℕ
read_rest (n, []) = none
read_rest (n, c ∷ text) =
    if c == b'.'
    then read_fraction n (length text) (scan_digits text 0)
    else in_units n 0 0 (unit_of (c ∷ text))

-- The nanoseconds that a text with a unit says.
unfoldable pub read_timing : CString → Option ℕ
read_timing text = read_rest (scan_digits text 0)

-- The text does not begin with a digit.
abbrev Ends : CString → Type 0
Ends [] = Unit {0}
Ends (c ∷ text) = is_digit c ≡ false

shifted : (d : ℕ) → 48 + d - 48 ≡ d
shifted d = omega arith

from_zero : (d : ℕ) → 0 + (48 + d - 48) ≡ d
from_zero d = omega arith

scan-padded :
    (width n acc : ℕ) (rest : CString)
    → n < 10 ^ width
    → scan_digits (padded width n ++ rest) acc ≡ scan_digits rest (acc * 10 ^ width + n)
unfolding padded scan_digits
scan-padded zero n acc rest lt = ap (scan_digits rest) (omega arith)
scan-padded (suc width) n acc rest lt =
    let digit : is_digit (48 + n % 10) ≡ true = ground arith in
    let next = pow-suc 10 width in
    let turn = mul_assoc acc (10 ^ width) 10 in
    let short : n / 10 < 10 ^ width = omega arith in
    let value : (acc * 10 ^ width + n / 10) * 10 + n % 10 ≡ acc * 10 ^ suc width + n =
      (let grown = ap (λ k. acc * k) next in omega (arith, turn, grown)) in
    ap (λ text. scan_digits text acc)
      (append_assoc (padded width (n / 10)) ((48 + n % 10) ∷ []) rest)
    ∙ scan-padded width (n / 10) acc ((48 + n % 10) ∷ rest) short
    ∙ rw digit (
        ap (scan_digits rest)
          (ap (λ d. (acc * 10 ^ width + n / 10) * 10 + d) (shifted (n % 10)) ∙ value))

scan-decimal :
    (fuel n : ℕ) (rest : CString)
    → n < 10 ^ fuel
    → scan_digits (decimal fuel n ++ rest) 0 ≡ scan_digits rest n
unfolding decimal scan_digits
scan-decimal zero n rest lt = ap (scan_digits rest) (omega arith)
scan-decimal (suc fuel) n rest lt = elim (Bool-cases (ltb n 10)) [
  | inl one ↦
      let digit : is_digit (48 + n) ≡ true = ground arith in
      rw one (rw digit (ap (scan_digits rest) (from_zero n)))
  | inr more ↦
      let digit : is_digit (48 + n % 10) ≡ true = ground arith in
      let next = pow-suc 10 fuel in
      let short : n / 10 < 10 ^ fuel = omega arith in
      let value : n / 10 * 10 + n % 10 ≡ n = omega arith in
      rw more (
        ap (λ text. scan_digits text 0)
          (append_assoc (decimal fuel (n / 10)) ((48 + n % 10) ∷ []) rest)
        ∙ scan-decimal fuel (n / 10) ((48 + n % 10) ∷ rest) short
        ∙ rw digit (ap (scan_digits rest) (ap (λ d. n / 10 * 10 + d) (shifted (n % 10)) ∙ value)))
]

length-padded : (width n : ℕ) → length (padded width n) ≡ width
unfolding padded
length-padded zero n = refl
length-padded (suc width) n =
    let l = length-append (padded width (n / 10)) ((48 + n % 10) ∷ []) in
    let ih = length-padded width (n / 10) in omega (arith, l, ih)

read-whole :
    (n k : ℕ) (name : CString)
    → n < 10 ^ max_digits
    → unit_of (b' ' ∷ name) ≡ some k
    → read_timing (whole n (b' ' ∷ name)) ≡ some (n * k)
unfolding read_timing whole scan_digits
read-whole n k name small is =
    ap read_rest (scan-decimal max_digits n (b' ' ∷ name) small)
    ∙ ap (in_units n 0 0) is
    ∙ ap some (omega arith)

read-with_fraction :
    (n width fraction k : ℕ) (name : CString)
    → n < 10 ^ max_digits
    → fraction < 10 ^ width
    → unit_of (b' ' ∷ name) ≡ some k
    → read_timing (with_fraction n width fraction (b' ' ∷ name))
      ≡ some (n * k + fraction * (k / 10 ^ width))
unfolding read_timing with_fraction scan_digits
read-with_fraction n width fraction k name small short is =
    let unit = b' ' ∷ name in
    let text = padded width fraction ++ unit in
    let long = length-append (padded width fraction) unit in
    let wide = length-padded width fraction in
    let digits : length text - length unit ≡ width = omega (arith, long, wide) in
    let plain : 0 * 10 ^ width + fraction ≡ fraction = omega arith in
    ap read_rest (scan-decimal max_digits n (b'.' ∷ text) small)
    ∙ ap (read_fraction n (length text)) (scan-padded width fraction 0 unit short)
    ∙ ap (λ f. in_units n f (length text - length unit) (unit_of unit)) plain
    ∙ ap (λ d. in_units n fraction d (unit_of unit)) digits
    ∙ ap (in_units n fraction width) is

-- The nanoseconds that a format rounds down to.
abbrev pub precision : TimeStampFmt → ℕ
precision s_us = 1_000
precision us_trunk = 1_000
precision s_ms = 1_000_000
precision ms_trunk = 1_000_000
precision s_trunk = 1_000_000_000
precision _ = 1

read-format_timing :
    (timing : ℕ) (fmt : TimeStampFmt)
    → timing < 2 ^ 63
    → fmt ≢ other
    → read_timing (format_timing timing fmt) ≡ some (timing / precision fmt * precision fmt)
unfolding format_timing
read-format_timing timing s_ns small known =
    read-with_fraction (timing / 10 ^ 9) 9 (timing % 10 ^ 9) (10 ^ 9) (codes "s") (omega arith)
      (omega arith) refl
    ∙ ap some (omega arith)
read-format_timing timing s_us small known =
    read-with_fraction (timing / 10 ^ 9) 6 (timing % 10 ^ 9 / 1_000) (10 ^ 9) (codes "s")
      (omega arith) (omega arith) refl
    ∙ ap some (omega arith)
read-format_timing timing s_ms small known =
    read-with_fraction (timing / 10 ^ 9) 3 (timing % 10 ^ 9 / 1_000_000) (10 ^ 9) (codes "s")
      (omega arith) (omega arith) refl
    ∙ ap some (omega arith)
read-format_timing timing us_trunk small known =
    read-whole (timing / 1_000) 1_000 (codes "us") (omega arith) refl
read-format_timing timing ms_trunk small known =
    read-whole (timing / 1_000_000) 1_000_000 (codes "ms") (omega arith) refl
read-format_timing timing s_trunk small known =
    read-whole (timing / 10 ^ 9) (10 ^ 9) (codes "s") (omega arith) refl
read-format_timing timing ns small known =
    read-whole timing 1 (codes "ns") (omega arith) refl ∙ ap some (omega arith)
read-format_timing timing us small known =
    read-with_fraction (timing / 1_000) 3 (timing % 1_000) 1_000 (codes "us") (omega arith)
      (omega arith) refl
    ∙ ap some (omega arith)
read-format_timing timing ms small known =
    read-with_fraction (timing / 1_000_000) 6 (timing % 1_000_000) 1_000_000 (codes "ms")
      (omega arith) (omega arith) refl
    ∙ ap some (omega arith)
read-format_timing timing s small known =
    read-with_fraction (timing / 10 ^ 9) 9 (timing % 10 ^ 9) (10 ^ 9) (codes "s") (omega arith)
      (omega arith) refl
    ∙ ap some (omega arith)
read-format_timing timing other small known = absurd (known refl)

length-decimal : (fuel n : ℕ) → length (decimal fuel n) ≤ fuel
unfolding decimal
length-decimal zero n = omega arith
length-decimal (suc fuel) n =
    let l = length-append (decimal fuel (n / 10)) ((48 + n % 10) ∷ []) in
    let ih = length-decimal fuel (n / 10) in ground arith

length-whole : (n : ℕ) (unit : CString) → length (whole n unit) ≤ 20 + length unit
unfolding whole
length-whole n unit =
    let l = length-append (decimal max_digits n) unit in
    let d = length-decimal max_digits n in omega (arith, l, d)

length-with_fraction :
    (n width fraction : ℕ) (unit : CString)
    → length (with_fraction n width fraction unit) ≤ 21 + width + length unit
unfolding with_fraction
length-with_fraction n width fraction unit =
    let l = length-append (decimal max_digits n) (b'.' ∷ (padded width fraction ++ unit)) in
    let d = length-decimal max_digits n in
    let inner = length-append (padded width fraction) unit in
    let wide = length-padded width fraction in omega (arith, l, d, inner, wide)

format_timing-le : (timing : ℕ) (fmt : TimeStampFmt) → length (format_timing timing fmt) ≤ 33
unfolding format_timing
format_timing-le timing s_ns =
    omega (arith, length-with_fraction (timing / 10 ^ 9) 9 (timing % 10 ^ 9) (codes " s"))
format_timing-le timing s_us =
    omega (arith, length-with_fraction (timing / 10 ^ 9) 6 (timing % 10 ^ 9 / 1_000) (codes " s"))
format_timing-le timing s_ms =
    omega
      (arith, length-with_fraction (timing / 10 ^ 9) 3 (timing % 10 ^ 9 / 1_000_000) (codes " s"))
format_timing-le timing us_trunk = omega (arith, length-whole (timing / 1_000) (codes " us"))
format_timing-le timing ms_trunk = omega (arith, length-whole (timing / 1_000_000) (codes " ms"))
format_timing-le timing s_trunk = omega (arith, length-whole (timing / 10 ^ 9) (codes " s"))
format_timing-le timing ns = omega (arith, length-whole timing (codes " ns"))
format_timing-le timing us =
    omega (arith, length-with_fraction (timing / 1_000) 3 (timing % 1_000) (codes " us"))
format_timing-le timing ms =
    omega (arith, length-with_fraction (timing / 1_000_000) 6 (timing % 1_000_000) (codes " ms"))
format_timing-le timing s =
    omega (arith, length-with_fraction (timing / 10 ^ 9) 9 (timing % 10 ^ 9) (codes " s"))
format_timing-le timing other = omega arith

-- The text of a time of 64 bits that is not negative, in one of the formats, fits the buffer of 64 bytes with its NUL. Read back, it says the time,
-- rounded down to what the format shows; five of the ten formats lose nothing.
pub format_timing_lem :
    (timing : ℕ) (fmt : TimeStampFmt)
    → timing < 2 ^ 63
    → fmt ≢ other
    → (length (format_timing timing fmt) < 64)
      × (read_timing (format_timing timing fmt) ≡ some (timing / precision fmt * precision fmt))
format_timing_lem timing fmt small known =
    (omega (arith, format_timing-le timing fmt), read-format_timing timing fmt small known)
